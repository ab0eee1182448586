-- ===== src/Time/Diff.antt =====
-- `ns_time_diff` (jsockd_server/src/utils.c) is the difference of the times in nanoseconds.
use jsockd.Prelude.{ℕ, ◌+◌, ◌-◌, ◌*◌, ◌<◌, ◌^◌, ◌≡◌, ltb, Bool-cases, inl, inr, arith}
use jsockd.Prelude.Int.{pos, sub_int64, sub_ℕ}
use jsockd.Time.{Timespec, to_ns, ns_time_diff}

-- The time in nanoseconds.
abbrev pub nanoseconds : Timespec → ℕ
nanoseconds t = t.tv_sec * 1000000000 + t.tv_nsec

-- The nanoseconds of a normalized time are less than a second.
abbrev pub IsNormal : Timespec → Type 0
IsNormal t = t.tv_nsec < 1000000000

to_ns-pos :
    (sec nsec : ℕ)
    → sec * 1000000000 + nsec < 2 ^ 63
    → to_ns sec nsec ≡ pos (sec * 1000000000 + nsec)
unfolding to_ns
to_ns-pos sec nsec h = ground (arith, h)

sub_int64-pos : (a b : ℕ) → a < 2 ^ 63 → b < 2 ^ 63 → sub_int64 (pos a) (pos b) ≡ sub_ℕ a b
sub_int64-pos a b h k = ground (arith, h, k)

-- `ns_time_diff` is the first time minus the second, in nanoseconds, also where the seconds and the
-- nanoseconds differ in opposite directions. The times are normalized, and their seconds differ by
-- less than 9223372036, which is 292 years: then nothing wraps.
pub ns_time_diff-nanoseconds :
    (t1 t2 : Timespec)
    → IsNormal t1
    → IsNormal t2
    → t1.tv_sec < t2.tv_sec + 9223372036
    → t2.tv_sec < t1.tv_sec + 9223372036
    → ns_time_diff t1 t2 ≡ sub_ℕ (nanoseconds t1) (nanoseconds t2)
unfolding ns_time_diff
ns_time_diff-nanoseconds t1 t2 n1 n2 h k = elim (Bool-cases (ltb t1.tv_sec t2.tv_sec)) [
  | inl e ↦
      rw
        (
          e,
          to_ns-pos 0 t1.tv_nsec (omega (arith, n1)),
          to_ns-pos (t2.tv_sec - t1.tv_sec) t2.tv_nsec (omega (arith, n2, k)),
          sub_int64-pos (0 * 1000000000 + t1.tv_nsec)
              ((t2.tv_sec - t1.tv_sec) * 1000000000 + t2.tv_nsec) (omega (arith, n1))
              (omega (arith, n2, k)),
        )
        (ground (arith, e))
  | inr e ↦
      rw
        (
          e,
          to_ns-pos 0 t2.tv_nsec (omega (arith, n2)),
          to_ns-pos (t1.tv_sec - t2.tv_sec) t1.tv_nsec (omega (arith, n1, h)),
          sub_int64-pos ((t1.tv_sec - t2.tv_sec) * 1000000000 + t1.tv_nsec)
              (0 * 1000000000 + t2.tv_nsec) (omega (arith, n1, h)) (omega (arith, n2)),
        )
        (ground (arith, e))
]
