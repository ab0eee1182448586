-- ===== src/Time.antt =====
-- The clock readings of jsockd_server/src/utils.c.
pub mod Diff
mod Tests
use jsockd.Prelude.{ℕ, ◌%◌, ◌^◌, ◌+◌, ◌-◌, ◌*◌, ltb, if◌then◌else◌}
use jsockd.Prelude.Int.{ℤ, to_int64, sub_int64}

-- `struct timespec`
pub record Timespec : Type 0 where
  pub tv_sec : ℕ
  pub tv_nsec : ℕ

-- A number of seconds and nanoseconds: the product and the sum are those of `uint64_t`, and the result
-- is converted to `int64_t`.
unfoldable pub to_ns : ℕ → ℕ → ℤ
to_ns sec nsec = to_int64 ((sec * 1000000000 % 2 ^ 64 + nsec) % 2 ^ 64)

-- `ns_time_diff`. The smaller number of seconds is taken from both; the last difference is one of
-- `int64_t`, as the bit pattern.
unfoldable pub ns_time_diff : Timespec → Timespec → ℤ
ns_time_diff t1 t2 =
    if ltb t1.tv_sec t2.tv_sec
    then sub_int64 (to_ns 0 t1.tv_nsec) (to_ns (t2.tv_sec - t1.tv_sec) t2.tv_nsec)
    else sub_int64 (to_ns (t1.tv_sec - t2.tv_sec) t1.tv_nsec) (to_ns 0 t2.tv_nsec)
