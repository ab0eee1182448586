-- ===== src/Time/Tests.antt =====
-- The difference of two times, at concrete times.
use jsockd.Prelude.{arith, ◌≡◌, refl}
use jsockd.Prelude.Int.{negsuc, sub_ℕ}
use jsockd.Time.{Timespec, to_ns, ns_time_diff}
use jsockd.Time.Diff.{ns_time_diff-nanoseconds}

abbrev early : Timespec
early = record { tv_sec = 7; tv_nsec = 900000000 }

abbrev late : Timespec
late = record { tv_sec = 9; tv_nsec = 100000000 }

diff_runs : ns_time_diff early late ≡ negsuc 1199999999
unfolding ns_time_diff to_ns
diff_runs = refl

ns_time_diff-nanoseconds_example : ns_time_diff early late ≡ sub_ℕ 7900000000 9100000000
ns_time_diff-nanoseconds_example =
    ns_time_diff-nanoseconds early late (omega arith) (omega arith) (omega arith) (omega arith)
