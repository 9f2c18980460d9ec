-- ===== src/Threads/Sleep.antt =====
-- `thread_sleep` of src/torc_thread.c: the times that `nanosleep` gets.
use native.Mathlib.Nat.{mod-lt}
use torc_lite.Common.{ℕ, zero, suc, ◌+◌, ◌*◌, ◌/◌, ◌%◌, ◌<◌, ◌≡◌, refl, arith}
use torc_lite.Common.Int.{ℤ, pos, negsuc}
use torc_lite.Nodes.{rem_int}

-- C's quotient of an `int` by a positive number is rounded to zero.
abbrev pub quot_int : ℤ → ℕ → ℤ
quot_int (pos n) m = pos (n / m)
quot_int (negsuc n) m = elim (suc n / m) [ zero ↦ pos 0 | suc q ↦ negsuc q ]

abbrev pub times_int : ℤ → ℕ → ℤ
times_int (pos n) m = pos (n * m)
times_int (negsuc n) m = elim (suc n * m) [ zero ↦ pos 0 | suc q ↦ negsuc q ]

-- Seconds and nanoseconds; a negative part makes `nanosleep` return at once.
pub record Timespec : Type 0 where
  pub tv_sec : ℤ
  pub tv_nsec : ℤ

unfoldable pub thread_sleep : ℤ → Timespec
thread_sleep ms = record {
  tv_sec = quot_int ms 1000;
  tv_nsec = times_int (rem_int ms 1000) 1000000;
}

-- A sleep of `ms` ≥ 0 milliseconds asks `nanosleep` for exactly that time, with a part in
-- nanoseconds below one second, as `nanosleep` wants it.
pub thread_sleep-exact :
    (ms : ℕ)
    → (s ns : ℕ) × (thread_sleep (pos ms) ≡ record { tv_sec = pos s; tv_nsec = pos ns })
      × (ns < 1000000000)
      × (s * 1000000000 + ns ≡ ms * 1000000)
unfolding thread_sleep
thread_sleep-exact ms =
    let r = mod-lt ms {m = 1000} (omega arith) in
    (ms / 1000, ms % 1000 * 1000000, refl, omega (arith, r), omega arith)
