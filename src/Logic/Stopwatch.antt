-- ===== src/Logic/Stopwatch.antt =====
-- include/sputteros/utils/NonBlockingStopwatch.h and src/utils/NonBlockingStopwatch.cpp, with 64-bit times.
use sputter_os.Prelude.{
  ℕ, ◌+◌, ◌-◌, ◌%◌, ◌<◌, ◌≡◌, refl, arith, Bool, true, false, ◌&&◌, if◌then◌else◌, leb,
}

pub record Stopwatch : Type 0 where
  pub start_time : ℕ
  pub is_running : Bool

-- The constructor and `reset`.
abbrev pub stopped_watch : Stopwatch
stopped_watch = record { start_time = 0; is_running = false }

unfoldable pub start_watch : Stopwatch → ℕ → Stopwatch
start_watch s now = record { start_time = now; is_running = true }

unfoldable pub stop_watch : Stopwatch → Stopwatch
stop_watch s = record s { is_running = false }

-- Unsigned subtraction.
unfoldable pub elapsed_watch : Stopwatch → ℕ → ℕ
elapsed_watch s now =
    if s.is_running then (now + (18446744073709551616 - s.start_time)) % 18446744073709551616 else 0

unfoldable pub has_expired : Stopwatch → ℕ → ℕ → Bool
has_expired s now duration = s.is_running && leb duration (elapsed_watch s now)

-- A watch started at `t` has expired exactly when the duration has passed, also where the clock wraps
-- once in between; a stopped watch shows 0 and has never expired.
pub has_expired_iff :
    (s : Stopwatch) (t passed duration : ℕ)
    → t < 18446744073709551616
    → passed < 18446744073709551616
    → let now = (t + passed) % 18446744073709551616 in
      ((elapsed_watch (start_watch s t) now ≡ passed)
        × (has_expired (start_watch s t) now duration ≡ leb duration passed))
      × ((elapsed_watch (stop_watch s) now ≡ 0) × (has_expired (stop_watch s) now duration ≡ false))
unfolding elapsed_watch start_watch stop_watch has_expired
has_expired_iff s t passed duration ht hp =
    let now = (t + passed) % 18446744073709551616 in
    let e : (now + (18446744073709551616 - t)) % 18446744073709551616 ≡ passed = omega arith in
    ((e, rw e), (refl, refl))
