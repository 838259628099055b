-- ===== src/Sync/Watchdog.antt =====
-- include/sputteros/osal/sync/WatchdogSync.h. Times are 64-bit; the store as `int64_t` and back is the
-- identity on them.
pub mod Staleness
use sputter_os.Prelude.{
  ℕ, ◌+◌, ◌-◌, ◌%◌, Bool, true, false, not, List, [], ◌∷◌, if◌then◌else◌, ltb, get_or, set,
  replicate,
}

pub record Watchdog : Type 0 where
  pub last_kick : List ℕ
  pub alive : List Bool

abbrev pub word64 : ℕ
word64 = 18446744073709551616

-- The constructor.
unfoldable pub make_watchdog : ℕ → Watchdog
make_watchdog n_cores = record { last_kick = replicate n_cores 0; alive = replicate n_cores false }

unfoldable pub kick : Watchdog → ℕ → ℕ → Watchdog
kick d core_id now = record {
  last_kick = set d.last_kick core_id now;
  alive = set d.alive core_id true;
}

unfoldable pub has_started : Watchdog → ℕ → Bool
has_started d core_id = get_or d.alive core_id false

unfoldable pub last_kick_time : Watchdog → ℕ → ℕ
last_kick_time d core_id = get_or d.last_kick core_id 0

-- `systemTimeMicros - lastKick`, unsigned.
abbrev pub time_since : ℕ → ℕ → ℕ
time_since last now = (now + (word64 - last % word64)) % word64

unfoldable pub is_stale : Watchdog → ℕ → ℕ → ℕ → Bool
is_stale d core_id now timeout =
    let silent = ltb timeout (time_since (last_kick_time d core_id) now) in
    if not (has_started d core_id) then false else silent
