-- ===== src/Sync/Watchdog/Staleness.antt =====
-- When `WatchdogSync` reports a core as stale.
use sputter_os.Prelude.{
  ℕ, ◌-◌, ◌≤◌, ◌<◌, true, false, ◌≡◌, ◌≢◌, arith, ltb, length, get_or, set, get_or-set_self,
  get_or-set_ne,
}
use sputter_os.Sync.Watchdog.{
  Watchdog, word64, kick, has_started, last_kick_time, time_since, is_stale,
}

-- After a kick of a monitored core, a look at it no earlier than the kick finds it stale exactly
-- when more than the timeout has passed. A look with an earlier clock sees the difference wrapped,
-- so that the core counts as stale for any timeout below `2 ^ 64` less the lag. The report on any
-- other core does not change.
pub is_stale-kick :
    (d : Watchdog) (core_id t now timeout : ℕ)
    → core_id < length d.last_kick
    → length d.alive ≡ length d.last_kick
    → t < word64
    → now < word64
    → (t ≤ now → is_stale (kick d core_id t) core_id now timeout ≡ ltb timeout (now - t))
      × ((now < t
            → is_stale (kick d core_id t) core_id now timeout ≡ ltb timeout (word64 - (t - now)))
          × ((other : ℕ)
              → core_id ≢ other
              → is_stale (kick d core_id t) other now timeout ≡ is_stale d other now timeout))
unfolding is_stale kick has_started last_kick_time
is_stale-kick d core_id t now timeout here same ht hn =
    let alive_now : get_or (set d.alive core_id true) core_id false ≡ true =
      get_or-set_self d.alive core_id true false (omega arith) in
    let last_now : get_or (set d.last_kick core_id t) core_id 0 ≡ t =
      get_or-set_self d.last_kick core_id t 0 here in
    (
      λ later. let e : time_since t now ≡ now - t = omega arith in rw (alive_now, last_now, e),
      (
        λ earlier.
            let e : time_since t now ≡ word64 - (t - now) = omega arith in
            rw (alive_now, last_now, e),
        λ other ne. rw (
          get_or-set_ne d.alive core_id other true false ne,
          get_or-set_ne d.last_kick core_id other t 0 ne,
        ),
      ),
    )
