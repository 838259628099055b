-- ===== src/Kernel/Metrics/Health/Bounds.antt =====
-- The utilisation of a core is a share: busy time never exceeds the time that it is a share of.
use sputter_os.Prelude.{ℕ, ◌+◌, ◌-◌, ◌≤◌, ◌<◌, ◌≡◌, arith, if◌then◌else◌, leb, Bool-cases, inl, inr}
use sputter_os.Kernel.Metrics.Health.{
  Utilization, record_tick_end, close_tick_window, window_ticks, get_busy_us, get_window_us,
}

pub record IsShare (u : Utilization) : Type 0 where
  pub current : u.busy_us ≤ u.total_us
  pub reported : u.reported_busy_us ≤ u.reported_total_us
  pub ticks : u.tick_count < window_ticks

close_tick_window-IsShare :
    (u : Utilization)
    → u.busy_us ≤ u.total_us
    → u.reported_busy_us ≤ u.reported_total_us
    → IsShare (close_tick_window u)
unfolding close_tick_window
close_tick_window-IsShare u h r = elim (Bool-cases (leb window_ticks u.tick_count)) [
  | inl e ↦ rw e (record { current = omega arith; reported = h; ticks = omega arith })
  | inr e ↦ rw e (record { current = h; reported = r; ticks = ground arith })
]

get_busy_us-le : (u : Utilization) → IsShare u → get_busy_us u ≤ get_window_us u
unfolding get_busy_us get_window_us
get_busy_us-le u s = let a = s.current in let b = s.reported in ground arith

-- A tick whose busy time lies within its wall time keeps the busy time within the total, in the window
-- in progress and in the reported one, as long as the total stays within 64 bits; so the utilisation
-- reported is at most 1. A window has fewer than 1000 ticks while it is in progress.
pub record_tick_end-IsShare :
    (u : Utilization) (now busy : ℕ)
    → IsShare u
    → busy ≤ now - u.tick_start
    → u.total_us + (now - u.tick_start) < 18446744073709551616
    → IsShare (record_tick_end u now busy)
      × (get_busy_us (record_tick_end u now busy) ≤ get_window_us (record_tick_end u now busy))
unfolding record_tick_end
record_tick_end-IsShare u now busy s h w =
    let wall : (if leb u.tick_start now then now - u.tick_start else 0) ≡ now - u.tick_start =
      ground arith in
    let a = s.current in
    let share : IsShare (record_tick_end u now busy) =
      rw (record_tick_end, wall) (close_tick_window-IsShare _ (omega arith) s.reported) in
    (share, get_busy_us-le (record_tick_end u now busy) share)
