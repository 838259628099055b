-- ===== src/Kernel/Metrics/Deadline.antt =====
-- kernel/metrics/DeadlineTracker.h. Times are 64-bit microseconds that wrap around.
pub mod Laws
use sputter_os.Prelude.{
  ℕ, zero, suc, ◌+◌, ◌-◌, ◌%◌, Bool, Option, none, some, if◌then◌else◌, ltb, leb,
}

abbrev pub wrap64 : ℕ → ℕ
wrap64 n = n % 18446744073709551616

pub record DeadlineTracker : Type 0 where
  pub next_activation : ℕ
  pub period_us : ℕ
  pub phase_offset_us : ℕ

unfoldable pub init : DeadlineTracker → ℕ → DeadlineTracker
init t start_time = record t { next_activation = wrap64 (start_time + t.phase_offset_us) }

unfoldable pub is_due : DeadlineTracker → ℕ → Bool
is_due t now = leb t.next_activation now

-- The loop of `advance`, with what is left of its fuel; `none` where the fuel runs out.
unfoldable pub skip_missed : ℕ → ℕ → ℕ → ℕ → Option ℕ
skip_missed zero period now next = none
skip_missed (suc fuel) period now next =
    let rest = skip_missed fuel period now (wrap64 (next + period)) in
    if leb next now then rest else some next

unfoldable pub advance : ℕ → DeadlineTracker → ℕ → Option DeadlineTracker
advance fuel t now =
    elim (skip_missed fuel t.period_us now (wrap64 (t.next_activation + t.period_us))) [
      | none ↦ none
      | some next ↦ some (record t { next_activation = next })
    ]

unfoldable pub time_until_next : DeadlineTracker → ℕ → ℕ
time_until_next t now = if ltb now t.next_activation then t.next_activation - now else 0
