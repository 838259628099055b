-- ===== src/Logging/Errors.antt =====
-- utils/logging/ErrorLogger: the black box of the last events. Each operation is one step, as where no
-- interrupt comes between.
pub mod Laws
use sputter_os.Prelude.{ℕ, ◌+◌, List, [], ◌∷◌, Option, none, some, ◌==◌, if◌then◌else◌, get_or, set}
use sputter_os.Sync.Ring.{used, next}

pub data ErrorCode : Type 0 where
  state_transition interlock_trip soft_abort hard_fault arc_detected sensor_error watchdog_kick :
      ErrorCode
  timer_rollover invalid_state crunch_overrun deadline_miss : ErrorCode

-- `F` is the type `float`.
pub record Entry (F : Type 0) : Type 0 where
  pub code : ErrorCode
  pub timestamp : ℕ
  pub value : F

pub record ErrorLogger (F : Type 0) : Type 0 where
  pub buf : List (Entry F)
  pub head : ℕ
  pub tail : ℕ

abbrev pub log_capacity : ℕ
log_capacity = 32

abbrev pub log_slots : ℕ
log_slots = log_capacity + 1

module _ {F : Type 0} where
  -- With nothing between the load of `m_tail` and the compare-exchange, the exchange succeeds.
  unfoldable pub log : ErrorLogger F → ErrorCode → ℕ → F → ErrorLogger F
  log l code timestamp value =
      let after = next log_slots l.head in
      record {
        buf = set l.buf l.head (record { code = code; timestamp = timestamp; value = value });
        head = after;
        tail = if after == l.tail then next log_slots l.tail else l.tail;
      }

  -- `dflt` is what a read out of range would give; the invariant rules it out.
  unfoldable pub read : Entry F → ErrorLogger F → Option (Entry F) × ErrorLogger F
  read dflt l =
      if l.tail == l.head
      then (none, l)
      else (some (get_or l.buf l.tail dflt), record l { tail = next log_slots l.tail })

  unfoldable pub count : ErrorLogger F → ℕ
  count l = used log_slots l.head l.tail

  unfoldable pub clear : ErrorLogger F → ErrorLogger F
  clear l = record l { tail = l.head }
