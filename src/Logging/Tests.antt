-- ===== src/Logging/Tests.antt =====
-- The loggers' theorems at concrete inputs.
use sputter_os.Prelude.{ℕ, ◌≤◌, ◌≡◌, refl, arith, replicate}
use sputter_os.Sync.Fifo.{displace}
use sputter_os.Logging.Errors.{Entry, ErrorLogger, soft_abort, arc_detected, log, count}
use sputter_os.Logging.Errors.Laws.{IsValid, events, log_displaces}

abbrev blank : Entry ℕ
blank = record { code = soft_abort; timestamp = 0; value = 0 }

-- 32 events held: the next one displaces the oldest.
abbrev packed : ErrorLogger ℕ
packed = record { buf = replicate 33 blank; head = 4; tail = 5 }

log_displaces_example :
    let l' = log packed arc_detected 77 3 in
    (events blank l'
      ≡ displace 32
          (events blank packed)
          (record { code = arc_detected; timestamp = 77; value = 3 }))
    × (count l' ≤ 32)
    × IsValid blank l'
log_displaces_example =
    log_displaces blank packed arc_detected 77 3
      (record { storage = refl; head_in = omega arith; tail_in = omega arith })
