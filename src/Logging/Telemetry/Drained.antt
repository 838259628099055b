-- ===== src/Logging/Telemetry/Drained.antt =====
-- What reaches the write function of `TelemetryLogger::drain`.
use sputter_os.Prelude.{
  ℕ, zero, suc, ◌+◌, ◌≤◌, ◌<◌, List, [], ◌∷◌, ◌≡◌, refl, ◌∙◌, ap, arith, if◌then◌else◌, ltb, ◌==◌,
  length, length-set, take, get_or, set, Bool-cases, inl, inr, lt→ltb, ge→ltb, ==_iff,
}
use sputter_os.Sync.Fifo.{displace, drop_oldest}
use sputter_os.Sync.Ring.{next, next_cases, next-lt, Leads, window, length-window, window-set}
use sputter_os.Logging.Telemetry.{
  TaskId, Message, Telemetry, blank, log_message, render_message, drain_loop, drain,
}

pub record IsValid (l : Telemetry) : Type 0 where
  pub storage : length l.buf ≡ 32
  pub head_in : l.head < 32
  pub tail_in : l.tail < 32
  pub count_in : l.count ≤ 32
  pub leads : Leads 32 l.tail l.count l.head

-- The messages held, oldest first.
abbrev pub messages : Telemetry → List Message
messages l = window blank 32 l.buf l.tail l.count

-- On a valid logger a message, cut to 63 characters, goes behind the others, and the oldest is given
-- up when 32 are held; the logger stays valid.
pub log_message_displaces :
    (l : Telemetry) (task : TaskId) (text : List ℕ) (level timestamp : ℕ)
    → IsValid l
    → let l' = log_message l task text level timestamp in
      (messages l'
        ≡ displace 32
            (messages l)
            (record { timestamp = timestamp; task = task; level = level; text = take 63 text }))
      × IsValid l'
unfolding log_message displace
log_message_displaces l task text level timestamp v =
    let e : Message = record {
      timestamp = timestamp;
      task = task;
      level = level;
      text = take 63 text;
    } in
    let storage = length-set l.buf l.head e ∙ v.storage in
    let head_in = next-lt 32 l.head (omega arith) in
    let steps = next_cases 32 l.head v.head_in in
    elim (Bool-cases (l.count == 32)) [
      | inl full ↦
          let thirty_two : l.count ≡ 32 = (==_iff l.count 32).0 full in
          let moved : Leads 32 (next 32 l.tail) 31 l.head =
            ground (arith, v.leads, thirty_two, next_cases 32 l.tail v.tail_in) in
          rw (full, thirty_two)
            (
              window-set blank 32 l.buf e 31 (next 32 l.tail) l.head v.storage
                    (next-lt 32 l.tail (omega arith)) v.head_in (omega arith) moved
                  ∙ rw
                      (ge→ltb (length (window blank 32 l.buf l.tail 32)) 32
                        (omega (arith, length-window blank 32 l.buf l.tail 32)))
                      (unfold drop_oldest window in refl),
              record {
                storage = storage;
                head_in = head_in;
                tail_in = next-lt 32 l.tail (omega arith);
                count_in = omega arith;
                leads = ground (arith, v.leads, thirty_two, steps, next_cases 32 l.tail v.tail_in);
              },
            )
      | inr free ↦
          let small : l.count < 32 = ground (arith, v.count_in) in
          let more : l.count + 1 ≡ suc l.count = omega arith in
          rw free (
            ap (λ n. window blank 32 (set l.buf l.head e) l.tail n) more
                ∙ window-set blank 32 l.buf e l.count l.tail l.head v.storage v.tail_in v.head_in
                    small v.leads
                ∙ rw (
                    lt→ltb (length (messages l)) 32
                      (omega (arith, length-window blank 32 l.buf l.tail l.count))),
            record {
              storage = storage;
              head_in = head_in;
              tail_in = v.tail_in;
              count_in = omega arith;
              leads = ground (arith, v.leads, small, steps);
            },
          )
    ]

-- What `drain` writes for a list of messages.
abbrev pub lines_of : ℕ → List Message → List (List ℕ)
lines_of verbosity [] = []
lines_of verbosity (e ∷ es) =
    let rest = lines_of verbosity es in
    if ltb verbosity e.level then rest else (render_message e).chars ∷ rest

drain_loop-lines :
    (n : ℕ) (l : Telemetry)
    → (drain_loop n l).0 ≡ lines_of l.verbosity (window blank 32 l.buf l.tail n)
unfolding drain_loop window
drain_loop-lines zero l = refl
drain_loop-lines (suc n) l =
    let l' = record l { tail = next 32 l.tail; count = n } in
    let rest = drain_loop-lines n l' in
    elim (Bool-cases (ltb l.verbosity (get_or l.buf l.tail blank).level)) [
      | inl e ↦ rw e rest
      | inr e ↦ rw e (ap (λ w. (render_message (get_or l.buf l.tail blank)).chars ∷ w) rest)
    ]

drain_loop-IsValid :
    (n : ℕ) (l : Telemetry)
    → IsValid l
    → l.count ≡ n
    → (messages (drain_loop n l).1 ≡ []) × IsValid (drain_loop n l).1
unfolding drain_loop window
drain_loop-IsValid zero l v e = (ap (λ n. window blank 32 l.buf l.tail n) e, v)
drain_loop-IsValid (suc n) l v e =
    let l' : Telemetry = record l { tail = next 32 l.tail; count = n } in
    let v' : IsValid l' = record {
      storage = v.storage;
      head_in = v.head_in;
      tail_in = next-lt 32 l.tail (omega arith);
      count_in = omega (arith, v.count_in, e);
      leads = ground (arith, v.leads, e, next_cases 32 l.tail v.tail_in);
    } in
    let rest = drain_loop-IsValid n l' v' refl in
    elim (Bool-cases (ltb l.verbosity (get_or l.buf l.tail blank).level)) [
      | inl t ↦ rw t rest
      | inr t ↦ rw t rest
    ]

-- Draining a valid logger writes the messages held, oldest first and one line each, without those
-- above the verbosity, and leaves a valid logger that holds none.
pub drain_writes :
    (l : Telemetry)
    → IsValid l
    → ((drain l).0 ≡ lines_of l.verbosity (messages l))
      × ((messages (drain l).1 ≡ []) × IsValid (drain l).1)
unfolding drain
drain_writes l v = (drain_loop-lines l.count l, drain_loop-IsValid l.count l v refl)
