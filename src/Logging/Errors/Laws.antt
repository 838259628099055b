-- ===== src/Logging/Errors/Laws.antt =====
-- The logger holds the last 32 events, oldest first.
use sputter_os.Prelude.{
  ℕ, suc, ◌≤◌, ◌<◌, ◌≡◌, refl, ◌∙◌, arith, List, length, length-set, ◌==◌, Bool-cases, inl, inr,
  ge→ltb, lt→ltb,
}
use sputter_os.Sync.Fifo.{displace, drop_oldest, poll}
use sputter_os.Sync.Ring.{
  used, next, Leads, next_cases, window, length-window, next-lt, used_self, used_push, used_pop,
  used-Leads, window-set,
}
use sputter_os.Logging.Errors.{
  ErrorCode, Entry, ErrorLogger, log_capacity, log_slots, log, read, count,
}

-- The indices around a full ring.
full_ring :
    (head tail : ℕ)
    → head < log_slots
    → tail < log_slots
    → next log_slots head ≡ tail
    → (used log_slots head tail ≡ 32)
      × (used log_slots (next log_slots head) (next log_slots tail) ≡ 32)
      × Leads log_slots (next log_slots tail) 31 head
unfolding used
full_ring head tail h t e = ground (arith, next_cases log_slots head h, next_cases log_slots tail t)

module _ {F : Type 0} (dflt : Entry F) where
  pub record IsValid (l : ErrorLogger F) : Type 0 where
    pub storage : length l.buf ≡ log_slots
    pub head_in : l.head < log_slots
    pub tail_in : l.tail < log_slots

  abbrev pub events : ErrorLogger F → List (Entry F)
  events l = window dflt log_slots l.buf l.tail (used log_slots l.head l.tail)

  -- On a valid logger `log` puts the event behind the others, and gives up the oldest when 32 are held;
  -- the count never passes 32 and the logger stays valid.
  pub log_displaces :
      (l : ErrorLogger F) (code : ErrorCode) (timestamp : ℕ) (value : F)
      → IsValid l
      → let l' = log l code timestamp value in
        (events l'
          ≡ displace log_capacity
              (events l)
              (record { code = code; timestamp = timestamp; value = value }))
        × (count l' ≤ log_capacity)
        × IsValid l'
  unfolding log displace count
  log_displaces l code timestamp value v =
      let event : Entry F = record { code = code; timestamp = timestamp; value = value } in
      let n = used log_slots l.head l.tail in
      let storage = length-set l.buf l.head event ∙ v.storage in
      let head_in = next-lt log_slots l.head (omega arith) in
      elim (Bool-cases (next log_slots l.head == l.tail)) [
        | inl full ↦
            let (count_is, after_is, leads) =
              full_ring l.head l.tail v.head_in v.tail_in (ground arith) in
            rw (full, after_is, count_is)
              (
                window-set dflt log_slots l.buf event 31 (next log_slots l.tail) l.head v.storage
                      (next-lt log_slots l.tail (omega arith)) v.head_in (omega arith) leads
                    ∙ rw
                        (ge→ltb (length (window dflt log_slots l.buf l.tail 32)) 32
                          (omega (arith, length-window dflt log_slots l.buf l.tail 32)))
                        (unfold drop_oldest window in refl),
                omega arith,
                record {
                  storage = storage;
                  head_in = head_in;
                  tail_in = next-lt log_slots l.tail (omega arith);
                },
              )
        | inr free ↦
            let (grown, room) =
              used_push log_slots l.head l.tail v.head_in v.tail_in (ground arith) in
            let grown' : used log_slots (next log_slots l.head) l.tail ≡ suc n = omega arith in
            rw (free, grown')
              (
                window-set dflt log_slots l.buf event n l.tail l.head v.storage v.tail_in v.head_in
                      (omega arith) (used-Leads log_slots l.head l.tail v.head_in v.tail_in)
                    ∙ rw (
                        lt→ltb (length (events l)) 32
                          (omega (arith, length-window dflt log_slots l.buf l.tail n))),
                omega arith,
                record { storage = storage; head_in = head_in; tail_in = v.tail_in },
              )
      ]

  -- `read` takes the oldest event, and fails when there is none.
  pub read_oldest :
      (l : ErrorLogger F)
      → IsValid l
      → let (got, l') = read dflt l in ((got, events l') ≡ poll (events l)) × IsValid l'
  unfolding read poll window
  read_oldest l v = elim (Bool-cases (l.tail == l.head)) [
    | inl none_left ↦
        let e : l.tail ≡ l.head = ground arith in
        let zeroed : used log_slots l.head l.tail ≡ 0 = rw e (used_self log_slots l.head) in
        rw (none_left, zeroed) (refl, v)
    | inr some_left ↦
        let shrunk : used log_slots l.head l.tail
            ≡ suc (used log_slots l.head (next log_slots l.tail)) =
          omega (arith, used_pop log_slots l.head l.tail v.head_in v.tail_in (ground arith)) in
        rw (some_left, shrunk)
          (
            refl,
            record {
              storage = v.storage;
              head_in = v.head_in;
              tail_in = next-lt log_slots l.tail (omega arith);
            },
          )
  ]
