-- ===== src/Sync/Tests.antt =====
-- Concrete runs of the queue, and its theorems at concrete inputs.
use sputter_os.Sync.Buffer.{slot, store, Writer, Reader, Shared, Move, Moves}
use sputter_os.Sync.Buffer.Tearing.{fresh, read_whole}
use sputter_os.Prelude.{true, ℕ, ◌≤◌, ◌<◌, ◌≡◌, ◌≢◌, refl, arith, Bool, List, [], ◌∷◌, ◌++◌, length}
use sputter_os.Sync.Ring.{next, used, window}
use sputter_os.Sync.Queue.{Queue, try_push}
use sputter_os.Sync.Queue.Laws.{IsValid, contents}
use sputter_os.Sync.Spsc.{Producer, Consumer, World, Step, Reach, here, after}
use sputter_os.Sync.Spsc.Order.{new_world, spsc_fifo, spsc_no_race}

-- Capacity 2, in three slots: 8, then 9, round the end of the storage.
abbrev wrapped : Queue ℕ
wrapped = record { buf = 9 ∷ 7 ∷ 8 ∷ []; head = 1; tail = 2 }

wrapped-IsValid : IsValid 0 2 wrapped
wrapped-IsValid = record { storage = refl; head_in = omega arith; tail_in = omega arith }

contents-wrapped : contents 0 2 wrapped ≡ 8 ∷ 9 ∷ []
unfolding window used next
contents-wrapped = refl

push_full : (try_push 0 2 wrapped 5).0 ≡ Bool.false
unfolding try_push next
push_full = refl

abbrev storage : List ℕ
storage = 0 ∷ 0 ∷ 0 ∷ []

-- One item published.
abbrev one_in : World ℕ
one_in = record {
  queue = record { buf = 7 ∷ 0 ∷ 0 ∷ []; head = next 3 0; tail = 0 };
  producer = Producer.idle;
  consumer = Consumer.idle;
  pushed = 7 ∷ [];
  popped = [];
}

Reach-one : Reach 0 2 (new_world 0 2 storage 0) one_in
unfolding next
Reach-one =
    after
      (after (after (after here (Step.push_begin 7 refl)) (Step.push_free 7 0 refl (omega arith)))
        (Step.push_write 7 0 refl))
      (Step.push_publish 7 0 refl)

-- The producer about to write a second item, while the consumer is about to read the first.
abbrev both_busy : World ℕ
both_busy = record one_in {
  producer = Producer.cleared 8 (next 3 0);
  consumer = Consumer.cleared 0;
}

Reach-busy : Reach 0 2 (new_world 0 2 storage 0) both_busy
unfolding next
Reach-busy =
    after
      (after
        (after (after Reach-one (Step.push_begin 8 refl)) (Step.push_free 8 1 refl (omega arith)))
        (Step.pop_begin refl))
      (Step.pop_some 0 refl (omega arith))

spsc_fifo_example :
    (both_busy.pushed ≡ both_busy.popped ++ contents 0 2 both_busy.queue)
    × (length (contents 0 2 both_busy.queue) ≤ 2)
spsc_fifo_example = spsc_fifo 0 2 storage 0 refl (omega arith) Reach-busy

spsc_no_race_example : (next 3 0 ≢ 0) × (next 3 0 < 3) × (0 < 3)
spsc_no_race_example = spsc_no_race 0 2 storage 0 refl (omega arith) Reach-busy refl refl

-- A read of the first value written.
abbrev after_read : Shared ℕ
after_read = record {
  buffer = record { slot_0 = (0, 0); slot_1 = (3, 4); write_index = true };
  writer = Writer.idle;
  reader = Reader.returned (3, 4);
  published = (3, 4);
  at_load = (3, 4);
  begun = 0;
}

Moves-read : Moves (fresh (0, 0)) after_read
unfolding fresh slot store
Moves-read =
    let w1 = Moves.after Moves.here (Move.write_begin (3, 4) refl) in
    let w2 = Moves.after w1 (Move.write_first (3, 4) true refl) in
    let w3 = Moves.after w2 (Move.write_second (3, 4) true refl) in
    let w4 = Moves.after w3 (Move.write_publish (3, 4) true refl) in
    let r1 = Moves.after w4 (Move.read_begin refl) in
    let r2 = Moves.after r1 (Move.read_first true refl) in
    Moves.after r2 (Move.read_second true 3 refl)

read_whole_example : (3, 4) ≡ after_read.at_load
read_whole_example = read_whole (0, 0) after_read (3, 4) Moves-read refl (omega arith)
