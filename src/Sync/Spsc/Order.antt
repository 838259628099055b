-- ===== src/Sync/Spsc/Order.antt =====
-- Under every interleaving the consumer gets what the producer published, in that order, and no slot
-- is written while it is being read.
use sputter_os.Prelude.{
  ℕ, suc, ◌+◌, ◌≤◌, ◌<◌, ◌≡◌, ◌≢◌, refl, ap, sym, ◌∙◌, arith, List, [], ◌∷◌, ◌++◌, length, set,
  get_or, length-set, get_or-set_self, get_or-set_ne, append_assoc, subst,
}
use sputter_os.Sync.Ring.{
  length-window, used, next, next_cases, window, next-lt, used-lt, used_self, used_push, used_pop,
  used-Leads, window-set_outside, window_grow,
}
use sputter_os.Sync.Queue.{Queue}
use sputter_os.Sync.Queue.Laws.{IsValid, contents}
use sputter_os.Sync.Spsc.{Producer, Consumer, World, Step, Reach, here, after}

module _ {ℓ} {A : Type ℓ} (dflt : A) (capacity : ℕ) where
  -- What the producer's locals say about shared memory.
  abbrev pub ProducerFits : Queue A → Producer A → Type ℓ
  ProducerFits q Producer.idle = Unit {ℓ}
  ProducerFits q (Producer.loaded cmd head) = (head ≡ q.head) × Unit {ℓ}
  ProducerFits q (Producer.cleared cmd head) =
      (head ≡ q.head) × (next (capacity + 1) head ≢ q.tail) × Unit {ℓ}
  ProducerFits q (Producer.written cmd head) =
      (head ≡ q.head) × (next (capacity + 1) head ≢ q.tail) × (get_or q.buf head dflt ≡ cmd)

  abbrev pub ConsumerFits : Queue A → Consumer A → Type ℓ
  ConsumerFits q Consumer.idle = Unit {ℓ}
  ConsumerFits q (Consumer.loaded tail) = (tail ≡ q.tail) × Unit {ℓ}
  ConsumerFits q (Consumer.cleared tail) = (tail ≡ q.tail) × (tail ≢ q.head) × Unit {ℓ}
  ConsumerFits q (Consumer.copied tail cmd) =
      (tail ≡ q.tail) × (tail ≢ q.head) × (get_or q.buf tail dflt ≡ cmd)

  pub record Inv (w : World A) : Type ℓ where
    pub valid : IsValid dflt capacity w.queue
    pub producing : ProducerFits w.queue w.producer
    pub consuming : ConsumerFits w.queue w.consumer
    pub in_order : w.pushed ≡ w.popped ++ contents dflt capacity w.queue

  next_injective :
      (a b : ℕ)
      → a < capacity + 1
      → b < capacity + 1
      → next (capacity + 1) a ≡ next (capacity + 1) b
      → a ≡ b
  next_injective a b ha hb e =
      ground (arith, next_cases (capacity + 1) a ha, next_cases (capacity + 1) b hb)

  -- The producer's write touches no slot that the consumer reads.
  ConsumerFits-write :
      (q : Queue A) (c : Consumer A) (cmd : A)
      → ConsumerFits q c
      → ConsumerFits (record q { buf = set q.buf q.head cmd }) c
  ConsumerFits-write q Consumer.idle cmd h = h
  ConsumerFits-write q (Consumer.loaded tail) cmd h = h
  ConsumerFits-write q (Consumer.cleared tail) cmd h = h
  ConsumerFits-write q (Consumer.copied tail got) cmd (t, ne, val) =
      (t, ne, get_or-set_ne q.buf q.head tail cmd dflt (λ e. ne (sym e)) ∙ val)

  ConsumerFits-publish :
      (q : Queue A) (c : Consumer A)
      → next (capacity + 1) q.head ≢ q.tail
      → ConsumerFits q c
      → ConsumerFits (record q { head = next (capacity + 1) q.head }) c
  ConsumerFits-publish q Consumer.idle ne h = h
  ConsumerFits-publish q (Consumer.loaded tail) ne h = h
  ConsumerFits-publish q (Consumer.cleared tail) ne (t, n, u) = (t, λ e. ne (sym (sym t ∙ e)), u)
  ConsumerFits-publish q (Consumer.copied tail got) ne (t, n, val) =
      (t, λ e. ne (sym (sym t ∙ e)), val)

  ProducerFits-release :
      (q : Queue A) (p : Producer A)
      → IsValid dflt capacity q
      → q.tail ≢ q.head
      → ProducerFits q p
      → ProducerFits (record q { tail = next (capacity + 1) q.tail }) p
  ProducerFits-release q Producer.idle v ne h = h
  ProducerFits-release q (Producer.loaded cmd head) v ne h = h
  ProducerFits-release q (Producer.cleared cmd head) v ne (h, n, u) =
      (h, λ e. ne (next_injective q.tail q.head v.tail_in v.head_in (sym (rw h at e))), u)
  ProducerFits-release q (Producer.written cmd head) v ne (h, n, val) =
      (h, λ e. ne (next_injective q.tail q.head v.tail_in v.head_in (sym (rw h at e))), val)

  -- What the two stores that move an index do to the list of items.
  contents-publish :
      (q : Queue A)
      → IsValid dflt capacity q
      → next (capacity + 1) q.head ≢ q.tail
      → contents dflt capacity (record q { head = next (capacity + 1) q.head })
        ≡ contents dflt capacity q ++ get_or q.buf q.head dflt ∷ []
  contents-publish q v ne =
      let slots = capacity + 1 in
      let (grown, room) = used_push slots q.head q.tail v.head_in v.tail_in ne in
      let grown' : used slots (next slots q.head) q.tail ≡ suc (used slots q.head q.tail) =
        omega arith in
      rw grown' (
        window_grow dflt slots q.buf (used slots q.head q.tail) q.tail q.head v.tail_in v.head_in
          (omega arith) (used-Leads slots q.head q.tail v.head_in v.tail_in))

  contents-release :
      (q : Queue A)
      → IsValid dflt capacity q
      → q.tail ≢ q.head
      → contents dflt capacity q
        ≡ get_or q.buf q.tail dflt
          ∷ contents dflt capacity (record q { tail = next (capacity + 1) q.tail })
  unfolding window
  contents-release q v ne =
      let slots = capacity + 1 in
      let shrunk : used slots q.head q.tail ≡ suc (used slots q.head (next slots q.tail)) =
        omega (arith, used_pop slots q.head q.tail v.head_in v.tail_in (λ e. ne (sym e))) in
      rw shrunk

  -- Every access by either core keeps the invariant.
  Step-Inv : {w v : World A} → Step dflt capacity w v → Inv w → Inv v
  Step-Inv (Step.push_begin cmd e) i = record {
    valid = i.valid;
    producing = (refl, tt);
    consuming = i.consuming;
    in_order = i.in_order;
  }
  Step-Inv (Step.push_full cmd head e f) i = record {
    valid = i.valid;
    producing = tt;
    consuming = i.consuming;
    in_order = i.in_order;
  }
  Step-Inv {w} (Step.push_free cmd head e f) i =
      let (h, _) = subst (ProducerFits w.queue) e i.producing in
      record {
        valid = i.valid;
        producing = (h, f, tt);
        consuming = i.consuming;
        in_order = i.in_order;
      }
  Step-Inv {w} (Step.push_write cmd head e) i =
      let q = w.queue in
      let (h, ne, _) = subst (ProducerFits q) e i.producing in
      let v = i.valid in
      rw h (record {
        valid = record {
          storage = length-set q.buf q.head cmd ∙ v.storage;
          head_in = v.head_in;
          tail_in = v.tail_in;
        };
        producing = (
          refl,
          rw h at ne,
          get_or-set_self q.buf q.head cmd dflt (omega (arith, v.storage, v.head_in)),
        );
        consuming = ConsumerFits-write q w.consumer cmd i.consuming;
        in_order =
            i.in_order
            ∙ ap (λ l. w.popped ++ l)
                (sym (
                  window-set_outside dflt (capacity + 1) q.buf cmd _ q.tail q.head v.tail_in
                    v.head_in (used-lt (capacity + 1) q.head q.tail v.head_in v.tail_in)
                    (used-Leads (capacity + 1) q.head q.tail v.head_in v.tail_in)));
      })
  Step-Inv {w} (Step.push_publish cmd head e) i =
      let q = w.queue in
      let (h, ne, val) = subst (ProducerFits q) e i.producing in
      let v = i.valid in
      let ne' : next (capacity + 1) q.head ≢ q.tail = rw h at ne in
      let val' : get_or q.buf q.head dflt ≡ cmd = rw h at val in
      rw h (record {
        valid = record {
          storage = v.storage;
          head_in = next-lt (capacity + 1) q.head (omega arith);
          tail_in = v.tail_in;
        };
        producing = tt;
        consuming = ConsumerFits-publish q w.consumer ne' i.consuming;
        in_order =
            ap (λ l. l ++ cmd ∷ []) i.in_order
            ∙ append_assoc w.popped (contents dflt capacity q) (cmd ∷ [])
            ∙ ap (λ l. w.popped ++ l)
                (ap (λ x. contents dflt capacity q ++ x ∷ []) (sym val')
                  ∙ sym (contents-publish q v ne'));
      })
  Step-Inv (Step.pop_begin e) i = record {
    valid = i.valid;
    producing = i.producing;
    consuming = (refl, tt);
    in_order = i.in_order;
  }
  Step-Inv (Step.pop_empty tail e f) i = record {
    valid = i.valid;
    producing = i.producing;
    consuming = tt;
    in_order = i.in_order;
  }
  Step-Inv {w} (Step.pop_some tail e f) i =
      let (t, _) = subst (ConsumerFits w.queue) e i.consuming in
      record {
        valid = i.valid;
        producing = i.producing;
        consuming = (t, f, tt);
        in_order = i.in_order;
      }
  Step-Inv {w} (Step.pop_read tail e) i =
      let (t, ne, _) = subst (ConsumerFits w.queue) e i.consuming in
      record {
        valid = i.valid;
        producing = i.producing;
        consuming = (t, ne, refl);
        in_order = i.in_order;
      }
  Step-Inv {w} (Step.pop_release tail cmd e) i =
      let q = w.queue in
      let (t, ne, val) = subst (ConsumerFits q) e i.consuming in
      let v = i.valid in
      let ne' : q.tail ≢ q.head = rw t at ne in
      let val' : get_or q.buf q.tail dflt ≡ cmd = rw t at val in
      rw t (record {
        valid = record {
          storage = v.storage;
          head_in = v.head_in;
          tail_in = next-lt (capacity + 1) q.tail (omega arith);
        };
        producing = ProducerFits-release q w.producer v ne' i.producing;
        consuming = tt;
        in_order =
            i.in_order
            ∙ ap (λ l. w.popped ++ l)
                (contents-release q v ne'
                  ∙ ap
                      (λ x.
                        x ∷ contents dflt capacity (record q { tail = next (capacity + 1) q.tail }))
                      val')
            ∙ sym (append_assoc w.popped (cmd ∷ []) _);
      })

  Reach-Inv : {w v : World A} → Inv w → Reach dflt capacity w v → Inv v
  Reach-Inv i here = i
  Reach-Inv i (after r s) = Step-Inv s (Reach-Inv i r)

  -- Both cores idle at an empty queue over some storage.
  abbrev pub new_world : List A → ℕ → World A
  new_world buf i = record {
    queue = record { buf = buf; head = i; tail = i };
    producer = Producer.idle;
    consumer = Consumer.idle;
    pushed = [];
    popped = [];
  }

  new_world-Inv :
      (buf : List A) (i : ℕ) → length buf ≡ capacity + 1 → i < capacity + 1 → Inv (new_world buf i)
  unfolding window
  new_world-Inv buf i e h = record {
    valid = record { storage = e; head_in = h; tail_in = h };
    producing = tt;
    consuming = tt;
    in_order = rw (used_self (capacity + 1) i);
  }

  -- From an empty queue, under every interleaving of the producer's and the consumer's accesses, the
  -- items published are the items received followed by those in the queue, in order: none is lost,
  -- doubled, reordered or made up. At most `Capacity` are in the queue.
  pub spsc_fifo :
      (buf : List A) (i : ℕ) {w : World A}
      → length buf ≡ capacity + 1
      → i < capacity + 1
      → Reach dflt capacity (new_world buf i) w
      → (w.pushed ≡ w.popped ++ contents dflt capacity w.queue)
        × (length (contents dflt capacity w.queue) ≤ capacity)
  spsc_fifo buf i {w} e h r =
      let v = Reach-Inv (new_world-Inv buf i e h) r in
      let q = w.queue in
      (
        v.in_order,
        omega (
          arith,
          length-window dflt (capacity + 1) q.buf q.tail (used (capacity + 1) q.head q.tail),
          used-lt (capacity + 1) q.head q.tail v.valid.head_in v.valid.tail_in,
        ),
      )

  -- When the producer is about to write a slot and the consumer about to read one, the slots differ,
  -- and both are inside the storage.
  pub spsc_no_race :
      (buf : List A) (i : ℕ) {w : World A} {cmd : A} {head tail : ℕ}
      → length buf ≡ capacity + 1
      → i < capacity + 1
      → Reach dflt capacity (new_world buf i) w
      → w.producer ≡ Producer.cleared cmd head
      → w.consumer ≡ Consumer.cleared tail
      → (head ≢ tail) × (head < length w.queue.buf) × (tail < length w.queue.buf)
  spsc_no_race buf i {w} e h r p c =
      let v = Reach-Inv (new_world-Inv buf i e h) r in
      let (at_head, _, _) = subst (ProducerFits w.queue) p v.producing in
      let (at_tail, ne, _) = subst (ConsumerFits w.queue) c v.consuming in
      (
        λ s. ne (sym s ∙ at_head),
        omega (arith, v.valid.storage, v.valid.head_in),
        omega (arith, v.valid.storage, v.valid.tail_in),
      )
