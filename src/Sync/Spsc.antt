-- ===== src/Sync/Spsc.antt =====
-- LockFreeQueue.h with one producer core and one consumer core: `try_push` and `try_pop` as their
-- single loads and stores, interleaved in any order. The acquire and release pairs of the source are
-- read as one order of all accesses.
pub mod Order
use sputter_os.Prelude.{ℕ, ◌+◌, ◌≡◌, ◌≢◌, List, [], ◌∷◌, ◌++◌, get_or, set}
use sputter_os.Sync.Ring.{next}
use sputter_os.Sync.Queue.{Queue}

-- Where the producer stands in `try_push`, with the locals that are live there.
pub data Producer {ℓ} (A : Type ℓ) : Type ℓ where
  idle : Producer A
  loaded : (cmd : A) (head : ℕ) → Producer A  -- behind the load of `m_head`
  cleared : (cmd : A) (head : ℕ) → Producer A  -- the queue was seen not to be full
  written : (cmd : A) (head : ℕ) → Producer A  -- behind the write of the slot

-- Where the consumer stands in `try_pop`.
pub data Consumer {ℓ} (A : Type ℓ) : Type ℓ where
  idle : Consumer A
  loaded : (tail : ℕ) → Consumer A  -- behind the load of `m_tail`
  cleared : (tail : ℕ) → Consumer A  -- the queue was seen not to be empty
  copied : (tail : ℕ) (cmd : A) → Consumer A  -- behind the read of the slot

-- The queue, the two cores, and what has gone in and come out, oldest first.
pub record World {ℓ} (A : Type ℓ) : Type ℓ where
  pub queue : Queue A
  pub producer : Producer A
  pub consumer : Consumer A
  pub pushed : List A
  pub popped : List A

module _ {ℓ} {A : Type ℓ} (dflt : A) (capacity : ℕ) where
  -- One access to shared memory by either core. A call that returns false goes back to `idle`.
  pub data Step (w : World A) : World A → Type ℓ where
    push_begin :
        (cmd : A)
        → w.producer ≡ Producer.idle
        → Step w (record w { producer = Producer.loaded cmd w.queue.head })
    push_full :
        (cmd : A) (head : ℕ)
        → w.producer ≡ Producer.loaded cmd head
        → next (capacity + 1) head ≡ w.queue.tail
        → Step w (record w { producer = Producer.idle })
    push_free :
        (cmd : A) (head : ℕ)
        → w.producer ≡ Producer.loaded cmd head
        → next (capacity + 1) head ≢ w.queue.tail
        → Step w (record w { producer = Producer.cleared cmd head })
    push_write :
        (cmd : A) (head : ℕ)
        → w.producer ≡ Producer.cleared cmd head
        → Step w (record w {
          queue = record w.queue { buf = set w.queue.buf head cmd };
          producer = Producer.written cmd head;
        })
    push_publish :
        (cmd : A) (head : ℕ)
        → w.producer ≡ Producer.written cmd head
        → Step w (record w {
          queue = record w.queue { head = next (capacity + 1) head };
          producer = Producer.idle;
          pushed = w.pushed ++ cmd ∷ [];
        })
    pop_begin :
        w.consumer ≡ Consumer.idle → Step w (record w { consumer = Consumer.loaded w.queue.tail })
    pop_empty :
        (tail : ℕ)
        → w.consumer ≡ Consumer.loaded tail
        → tail ≡ w.queue.head
        → Step w (record w { consumer = Consumer.idle })
    pop_some :
        (tail : ℕ)
        → w.consumer ≡ Consumer.loaded tail
        → tail ≢ w.queue.head
        → Step w (record w { consumer = Consumer.cleared tail })
    pop_read :
        (tail : ℕ)
        → w.consumer ≡ Consumer.cleared tail
        → Step w (record w { consumer = Consumer.copied tail (get_or w.queue.buf tail dflt) })
    pop_release :
        (tail : ℕ) (cmd : A)
        → w.consumer ≡ Consumer.copied tail cmd
        → Step w (record w {
          queue = record w.queue { tail = next (capacity + 1) tail };
          consumer = Consumer.idle;
          popped = w.popped ++ cmd ∷ [];
        })

  pub data Reach (w : World A) : World A → Type ℓ where
    here : Reach w w
    after : {u v : World A} → Reach w u → Step u v → Reach w v
