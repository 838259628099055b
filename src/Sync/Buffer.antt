-- ===== src/Sync/Buffer.antt =====
-- include/sputteros/osal/sync/AtomicDoubleBuffer.h with one writer and one reader. A value has two
-- words, which a copy moves one at a time, so that a copy can be overtaken. The cache policy is the
-- one of a coherent platform, which does nothing.
pub mod Invariant
pub mod Tearing
use sputter_os.Prelude.{ℕ, zero, suc, ◌+◌, Bool, true, false, not, ◌≡◌, if◌then◌else◌}

-- `m_buffers` and `m_writeIndex`, where `true` is index 1.
pub record Buffer (A : Type 0) : Type 0 where
  pub slot_0 : A × A
  pub slot_1 : A × A
  pub write_index : Bool

unfoldable pub slot : {A : Type 0} → Buffer A → Bool → A × A
slot b false = b.slot_0
slot b true = b.slot_1

unfoldable pub store : {A : Type 0} → Buffer A → Bool → A × A → Buffer A
store b false v = record b { slot_0 = v }
store b true v = record b { slot_1 = v }

pub data Writer (A : Type 0) : Type 0 where
  idle : Writer A
  chosen : A × A → Bool → Writer A  -- behind the load of the index
  halfway : A × A → Bool → Writer A  -- the first word is in its slot
  stored : A × A → Bool → Writer A  -- the value is in its slot

pub data Reader (A : Type 0) : Type 0 where
  idle : Reader A
  loaded : Bool → Reader A  -- behind the load of the index
  halfway : Bool → A → Reader A  -- the first word is copied
  returned : A × A → Reader A

-- `published` is the value of the last finished write; `at_load` is what it was when the reader loaded
-- the index, and `begun` counts the writes under way then or begun since.
pub record Shared (A : Type 0) : Type 0 where
  pub buffer : Buffer A
  pub writer : Writer A
  pub reader : Reader A
  pub published : A × A
  pub at_load : A × A
  pub begun : ℕ

abbrev pub under_way : {A : Type 0} → Writer A → ℕ
under_way Writer.idle = 0
under_way _ = 1

module _ {A : Type 0} where
  pub data Move (s : Shared A) : Shared A → Type 0 where
    write_begin :
        (v : A × A)
        → s.writer ≡ Writer.idle
        → Move s
            (record s { writer = Writer.chosen v (not s.buffer.write_index); begun = s.begun + 1 })
    write_first :
        (v : A × A) (i : Bool)
        → s.writer ≡ Writer.chosen v i
        → Move s (record s {
          buffer = store s.buffer i (v.0, (slot s.buffer i).1);
          writer = Writer.halfway v i;
        })
    write_second :
        (v : A × A) (i : Bool)
        → s.writer ≡ Writer.halfway v i
        → Move s (record s {
          buffer = store s.buffer i ((slot s.buffer i).0, v.1);
          writer = Writer.stored v i;
        })
    write_publish :
        (v : A × A) (i : Bool)
        → s.writer ≡ Writer.stored v i
        → Move s (record s {
          buffer = record s.buffer { write_index = i };
          writer = Writer.idle;
          published = v;
        })
    read_begin :
        s.reader ≡ Reader.idle
        → Move s (record s {
          reader = Reader.loaded s.buffer.write_index;
          at_load = s.published;
          begun = under_way s.writer;
        })
    read_first :
        (i : Bool)
        → s.reader ≡ Reader.loaded i
        → Move s (record s { reader = Reader.halfway i (slot s.buffer i).0 })
    read_second :
        (i : Bool) (first : A)
        → s.reader ≡ Reader.halfway i first
        → Move s (record s { reader = Reader.returned (first, (slot s.buffer i).1) })
    read_end :
        (v : A × A) → s.reader ≡ Reader.returned v → Move s (record s { reader = Reader.idle })

  pub data Moves (s : Shared A) : Shared A → Type 0 where
    here : Moves s s
    after : {u v : Shared A} → Moves s u → Move u v → Moves s v
