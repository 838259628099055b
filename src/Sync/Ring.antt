-- ===== src/Sync/Ring.antt =====
-- Slots used round and round: what `head` and `tail` of the queues stand for. One slot stays free, so
-- that equal indices mean an empty ring.
use sputter_os.Prelude.{
  ℕ, zero, suc, ◌+◌, ◌-◌, ◌%◌, ◌<◌, ◌≡◌, ◌≢◌, refl, ap, arith, List, [], ◌∷◌, ◌++◌, length, get_or,
  set, ◌⊎◌, get_or-set_self, get_or-set_ne, leb, if◌then◌else◌,
}

-- `size()` of both queues.
unfoldable pub used : ℕ → ℕ → ℕ → ℕ
used slots head tail = if leb tail head then head - tail else slots - tail + head

-- The next index: `(i + 1) % kSlots`.
unfoldable pub next : ℕ → ℕ → ℕ
next slots i = (i + 1) % slots

module _ {ℓ} {A : Type ℓ} (dflt : A) (slots : ℕ) where
  -- The `n` items from slot `i` on.
  unfoldable pub window : List A → ℕ → ℕ → List A
  window buf i zero = []
  window buf i (suc n) = get_or buf i dflt ∷ window buf (next slots i) n

  pub length-window : (buf : List A) (i n : ℕ) → length (window buf i n) ≡ n
  unfolding window
  length-window buf i zero = refl
  length-window buf i (suc n) = ap suc (length-window buf (next slots i) n)

pub next-lt : (slots i : ℕ) → 0 < slots → next slots i < slots
unfolding next
next-lt slots i h = omega arith

-- The step of an index in range, with no remainder.
pub next_cases : (slots i : ℕ) → i < slots → next slots i ≡ (if leb slots (i + 1) then 0 else i + 1)
unfolding next
next_cases slots i h = grind arith

pub used-lt : (slots head tail : ℕ) → head < slots → tail < slots → used slots head tail < slots
unfolding used
used-lt slots head tail h t = ground arith

pub used-eq-zero :
    (slots head tail : ℕ) → head < slots → tail < slots → used slots head tail ≡ 0 → head ≡ tail
unfolding used
used-eq-zero slots head tail h t e = ground arith

pub used_self : (slots i : ℕ) → used slots i i ≡ 0
unfolding used
used_self slots i = ground arith

-- `head` and `tail` after a push and after a pop.
pub used_push :
    (slots head tail : ℕ)
    → head < slots
    → tail < slots
    → next slots head ≢ tail
    → (used slots (next slots head) tail ≡ used slots head tail + 1)
      × (used slots head tail + 1 < slots)
unfolding used
used_push slots head tail h t ne = ground (arith, next_cases slots head)

pub used_full :
    (slots head tail : ℕ)
    → head < slots
    → tail < slots
    → next slots head ≡ tail
    → used slots head tail + 1 ≡ slots
unfolding used
used_full slots head tail h t e = ground (arith, next_cases slots head)

pub used_pop :
    (slots head tail : ℕ)
    → head < slots
    → tail < slots
    → head ≢ tail
    → used slots head (next slots tail) + 1 ≡ used slots head tail
unfolding used
used_pop slots head tail h t ne = ground (arith, next_cases slots tail)

-- Where `n` steps from `t` lead.
abbrev pub Leads : ℕ → ℕ → ℕ → ℕ → Type 0
Leads slots t n h = (t + n ≡ h) ⊎ (t + n ≡ h + slots)

pub used-Leads :
    (slots head tail : ℕ)
    → head < slots
    → tail < slots
    → Leads slots tail (used slots head tail) head
unfolding used
used-Leads slots head tail h t = ground arith

Leads-next :
    (slots t n h : ℕ)
    → t < slots
    → h < slots
    → Leads slots t (suc n) h
    → Leads slots (next slots t) n h
Leads-next slots t n h ht hh l = ground (arith, next_cases slots t)

-- Writing the slot just behind a window extends the window.
pub window-set {ℓ} :
    {A : Type ℓ} (dflt : A) (slots : ℕ) (buf : List A) (x : A) (n t h : ℕ)
    → length buf ≡ slots
    → t < slots
    → h < slots
    → n < slots
    → Leads slots t n h
    → window dflt slots (set buf h x) t (suc n) ≡ window dflt slots buf t n ++ x ∷ []
unfolding window
window-set dflt slots buf x zero t h e ht hh hn l =
    let same : h ≡ t = ground arith in rw (same, get_or-set_self buf t x dflt (omega arith))
window-set dflt slots buf x (suc n) t h e ht hh hn l =
    rw (get_or-set_ne buf h t x dflt (ground arith)) (
      ap (λ w. get_or buf t dflt ∷ w)
        (window-set dflt slots buf x n (next slots t) h e (next-lt slots t (omega arith)) hh
          (omega arith) (Leads-next slots t n h ht hh l)))

-- Writing the slot behind a window leaves the window.
pub window-set_outside {ℓ} :
    {A : Type ℓ} (dflt : A) (slots : ℕ) (buf : List A) (x : A) (n t h : ℕ)
    → t < slots
    → h < slots
    → n < slots
    → Leads slots t n h
    → window dflt slots (set buf h x) t n ≡ window dflt slots buf t n
unfolding window
window-set_outside dflt slots buf x zero t h ht hh hn l = refl
window-set_outside dflt slots buf x (suc n) t h ht hh hn l =
    rw (get_or-set_ne buf h t x dflt (ground arith)) (
      ap (λ w. get_or buf t dflt ∷ w)
        (window-set_outside dflt slots buf x n (next slots t) h (next-lt slots t (omega arith)) hh
          (omega arith) (Leads-next slots t n h ht hh l)))

-- A window that is one longer has the item of the slot behind it.
pub window_grow {ℓ} :
    {A : Type ℓ} (dflt : A) (slots : ℕ) (buf : List A) (n t h : ℕ)
    → t < slots
    → h < slots
    → n < slots
    → Leads slots t n h
    → window dflt slots buf t (suc n) ≡ window dflt slots buf t n ++ get_or buf h dflt ∷ []
unfolding window
window_grow dflt slots buf zero t h ht hh hn l = let same : h ≡ t = ground arith in rw same
window_grow dflt slots buf (suc n) t h ht hh hn l =
    ap (λ w. get_or buf t dflt ∷ w)
      (window_grow dflt slots buf n (next slots t) h (next-lt slots t (omega arith)) hh
        (omega arith) (Leads-next slots t n h ht hh l))
