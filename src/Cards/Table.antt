-- ===== src/Cards/Table.antt =====
-- The slots of the card table: how the loops of be_la/be_acc_card.c search and change them.
use mathlib.Core.Option
use be_la.Prelude.{
  ℕ, zero, suc, ◌+◌, ◌<◌, ◌≡◌, refl, ap, sym, ◌≤◌, ◌≢◌, inl, inr, Bytes, Option, none, some, [],
  ◌∷◌, arith, if◌then◌else◌, c_str, str_eq, str_eq_iff, length, set, Option-cases,
}
use be_la.Cards.{BeCardInner, Slots, holds_path, find_path, at_index, find_free}

-- No registered card has the path.
abbrev pub Absent : Bytes → Slots → Type 0
Absent p [] = Unit {0}
Absent p (none ∷ r) = Absent p r
Absent p (some c ∷ r) = (c_str c.vmpath ≢ c_str p) × Absent p r

-- No two registered cards have one path.
abbrev pub Distinct : Slots → Type 0
Distinct [] = Unit {0}
Distinct (none ∷ r) = Distinct r
Distinct (some c ∷ r) = Absent c.vmpath r × Distinct r

abbrev pub count_used : Slots → ℕ
count_used [] = 0
count_used (none ∷ r) = count_used r
count_used (some c ∷ r) = suc (count_used r)

-- The first card with the path.
abbrev pub find_card : Bytes → Slots → Option BeCardInner
find_card p [] = none
find_card p (none ∷ r) = find_card p r
find_card p (some c ∷ r) = if str_eq c.vmpath p then some c else find_card p r

at_index-suc :
    (s : Option BeCardInner) (r : Slots) (o : Option ℕ)
    → at_index (s ∷ r) (Option.map suc o) ≡ at_index r o
unfolding at_index
at_index-suc s [] none = refl
at_index-suc s (x ∷ r) none = refl
at_index-suc s [] (some i) = refl
at_index-suc s (x ∷ r) (some i) = refl

pub at_index-find_path : (p : Bytes) (l : Slots) → at_index l (find_path p l) ≡ find_card p l
unfolding find_path holds_path
at_index-find_path p [] = unfold at_index in refl
at_index-find_path p (none ∷ r) = rw at_index-suc (at_index-find_path p r)
at_index-find_path p (some c ∷ r) =
    ground (arith, at_index-suc (some c) r (find_path p r), at_index-find_path p r, head_at c r)
  where
    head_at : (c : BeCardInner) (r : Slots) → at_index (some c ∷ r) (some 0) ≡ some c
    head_at c r = unfold at_index in refl

pub find_path-none : (p : Bytes) (l : Slots) → find_path p l ≡ none → Absent p l
unfolding find_path holds_path
find_path-none p [] h = tt
find_path-none p (none ∷ r) h = find_path-none p r (ground arith)
find_path-none p (some c ∷ r) h = ground (arith, str_eq_iff c.vmpath p, find_path-none p r)

pub find_path-Absent : (p : Bytes) (l : Slots) → Absent p l → find_path p l ≡ none
unfolding find_path holds_path
find_path-Absent p [] h = refl
find_path-Absent p (none ∷ r) h = ground (arith, find_path-Absent p r h)
find_path-Absent p (some c ∷ r) h = ground (arith, str_eq_iff c.vmpath p, find_path-Absent p r h.1)

pub find_card-Absent : (p : Bytes) (l : Slots) → Absent p l → find_card p l ≡ none
find_card-Absent p [] h = refl
find_card-Absent p (none ∷ r) h = find_card-Absent p r h
find_card-Absent p (some c ∷ r) h = ground (arith, str_eq_iff c.vmpath p, find_card-Absent p r h.1)

-- The free slot that the registration finds, as an induction over the slots before it.
pub data FreeAt : Slots → ℕ → Slots → BeCardInner → Type 0 where
  first : (r : Slots) (c : BeCardInner) → FreeAt (none ∷ r) zero (some c ∷ r) c
  later :
      (d : BeCardInner) {r r' : Slots} {i : ℕ} {c : BeCardInner}
      → FreeAt r i r' c
      → FreeAt (some d ∷ r) (suc i) (some d ∷ r') c

pub find_free-FreeAt :
    (l : Slots) (i : ℕ) (c : BeCardInner) → find_free l ≡ some i → FreeAt l i (set l i (some c)) c
unfolding find_free
find_free-FreeAt [] i c h = cc
find_free-FreeAt (none ∷ r) zero c h = first r c
find_free-FreeAt (none ∷ r) (suc i) c h = cc
find_free-FreeAt (some d ∷ r) zero c h = elim (Option-cases (find_free r)) [
  | inl e ↦ cc
  | inr (j, e) ↦ absurd (ground arith)
]
find_free-FreeAt (some d ∷ r) (suc i) c h = later d (find_free-FreeAt r i c (ground arith))

pub length-FreeAt :
    {l l' : Slots} {i : ℕ} {c : BeCardInner} → FreeAt l i l' c → length l' ≡ length l
length-FreeAt (first r c) = refl
length-FreeAt (later d f) = ap suc (length-FreeAt f)

pub count_used-FreeAt :
    {l l' : Slots} {i : ℕ} {c : BeCardInner} → FreeAt l i l' c → count_used l' ≡ count_used l + 1
count_used-FreeAt (first r c) = omega arith
count_used-FreeAt (later d f) = omega (arith, count_used-FreeAt f)

Absent-FreeAt :
    {l l' : Slots} {i : ℕ} {c : BeCardInner} (p : Bytes)
    → FreeAt l i l' c
    → c_str c.vmpath ≢ c_str p
    → Absent p l
    → Absent p l'
Absent-FreeAt p (first r c) ne h = (ne, h)
Absent-FreeAt p (later d f) ne h = (h.0, Absent-FreeAt p f ne h.1)

pub Distinct-FreeAt :
    {l l' : Slots} {i : ℕ} {c : BeCardInner}
    → FreeAt l i l' c
    → Absent c.vmpath l
    → Distinct l
    → Distinct l'
Distinct-FreeAt (first r c) h u = (h, u)
Distinct-FreeAt (later d f) h u =
    (Absent-FreeAt d.vmpath f (λ e. h.0 (sym e)) u.0, Distinct-FreeAt f h.1 u.1)

-- A search after the registration sees the new card under its path, and the old cards else.
pub find_card-FreeAt :
    {l l' : Slots} {i : ℕ} {c : BeCardInner} (p : Bytes)
    → FreeAt l i l' c
    → Absent c.vmpath l
    → find_card p l' ≡ (if str_eq c.vmpath p then some c else find_card p l)
find_card-FreeAt p (first r c) h = refl
find_card-FreeAt {c = c} p (later d f) h =
    ground (arith, str_eq_iff c.vmpath p, str_eq_iff d.vmpath p, find_card-FreeAt p f h.1)

pub count_used-le : (l : Slots) → count_used l ≤ length l
count_used-le [] = omega arith
count_used-le (none ∷ r) = omega (arith, count_used-le r)
count_used-le (some c ∷ r) = omega (arith, count_used-le r)

-- A full table has no free slot, and one that is not full has.
pub find_free_of_room : (l : Slots) → count_used l < length l → (i : ℕ) × (find_free l ≡ some i)
unfolding find_free
find_free_of_room [] h = absurd (omega arith)
find_free_of_room (none ∷ r) h = (0, refl)
find_free_of_room (some c ∷ r) h = let (i, e) = find_free_of_room r (omega arith) in (suc i, rw e)

pub find_free_full : (l : Slots) → count_used l ≡ length l → find_free l ≡ none
unfolding find_free
find_free_full [] h = refl
find_free_full (none ∷ r) h = absurd (omega (arith, count_used-le r))
find_free_full (some c ∷ r) h = rw (find_free_full r (omega arith))

pub find_free-none : (l : Slots) → find_free l ≡ none → count_used l ≡ length l
unfolding find_free
find_free-none [] h = refl
find_free-none (none ∷ r) h = cc
find_free-none (some c ∷ r) h = ap suc (find_free-none r (ground arith))

find_card-none : (p : Bytes) (l : Slots) → find_card p l ≡ none → Absent p l
find_card-none p [] h = tt
find_card-none p (none ∷ r) h = find_card-none p r h
find_card-none p (some c ∷ r) h = ground (arith, str_eq_iff c.vmpath p, find_card-none p r)

pub find_path-some : (p : Bytes) (l : Slots) (i : ℕ) → find_path p l ≡ some i → find_card p l ≢ none
find_path-some p l i h e = absurd (clash (find_card-none p l e) h)
  where
    clash : Absent p l → find_path p l ≡ some i → ⊥
    clash a k = let n = find_path-Absent p l a in cc
