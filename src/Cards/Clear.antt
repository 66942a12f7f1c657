-- ===== src/Cards/Clear.antt =====
-- How the loop of `be_acc_card_unreg` in be_la/be_acc_card.c changes the slots.
use mathlib.Core.Option
use be_la.Prelude.{
  ℕ, zero, suc, ◌+◌, ◌≡◌, refl, ap, sym, inl, inr, true, false, Bytes, Option, none, some, [], ◌∷◌,
  ◌∙◌, arith, if◌then◌else◌, c_str, str_eq, str_eq_iff, length, set, Bool-cases,
}
use be_la.Cards.{BeCardInner, Slots, holds_path, find_path}
use be_la.Cards.Table.{
  Absent, Distinct, count_used, find_card, find_card-Absent, find_path-none, FreeAt, first, later,
}

-- The card that the loop clears, as an induction over the slots before it.
pub data UsedAt (p : Bytes) : Slots → ℕ → Slots → Type 0 where
  found :
      (c : BeCardInner) (r : Slots)
      → str_eq c.vmpath p ≡ true
      → UsedAt p (some c ∷ r) zero (none ∷ r)
  past_free : {r r' : Slots} {i : ℕ} → UsedAt p r i r' → UsedAt p (none ∷ r) (suc i) (none ∷ r')
  past_used :
      (d : BeCardInner) {r r' : Slots} {i : ℕ}
      → str_eq d.vmpath p ≡ false
      → UsedAt p r i r'
      → UsedAt p (some d ∷ r) (suc i) (some d ∷ r')

map-suc-eq-some :
    (o : Option ℕ) (i : ℕ) → Option.map suc o ≡ some i → (j : ℕ) × (o ≡ some j) × (i ≡ suc j)
map-suc-eq-some none i h = cc
map-suc-eq-some (some j) i h = (j, refl, ground arith)

pub find_path-UsedAt :
    (p : Bytes) (l : Slots) (i : ℕ) → find_path p l ≡ some i → UsedAt p l i (set l i none)
unfolding find_path holds_path
find_path-UsedAt p [] i h = cc
find_path-UsedAt p (none ∷ r) i h =
    let (j, e, q) = map-suc-eq-some (find_path p r) i h in
    rw q (past_free (find_path-UsedAt p r j e))
find_path-UsedAt p (some c ∷ r) i h = elim (Bool-cases (str_eq c.vmpath p)) [
  | inl hit ↦ let q : i ≡ 0 = ground arith in rw q (found c r hit)
  | inr miss ↦
      let (j, e, q) = map-suc-eq-some (find_path p r) i (ground arith) in
      rw q (past_used c miss (find_path-UsedAt p r j e))
]

Absent-cong : (p q : Bytes) (l : Slots) → Absent p l → c_str p ≡ c_str q → Absent q l
Absent-cong p q [] h e = tt
Absent-cong p q (none ∷ r) h e = Absent-cong p q r h e
Absent-cong p q (some c ∷ r) h e = (λ x. h.0 (x ∙ sym e), Absent-cong p q r h.1 e)

module _ {p : Bytes} where
  pub length-UsedAt : {l l' : Slots} {i : ℕ} → UsedAt p l i l' → length l' ≡ length l
  length-UsedAt (found c r h) = refl
  length-UsedAt (past_free u) = ap suc (length-UsedAt u)
  length-UsedAt (past_used d h u) = ap suc (length-UsedAt u)

  pub count_used-UsedAt :
      {l l' : Slots} {i : ℕ} → UsedAt p l i l' → count_used l ≡ count_used l' + 1
  count_used-UsedAt (found c r h) = omega arith
  count_used-UsedAt (past_free u) = omega (arith, count_used-UsedAt u)
  count_used-UsedAt (past_used d h u) = omega (arith, count_used-UsedAt u)

  Absent-UsedAt : {l l' : Slots} {i : ℕ} (q : Bytes) → UsedAt p l i l' → Absent q l → Absent q l'
  Absent-UsedAt q (found c r h) a = a.1
  Absent-UsedAt q (past_free u) a = Absent-UsedAt q u a
  Absent-UsedAt q (past_used d h u) a = (a.0, Absent-UsedAt q u a.1)

  pub Distinct-UsedAt : {l l' : Slots} {i : ℕ} → UsedAt p l i l' → Distinct l → Distinct l'
  Distinct-UsedAt (found c r h) d = d.1
  Distinct-UsedAt (past_free u) d = Distinct-UsedAt u d
  Distinct-UsedAt (past_used c h u) d = (Absent-UsedAt c.vmpath u d.0, Distinct-UsedAt u d.1)

  -- Afterwards nothing is found under the path, and what was found under another still is.
  pub find_card-UsedAt :
      {l l' : Slots} {i : ℕ} (q : Bytes)
      → UsedAt p l i l'
      → Distinct l
      → find_card q l' ≡ (if str_eq p q then none else find_card q l)
  find_card-UsedAt q (found c r h) d = ground (
    arith,
    str_eq_iff c.vmpath p,
    str_eq_iff p q,
    str_eq_iff c.vmpath q,
    find_card-Absent q r,
    Absent-cong c.vmpath q r d.0,
  )
  find_card-UsedAt q (past_free u) d = find_card-UsedAt q u d
  find_card-UsedAt q (past_used c h u) d = ground (
    arith,
    str_eq_iff c.vmpath p,
    str_eq_iff p q,
    str_eq_iff c.vmpath q,
    find_card-UsedAt q u d.1,
  )

-- Clearing the slot that a registration filled restores the slots.
pub find_path-set_free :
    {l l' : Slots} {i : ℕ} {c : BeCardInner}
    → FreeAt l i l' c
    → Absent c.vmpath l
    → (find_path c.vmpath l' ≡ some i) × (set l' i none ≡ l)
unfolding find_path holds_path
find_path-set_free (first r c) h = (ground (arith, str_eq_iff c.vmpath c.vmpath), refl)
find_path-set_free {c = c} (later d f) h =
    ground (arith, str_eq_iff d.vmpath c.vmpath, find_path-set_free f h.1)

-- A path that is not registered is not found, and neither is any spelling of it.
pub find_card_missing :
    (p q : Bytes) (l : Slots)
    → find_path p l ≡ none
    → find_card q l ≡ (if str_eq p q then none else find_card q l)
find_card_missing p q l e =
    ground (arith, str_eq_iff p q, find_card-Absent q l, Absent-cong p q l (find_path-none p l e))
