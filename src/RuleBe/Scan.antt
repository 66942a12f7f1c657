-- ===== src/RuleBe/Scan.antt =====
-- The search loop of rule/acc_rule_be.c over an array that is filled from the front.
use be_la.Prelude.{
  ℕ, suc, ◌≤◌, ◌≡◌, refl, ◌≢◌, ◌⊎◌, inl, inr, true, false, Bytes, some, List, [], ◌∷◌, arith,
  if◌then◌else◌, c_str, bytes_eq_sound, bytes_eq_of_eq, ◌↔◌, take, length, get_elem?, Bool-cases,
}
use be_la.RuleBe.{
  AccRuleBe, Search, found, stopped, is_used, name_eq, name_size, get_rule_be_by_name,
}

pub Search-cases : (s : Search) → ((i : ℕ) × (s ≡ found i)) ⊎ ((i : ℕ) × (s ≡ stopped i))
Search-cases (found i) = inl (i, refl)
Search-cases (stopped i) = inr (i, refl)

pub name_eq_iff :
    (a b : Bytes) → (name_eq a b ≡ true) ↔ (c_str (take name_size a) ≡ c_str (take name_size b))
name_eq_iff a b = (
  bytes_eq_sound (c_str (take name_size a)) (c_str (take name_size b)),
  bytes_eq_of_eq (c_str (take name_size a)) (c_str (take name_size b)),
)

module _ {F : Type 0} where
  abbrev pub AllUnused : List (AccRuleBe F) → Type 0
  AllUnused [] = Unit {0}
  AllUnused (e ∷ r) = (is_used e ≡ false) × AllUnused r

  -- No used entry behind an unused one.
  abbrev pub IsCompact : List (AccRuleBe F) → Type 0
  IsCompact [] = Unit {0}
  IsCompact (e ∷ r) = ((is_used e ≡ true) × IsCompact r) ⊎ ((is_used e ≡ false) × AllUnused r)

  -- No used entry has the name.
  abbrev pub NameAbsent : Bytes → List (AccRuleBe F) → Type 0
  NameAbsent n [] = Unit {0}
  NameAbsent n (e ∷ r) =
      (is_used e ≡ true → c_str (take name_size e.name) ≢ c_str (take name_size n)) × NameAbsent n r

  abbrev pub NamesDistinct : List (AccRuleBe F) → Type 0
  NamesDistinct [] = Unit {0}
  NamesDistinct (e ∷ r) = (is_used e ≡ true → NameAbsent e.name r) × NamesDistinct r

  abbrev pub count_used : List (AccRuleBe F) → ℕ
  count_used [] = 0
  count_used (e ∷ r) = if is_used e then suc (count_used r) else count_used r

  pub unused-count : (l : List (AccRuleBe F)) → AllUnused l → count_used l ≡ 0
  unused-count [] h = refl
  unused-count (e ∷ r) h = ground (arith, unused-count r h.1)

  pub unused-absent : (n : Bytes) (l : List (AccRuleBe F)) → AllUnused l → NameAbsent n l
  unused-absent n [] h = tt
  unused-absent n (e ∷ r) h = (λ u. absurd (ground arith), unused-absent n r h.1)

  pub count_used-le : (l : List (AccRuleBe F)) → count_used l ≤ length l
  count_used-le [] = omega arith
  count_used-le (e ∷ r) = ground (arith, count_used-le r)

  pub unused-search :
      (n : Bytes) (l : List (AccRuleBe F)) → AllUnused l → get_rule_be_by_name n l ≡ stopped 0
  unfolding get_rule_be_by_name
  unused-search n [] h = refl
  unused-search n (e ∷ r) h = rw (h.0)

  -- A search that stops has seen every used entry, and stops at their number.
  pub stopped-absent :
      (n : Bytes) (l : List (AccRuleBe F)) (i : ℕ)
      → IsCompact l
      → get_rule_be_by_name n l ≡ stopped i
      → NameAbsent n l × (i ≡ count_used l)
  unfolding get_rule_be_by_name
  stopped-absent n [] i c h = (tt, ground arith)
  stopped-absent n (e ∷ r) i (inr (u, a)) h =
      ((λ k. absurd (ground arith), unused-absent n r a), ground (arith, unused-count r a))
  stopped-absent n (e ∷ r) i (inl (u, c)) h = elim (Search-cases (get_rule_be_by_name n r)) [
    | inl (j, q) ↦ absurd (ground (arith))
    | inr (j, q) ↦
        let (a, k) = stopped-absent n r j c q in
        let ne : name_eq n e.name ≡ false = ground arith in
        ((λ _ s. absurd (ground (arith, name_eq_iff n e.name)), a), ground arith)
  ]

  -- A search that finds an entry has found a used one of that name.
  pub found-entry :
      (n : Bytes) (l : List (AccRuleBe F)) (i : ℕ)
      → get_rule_be_by_name n l ≡ found i
      → (e : AccRuleBe F) × (get_elem? l i ≡ some e)
        × (is_used e ≡ true)
        × (name_eq n e.name ≡ true)
  unfolding get_rule_be_by_name
  found-entry n [] i h = absurd (ground arith)
  found-entry n (e ∷ r) i h = elim (Bool-cases (name_eq n e.name)) [
    | inl hit ↦ (let z : i ≡ 0 = ground arith in rw z (e, refl, ground arith, hit))
    | inr miss ↦ elim (Search-cases (get_rule_be_by_name n r)) [
      | inl (j, q) ↦ let z : i ≡ suc j = ground arith in rw z (found-entry n r j q)
      | inr (j, q) ↦ absurd (ground arith)
    ]
  ]
