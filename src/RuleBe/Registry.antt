-- ===== src/RuleBe/Registry.antt =====
-- What `acc_rule_be_register` of rule/acc_rule_be.c promises.
use be_la.Prelude.{
  ℕ, zero, suc, ◌+◌, ◌<◌, ◌≡◌, refl, ap, ◌≢◌, ◌⊎◌, inl, inr, true, false, Bytes, none, some, List,
  [], ◌∷◌, success, failure, leb, arith, if◌then◌else◌, c_str, take, set, length, get_elem?,
  head_byte, Bool-cases, replicate,
}
use be_la.RuleBe.{
  AccRuleBe, Search, found, stopped, is_used, name_eq, name_size, acc_rule_be_max_size,
  get_rule_be_by_name, acc_get_rule_be_by_name, acc_rule_be_register, found_index, blank_registry,
}
use be_la.RuleBe.Scan.{
  name_eq_iff, found-entry, count_used-le, unused-search, unused-count, unused-absent, AllUnused,
  IsCompact, NameAbsent, NamesDistinct, count_used, stopped-absent, Search-cases,
}

module _ {F : Type 0} where
  -- Where the search ends in a compact array that lacks the name, a new entry goes.
  pub data EndAt (n : Bytes) (be : AccRuleBe F)
      : List (AccRuleBe F) → ℕ → List (AccRuleBe F) → Type 0 where
    here :
        (e : AccRuleBe F) (r : List (AccRuleBe F))
        → is_used e ≡ false
        → AllUnused r
        → EndAt n be (e ∷ r) zero (be ∷ r)
    past :
        (e : AccRuleBe F) {r r' : List (AccRuleBe F)} {i : ℕ}
        → is_used e ≡ true
        → name_eq n e.name ≡ false
        → EndAt n be r i r'
        → EndAt n be (e ∷ r) (suc i) (e ∷ r')

  stopped-EndAt :
      (n : Bytes) (l : List (AccRuleBe F)) (i : ℕ) (be : AccRuleBe F)
      → IsCompact l
      → get_rule_be_by_name n l ≡ stopped i
      → i < length l
      → EndAt n be l i (set l i be)
  unfolding get_rule_be_by_name
  stopped-EndAt n [] i be c h lt = absurd (omega arith)
  stopped-EndAt n (e ∷ r) i be (inr (u, a)) h lt =
      let z : i ≡ 0 = ground arith in rw z (here e r u a)
  stopped-EndAt n (e ∷ r) i be (inl (u, c)) h lt = elim (Search-cases (get_rule_be_by_name n r)) [
    | inl (j, q) ↦ absurd (ground arith)
    | inr (j, q) ↦
        let z : i ≡ suc j = ground arith in
        rw z (past e u (ground arith) (stopped-EndAt n r j be c q (omega arith)))
  ]

  module _ {n : Bytes} {be : AccRuleBe F} (used : is_used be ≡ true) where
    EndAt-IsCompact :
        {l l' : List (AccRuleBe F)} {i : ℕ} → EndAt n be l i l' → IsCompact l → IsCompact l'
    EndAt-IsCompact (here e r u a) c = inl (used, rest r a)
      where
        rest : (r : List (AccRuleBe F)) → AllUnused r → IsCompact r
        rest [] a = tt
        rest (x ∷ xs) a = inr a
    EndAt-IsCompact (past e u ne f) (inl (_, c)) = inl (u, EndAt-IsCompact f c)
    EndAt-IsCompact (past e u ne f) (inr (v, _)) = cc

    EndAt-count :
        {l l' : List (AccRuleBe F)} {i : ℕ}
        → EndAt n be l i l'
        → (count_used l ≡ i) × (count_used l' ≡ i + 1) × (length l' ≡ length l)
    EndAt-count (here e r u a) = ground (arith, unused-count r a)
    EndAt-count (past e u ne f) = ground (arith, EndAt-count f)

  EndAt-NameAbsent :
      {n : Bytes} {be : AccRuleBe F} {l l' : List (AccRuleBe F)} {i : ℕ} (m : Bytes)
      → EndAt n be l i l'
      → c_str (take name_size be.name) ≢ c_str (take name_size m)
      → NameAbsent m l
      → NameAbsent m l'
  EndAt-NameAbsent m (here e r u a) ne h = (λ _. ne, h.1)
  EndAt-NameAbsent m (past e u _ f) ne h = (h.0, EndAt-NameAbsent m f ne h.1)

  EndAt-NamesDistinct :
      {be : AccRuleBe F} {l l' : List (AccRuleBe F)} {i : ℕ}
      → EndAt be.name be l i l'
      → NamesDistinct l
      → NamesDistinct l'
  EndAt-NamesDistinct {be} (here e r u a) d = (λ _. unused-absent be.name r a, d.1)
  EndAt-NamesDistinct {be} (past e u ne f) d = (
    λ _. EndAt-NameAbsent e.name f (λ s. ground (arith, name_eq_iff be.name e.name)) (d.0 u),
    EndAt-NamesDistinct f d.1,
  )

  -- A search in the array with the new entry.
  EndAt-search :
      {be : AccRuleBe F} {l l' : List (AccRuleBe F)} {i : ℕ} (m : Bytes)
      → is_used be ≡ true
      → EndAt be.name be l i l'
      → found_index (get_rule_be_by_name m l')
        ≡ (if name_eq m be.name then some i else found_index (get_rule_be_by_name m l))
  unfolding get_rule_be_by_name
  EndAt-search {be} m w (here e r u a) = rw (w, u, unused-search m r a) (ground arith)
  EndAt-search {be} m w (past e u ne f) = ground (
    arith,
    name_eq_iff m e.name,
    name_eq_iff m be.name,
    name_eq_iff be.name e.name,
    EndAt-search m w f,
  )

  pub record IsValid (t : List (AccRuleBe F)) : Type 0 where
    pub size : length t ≡ acc_rule_be_max_size
    pub compact : IsCompact t
    pub distinct : NamesDistinct t

  abbrev pub LookupResult : List (AccRuleBe F) → Bytes → Type 0
  LookupResult t n =
      ((i : ℕ) × (e : AccRuleBe F) × (acc_get_rule_be_by_name t n ≡ some i)
        × (get_elem? t i ≡ some e)
        × (is_used e ≡ true)
        × (name_eq n e.name ≡ true))
      ⊎ ((acc_get_rule_be_by_name t n ≡ none) × NameAbsent n t)

  -- In a valid registry a lookup ends at a used entry of that name, or returns NULL, and then no
  -- entry of the whole array has the name although the search ended at the first unused entry.
  pub lookup_complete : (t : List (AccRuleBe F)) (n : Bytes) → IsValid t → LookupResult t n
  unfolding acc_get_rule_be_by_name
  lookup_complete t n v = elim (Search-cases (get_rule_be_by_name n t)) [
    | inl (i, q) ↦ let (e, at, u, m) = found-entry n t i q in inl (i, e, ap found_index q, at, u, m)
    | inr (i, q) ↦ inr (ap found_index q, (stopped-absent n t i v.compact q).0)
  ]

  abbrev pub RegisterResult : List (AccRuleBe F) → AccRuleBe F → Type 0
  RegisterResult t be =
      ((acc_rule_be_register t (some be) ≡ (failure, t))
        × ((acc_get_rule_be_by_name t be.name ≢ none) ⊎ (count_used t ≡ acc_rule_be_max_size)))
      ⊎ ((t' : List (AccRuleBe F)) × (acc_rule_be_register t (some be) ≡ (success, t'))
          × (acc_get_rule_be_by_name t be.name ≡ none)
          × (count_used t < acc_rule_be_max_size)
          × IsValid t'
          × (t' ≡ set t (count_used t) be)
          × ((m : Bytes)
              → acc_get_rule_be_by_name t' m
                ≡ (if name_eq m be.name then some (count_used t) else acc_get_rule_be_by_name t m)))

  -- In a valid registry a backend with a name is either refused, with the array as it was, because
  -- its name is taken or all 32 entries are; or it is written, whole, to the first unused entry and
  -- no other entry is, the registry stays valid, and
  -- lookups find it under its name and what they found before under every other.
  pub register_lem :
      (t : List (AccRuleBe F)) (be : AccRuleBe F)
      → IsValid t
      → head_byte be.name ≢ 0
      → RegisterResult t be
  unfolding acc_rule_be_register acc_get_rule_be_by_name
  register_lem t be v named = go (get_rule_be_by_name be.name t) refl
    where
      open_slot :
          (i : ℕ)
          → get_rule_be_by_name be.name t ≡ stopped i
          → i < acc_rule_be_max_size
          → RegisterResult t be
      open_slot i q lt =
          let w : is_used be ≡ true = ground arith in
          let f = stopped-EndAt be.name t i be v.compact q (omega (arith, v.size)) in
          let (count, _, size) = EndAt-count w f in
          inr (
            set t i be,
            ground arith,
            ap found_index q,
            omega arith,
            record {
              size = omega (arith, v.size);
              compact = EndAt-IsCompact w f v.compact;
              distinct = EndAt-NamesDistinct f v.distinct;
            },
            ap (λ k. set t k be) (omega (arith, count)),
            λ m. rw count (EndAt-search m w f),
          )

      go : (s : Search) → get_rule_be_by_name be.name t ≡ s → RegisterResult t be
      go (found i) q = inl (ground arith, inl (λ e. ground arith))
      go (stopped i) q = elim (Bool-cases (leb acc_rule_be_max_size i)) [
        | inl full ↦
            let c = (stopped-absent be.name t i v.compact q).1 in
            inl (ground arith, inr (ground (arith, count_used-le t, v.size)))
        | inr room ↦ open_slot i q (ground arith)
      ]

  unused-NamesDistinct : (l : List (AccRuleBe F)) → AllUnused l → NamesDistinct l
  unused-NamesDistinct [] a = tt
  unused-NamesDistinct (e ∷ r) a = (λ u. absurd (ground arith), unused-NamesDistinct r a.1)

  unused-replicate : (n : ℕ) (e : AccRuleBe F) → is_used e ≡ false → AllUnused (replicate n e)
  unused-replicate zero e u = tt
  unused-replicate (suc n) e u = (u, unused-replicate n e u)

  -- The zeroed array that the program starts with is valid.
  pub blank-IsValid : IsValid blank_registry
  blank-IsValid =
      let e : AccRuleBe F = record { name = []; funcs = none } in
      record {
        size = refl;
        compact = inr (refl, unused-replicate 31 e refl);
        distinct = unused-NamesDistinct blank_registry (unused-replicate 32 e refl);
      }
