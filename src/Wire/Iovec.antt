-- ===== src/Wire/Iovec.antt =====
-- `_iovec_copy` and `_get_next_send_iovec` of message/be_acc_msg.h. An iovec is the bytes that it
-- designates, and both functions work in one array: `remain_array` is `array`, as at their call.
use mathlib.Core.Path.{ap₂}
use native.Mathlib.Nat.{add-zero}
use be_la.Prelude.{
  ℕ, zero, suc, ◌+◌, ◌-◌, ◌<◌, ◌≡◌, refl, ◌∙◌, ap, Bytes, List, [], ◌∷◌, ◌++◌, arith, ltb, leb,
  if◌then◌else◌, length, take, drop, set, get_or, get_or-append, set-append, append_assoc,
  length-append, ◌⊎◌, inl, inr, Bool-cases, drop-append_ge, drop-append_le,
}

abbrev pub IovecArray : Type 0
IovecArray = List Bytes

-- The `for` loop: `rounds` elements from `index` on go to `copy_number` on.
unfoldable pub copy_rest : ℕ → ℕ → ℕ → IovecArray → IovecArray × ℕ
copy_rest zero index copy_number a = (a, copy_number)
copy_rest (suc rounds) index copy_number a =
    copy_rest rounds (index + 1) (copy_number + 1) (set a copy_number (get_or a index []))

unfoldable pub iovec_copy : IovecArray → ℕ → ℕ → ℕ → IovecArray × ℕ
unfolding copy_rest
iovec_copy a array_len index offset =
    if ltb index array_len
    then copy_rest (array_len - (index + 1)) (index + 1) 1
        (set a 0 (drop offset (get_or a index [])))
    else (a, 0)

-- The loop of `_get_next_send_iovec` over the elements in use: how many are sent whole, and what
-- is sent of the next.
unfoldable pub skip_sent : List Bytes → ℕ → ℕ × ℕ
skip_sent [] offset = (0, offset)
skip_sent (v ∷ r) offset =
    let (i, rest) = skip_sent r (offset - length v) in
    if leb (length v) offset then (suc i, rest) else (0, offset)

unfoldable pub get_next_send_iovec : IovecArray → ℕ → ℕ → IovecArray × ℕ
unfolding iovec_copy skip_sent
get_next_send_iovec a array_len offset =
    let (i, rest) = skip_sent (take array_len a) offset in iovec_copy a array_len i rest

abbrev pub flatten : List Bytes → Bytes
flatten [] = []
flatten (v ∷ r) = v ++ flatten r

-- The bytes of the elements in use.
abbrev pub unsent : IovecArray → ℕ → Bytes
unsent a n = flatten (take n a)

-- One round of the copy, in an array with a gap before the element that is copied.
copy_step :
    (front gap rest : IovecArray) (g x : Bytes) (i c : ℕ)
    → i ≡ length front + suc (length gap)
    → c ≡ length front
    → let a = front ++ (g ∷ (gap ++ (x ∷ rest))) in
      set a c (get_or a i []) ≡ (front ++ (x ∷ [])) ++ ((gap ++ (x ∷ [])) ++ rest)
copy_step front gap rest g x i c ei ec =
    let read : get_or (front ++ (g ∷ (gap ++ (x ∷ rest)))) i [] ≡ x =
      rw (ei, ← length-append front (g ∷ gap), ← append_assoc front (g ∷ gap) (x ∷ rest))
        (get_or-append (front ++ (g ∷ gap)) rest x []) in
    rw (read, ec, set-append front (gap ++ (x ∷ rest)) g x) (simp append_assoc)

-- Copying forward in one array reads each element before it is overwritten.
pub copy_rest_lem :
    (front hole suffix tail a : IovecArray) (i c : ℕ)
    → i ≡ length front + length hole
    → c ≡ length front
    → a ≡ front ++ (hole ++ (suffix ++ tail))
    → (out : IovecArray) × (copy_rest (length suffix) i c a
        ≡ (front ++ (suffix ++ out), c + length suffix))
unfolding copy_rest
copy_rest_lem front [] [] tail a i c ei ec ea = (tail, ground arith)
copy_rest_lem front [] (x ∷ xs) tail a i c ei ec ea =
    let read : get_or a i [] ≡ x = rw (ea, ei, add-zero) (get_or-append front (xs ++ tail) x []) in
    let (out, e) =
      copy_rest_lem (front ++ (x ∷ [])) [] xs tail (set a c (get_or a i [])) (i + 1) (c + 1)
        (omega (arith, length-append front (x ∷ []))) (omega (arith, length-append front (x ∷ [])))
        (rw (read, ea, ec, set-append front (xs ++ tail) x x) (simp append_assoc)) in
    (
      out,
      e
          ∙ ap₂ (λ (p : IovecArray) (n : ℕ). (p, n)) (append_assoc front (x ∷ []) (xs ++ out))
              (omega arith),
    )
copy_rest_lem front (g ∷ gap) [] tail a i c ei ec ea = (g ∷ (gap ++ tail), ground arith)
copy_rest_lem front (g ∷ gap) (x ∷ xs) tail a i c ei ec ea =
    let (out, e) =
      copy_rest_lem (front ++ (x ∷ [])) (gap ++ (x ∷ [])) xs tail (set a c (get_or a i [])) (i + 1)
        (c + 1) (omega (arith, length-append gap (x ∷ []), length-append front (x ∷ [])))
        (omega (arith, length-append front (x ∷ [])))
        (rw ea (copy_step front gap (xs ++ tail) g x i c ei ec)) in
    (
      out,
      e
          ∙ ap₂ (λ (p : IovecArray) (n : ℕ). (p, n)) (append_assoc front (x ∷ []) (xs ++ out))
              (omega arith),
    )

-- Where the loop over the sent elements ends: behind them all, or in one that is sent in part.
abbrev pub Skipped : List Bytes → ℕ → ℕ × ℕ → Type 0
Skipped l offset r =
    ((r.0 ≡ length l) × (drop offset (flatten l) ≡ []))
    ⊎ ((before : List Bytes) × (v : Bytes) × (after : List Bytes) × (l ≡ before ++ (v ∷ after))
        × (r.0 ≡ length before)
        × (r.1 < length v)
        × (drop offset (flatten l) ≡ drop r.1 v ++ flatten after))

drop-nil : (n : ℕ) → drop n (let e : Bytes = [] in e) ≡ []
drop-nil zero = refl
drop-nil (suc n) = refl

pub skip_sent-Skipped : (l : List Bytes) (offset : ℕ) → Skipped l offset (skip_sent l offset)
unfolding skip_sent
skip_sent-Skipped [] offset = inl (refl, drop-nil offset)
skip_sent-Skipped (v ∷ r) offset = elim (Bool-cases (leb (length v) offset)) [
  | inl whole ↦
      let d = drop-append_ge offset v (flatten r) (ground arith) in
      rw whole
        (further (skip_sent r (offset - length v)) d (skip_sent-Skipped r (offset - length v)))
  | inr part ↦
      rw part (
        inr
          ([], v, r, refl, refl, ground arith, drop-append_le offset v (flatten r) (ground arith)))
]
  where
    further :
        (p : ℕ × ℕ)
        → drop offset (v ++ flatten r) ≡ drop (offset - length v) (flatten r)
        → Skipped r (offset - length v) p
        → Skipped (v ∷ r) offset (suc p.0, p.1)
    further p d (inl (e, q)) = inl (ap suc e, d ∙ q)
    further p d (inr (b, w, a, e, n, lt, q)) = inr (v ∷ b, w, a, ap (◌∷◌ v) e, ap suc n, lt, d ∙ q)
