-- ===== src/Wire/Advance.antt =====
-- How `_get_next_send_iovec` of message/be_acc_msg.h advances over what a `writev` sent.
use be_la.Prelude.{
  ℕ, suc, ◌+◌, ◌-◌, ◌≤◌, ◌<◌, ◌≡◌, refl, sym, ◌∙◌, ap, Bytes, List, [], ◌∷◌, ◌++◌, arith, length,
  take, drop, set, get_or, get_or-append, length-append, ◌⊎◌, inl, inr, take-append_left,
  take-append-drop, append_assoc, length-drop, length-take,
}
use be_la.Wire.Iovec.{
  IovecArray, copy_rest, iovec_copy, skip_sent, get_next_send_iovec, flatten, unsent, copy_rest_lem,
  Skipped, skip_sent-Skipped,
}

-- What is left to send, after a `writev` that took `offset` bytes of it.
abbrev pub Advances : IovecArray → ℕ → ℕ → IovecArray × ℕ → Type 0
Advances a n offset r =
    (unsent r.0 r.1 ≡ drop offset (unsent a n))
    × (r.1 ≤ length r.0)
    × ((r.1 ≡ 0) ⊎ (0 < length (unsent r.0 r.1)))

-- The guard of `_iovec_copy` passed, and the first element written.
copy_first :
    (a : IovecArray) (n i offset : ℕ)
    → i < n
    → iovec_copy a n i offset
      ≡ copy_rest (n - (i + 1)) (i + 1) 1 (set a 0 (drop offset (get_or a i [])))
unfolding iovec_copy
copy_first a n i offset h = ground arith

-- The array after the copy, from a split of the elements in use.
copy_split :
    (before after tail : List Bytes) (v : Bytes) (n i offset : ℕ)
    → i ≡ length before
    → n ≡ i + suc (length after)
    → (out : IovecArray) × (iovec_copy (before ++ (v ∷ (after ++ tail))) n i offset
        ≡ (drop offset v ∷ (after ++ out), suc (length after)))
copy_split [] after tail v n i offset e m =
    let w = drop offset v in
    let (out, q) = copy_rest_lem (w ∷ []) [] after tail (w ∷ (after ++ tail)) 1 1 refl refl refl in
    let one : 1 + length after ≡ suc (length after) = omega arith in
    let k : n - (i + 1) ≡ length after = omega arith in
    (out, rw (copy_first (v ∷ (after ++ tail)) n i offset (omega arith), k, e) (rw one at q))
copy_split (p ∷ before) after tail v n i offset e m =
    let w = drop offset v in
    let (out, q) =
      copy_rest_lem (w ∷ []) (before ++ (v ∷ [])) after tail (w ∷ (before ++ (v ∷ (after ++ tail))))
        (i + 1) 1 (omega (arith, length-append before (v ∷ []))) refl
        (ap (◌∷◌ w) (sym (append_assoc before (v ∷ []) (after ++ tail)))) in
    let one : 1 + length after ≡ suc (length after) = omega arith in
    let k : n - (i + 1) ≡ length after = omega arith in
    let read : get_or (p ∷ (before ++ (v ∷ (after ++ tail)))) i [] ≡ v =
      rw e (get_or-append (p ∷ before) (after ++ tail) v []) in
    (
      out,
      rw (copy_first (p ∷ (before ++ (v ∷ (after ++ tail)))) n i offset (omega arith), k, read)
          (rw one at q),
    )

skipped_all : (a : IovecArray) (n i offset : ℕ) → n ≤ i → iovec_copy a n i offset ≡ (a, 0)
unfolding iovec_copy
skipped_all a n i offset h = ground arith

copied :
    (l tail : List Bytes) (offset : ℕ) (p : ℕ × ℕ)
    → Skipped l offset p
    → Advances (l ++ tail) (length l) offset (iovec_copy (l ++ tail) (length l) p.0 p.1)
copied l tail offset p (inl (e, q)) =
    rw (skipped_all (l ++ tail) (length l) p.0 p.1 (omega arith)) (
      sym q ∙ ap (λ k. drop offset (flatten k)) (sym (take-append_left l tail)),
      omega arith,
      inl refl,
    )
copied l tail offset p (inr (b, v, a, e, n, lt, q)) =
    let size : length l ≡ p.0 + suc (length a) =
      omega (arith, ap length e, length-append b (v ∷ a)) in
    let (out, c) = copy_split b a tail v (length l) p.0 p.1 n size in
    let whole : l ++ tail ≡ b ++ (v ∷ (a ++ tail)) = rw e (append_assoc b (v ∷ a) tail) in
    let w = drop p.1 v in
    let left : unsent (w ∷ (a ++ out)) (suc (length a)) ≡ w ++ flatten a =
      ap (λ k. w ++ flatten k) (take-append_left a out) in
    let now : iovec_copy (l ++ tail) (length l) p.0 p.1 ≡ (w ∷ (a ++ out), suc (length a)) =
      rw whole c in
    rw now (
      left ∙ sym q ∙ ap (λ k. drop offset (flatten k)) (sym (take-append_left l tail)),
      omega (arith, length-append a out),
      inr (rw left (omega (arith, length-append w (flatten a), length-drop p.1 v))),
    )

-- When the count is within the array, `_get_next_send_iovec`, working in the array that it reads,
-- leaves the bytes behind the first `offset` of what was to be sent; and the count it returns is 0
-- just when none are left.
pub get_next_send_iovec-Advances :
    (a : IovecArray) (n offset : ℕ)
    → n ≤ length a
    → Advances a n offset (get_next_send_iovec a n offset)
unfolding get_next_send_iovec
get_next_send_iovec-Advances a n offset h =
    let l = take n a in
    let size : length l ≡ n = omega (arith, length-take n a) in
    let c = copied l (drop n a) offset (skip_sent l offset) (skip_sent-Skipped l offset) in
    rw (take-append-drop n a, size) at c
