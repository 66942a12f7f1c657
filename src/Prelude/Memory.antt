-- ===== src/Prelude/Memory.antt =====
-- Memory that is written at offsets: a list of byte values, with what is read behind a write.
use Prim.Native.Nat.{ℕ, zero, suc, ◌+◌, ◌-◌, ◌≤◌}
use mathlib.Core.Path.{◌≡◌, refl, sym, ap, ◌∙◌}
use mathlib.Core.List.{[], ◌∷◌, ◌++◌}
use native.Mathlib.Omega.{arith}
use mathlib.Core.Bool.{Bool, true, false}
use be_la.Prelude.Tests.{◌==◌, if◌then◌else◌}
use be_la.Prelude.Chars.{Bytes, c_str}
use be_la.Prelude.Lists.{
  length, take, drop, replicate, length-append, length-take, length-drop, length-replicate,
  drop-append_ge, drop-append_le, take-append_le, take-append_left,
}

-- A write of some bytes at an offset.
unfoldable pub write_at : ℕ → Bytes → Bytes → Bytes
write_at i b m = take i m ++ (b ++ drop (i + length b) m)

-- `strncpy(to, from, n)`: the string, cut or padded with NULs to `n` bytes.
unfoldable pub strncpy : ℕ → Bytes → Bytes
strncpy n from = take n (c_str (take n from) ++ replicate n 0)

pub length-write_at :
    (i : ℕ) (b m : Bytes) → i + length b ≤ length m → length (write_at i b m) ≡ length m
unfolding write_at
length-write_at i b m h =
    simp length-append (omega (arith, length-take i m, length-drop (i + length b) m))

pub length-strncpy : (n : ℕ) (from : Bytes) → length (strncpy n from) ≡ n
unfolding strncpy
length-strncpy n from = omega (
  arith,
  length-take n (c_str (take n from) ++ replicate n 0),
  length-append (c_str (take n from)) (replicate n 0),
  length-replicate n (let z : ℕ = 0 in z),
)

-- What is read from an offset behind which a write began.
pub drop-write_at :
    (i : ℕ) (b m : Bytes) → i ≤ length m → drop i (write_at i b m) ≡ b ++ drop (i + length b) m
unfolding write_at
drop-write_at i b m h =
    let none_left : i - length (take i m) ≡ 0 = omega (arith, length-take i m) in
    let t = length-take i m in
    drop-append_ge i (take i m) (b ++ drop (i + length b) m) (omega arith)
    ∙ ap (λ k. drop k (b ++ drop (i + length b) m)) none_left

take-drop-take :
    (n o i : ℕ) (m : Bytes) → o + n ≤ i → take n (drop o (take i m)) ≡ take n (drop o m)
take-drop-take zero o i m h = refl
take-drop-take (suc n) o zero m h = absurd (omega arith)
take-drop-take (suc n) zero (suc i) [] h = refl
take-drop-take (suc n) zero (suc i) (x ∷ m) h = ap (◌∷◌ x) (take-drop-take n zero i m (omega arith))
take-drop-take (suc n) (suc o) (suc i) [] h = refl
take-drop-take (suc n) (suc o) (suc i) (x ∷ m) h = take-drop-take (suc n) o i m (omega arith)

drop_nil : (n : ℕ) → drop {A = ℕ} n [] ≡ []
drop_nil zero = refl
drop_nil (suc n) = refl

pub drop-drop : (a b : ℕ) (m : Bytes) → drop a (drop b m) ≡ drop (b + a) m
drop-drop a zero m = ap (λ k. drop k m) (omega arith)
drop-drop a (suc b) [] = drop_nil a ∙ sym (drop_nil (suc b + a))
drop-drop a (suc b) (x ∷ m) =
    let e : suc (b + a) ≡ suc b + a = omega arith in drop-drop a b m ∙ ap (λ k. drop k (x ∷ m)) e

-- What is read in front of a write.
pub read_before :
    (n o i : ℕ) (b m : Bytes)
    → o + n ≤ i
    → i ≤ length m
    → take n (drop o (write_at i b m)) ≡ take n (drop o m)
unfolding write_at
read_before n o i b m h size =
    let t = length-take i m in
    ap (take n) (drop-append_le o (take i m) (b ++ drop (i + length b) m) (omega arith))
    ∙ take-append_le n (drop o (take i m)) (b ++ drop (i + length b) m)
        (omega (arith, length-drop o (take i m), t))
    ∙ take-drop-take n o i m h

-- What is read behind it.
pub drop-write_after :
    (o i : ℕ) (b m : Bytes) → i + length b ≤ o → i ≤ length m → drop o (write_at i b m) ≡ drop o m
unfolding write_at
drop-write_after o i b m h size =
    let t = length-take i m in
    drop-append_ge o (take i m) (b ++ drop (i + length b) m) (omega arith)
    ∙ drop-append_ge (o - length (take i m)) b (drop (i + length b) m) (omega arith)
    ∙ drop-drop (o - length (take i m) - length b) (i + length b) m
    ∙ ap (λ k. drop k m) (omega arith)

-- What is read where it was written.
pub read_written :
    (i : ℕ) (b m : Bytes) → i ≤ length m → take (length b) (drop i (write_at i b m)) ≡ b
read_written i b m h =
    ap (take (length b)) (drop-write_at i b m h) ∙ take-append_left b (drop (i + length b) m)

-- A string with its NUL, whatever is behind it.
pub c_str_terminated : (s rest : Bytes) → c_str ((c_str s ++ (0 ∷ [])) ++ rest) ≡ c_str s
c_str_terminated [] rest = refl
c_str_terminated (x ∷ s) rest = go (x == 0) refl (c_str_terminated s rest)
  where
    go :
        (t : Bool)
        → (x == 0) ≡ t
        → c_str ((c_str s ++ (0 ∷ [])) ++ rest) ≡ c_str s
        → c_str (((if t then [] else x ∷ c_str s) ++ (0 ∷ [])) ++ rest)
          ≡ (if t then [] else x ∷ c_str s)
    go true q later = refl
    go false q later = rw (q, later) refl
