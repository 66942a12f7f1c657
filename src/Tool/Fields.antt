-- ===== src/Tool/Fields.antt =====
-- The fields of a command of tool/accsh.c in its memory, one written and the others kept.
use be_la.Prelude.{
  ℕ, suc, ◌+◌, ◌-◌, ◌^◌, ◌≤◌, ◌<◌, ◌≡◌, refl, ◌∙◌, ap, ◌⊎◌, inl, inr, Bytes, [], ◌∷◌, ◌++◌, Bool,
  true, false, ◌==◌, if◌then◌else◌, c_str, length, take, drop, arith, write_at, length-write_at,
  drop-write_at, read_before, drop-write_after, read_written, take-append_ge, length-append,
  head_byte, c_str_terminated,
}
use be_la.Wire.{word_bytes, bytes_word, bytes_word-word_bytes}
use be_la.Tool.{word_at, put_word}

-- A part of the memory and a write that do not meet.
abbrev pub Apart : ℕ → ℕ → ℕ → ℕ → Type 0
Apart n o i k = (o + n ≤ i) ⊎ (i + k ≤ o)

pub read-Apart :
    (n o i : ℕ) (b m : Bytes)
    → Apart n o i (length b)
    → i ≤ length m
    → take n (drop o (write_at i b m)) ≡ take n (drop o m)
read-Apart n o i b m (inl h) size = read_before n o i b m h size
read-Apart n o i b m (inr h) size = ap (take n) (drop-write_after o i b m h size)

pub length-put_word : (i w : ℕ) (m : Bytes) → i + 4 ≤ length m → length (put_word i w m) ≡ length m
unfolding put_word word_bytes
length-put_word i w m h = length-write_at i (word_bytes w) m h

pub word_at-put_word :
    (i w : ℕ) (m : Bytes) → w < 2 ^ 32 → i + 4 ≤ length m → word_at i (put_word i w m) ≡ w
unfolding word_at put_word word_bytes
word_at-put_word i w m small h =
    ap bytes_word (read_written i (word_bytes w) m (omega arith)) ∙ bytes_word-word_bytes w small

pub read-put_word :
    (n o i w : ℕ) (m : Bytes)
    → Apart n o i 4
    → i + 4 ≤ length m
    → take n (drop o (put_word i w m)) ≡ take n (drop o m)
unfolding put_word word_bytes
read-put_word n o i w m apart h = read-Apart n o i (word_bytes w) m apart (omega arith)

-- The string in an array of `n` bytes that it was copied to.
pub read_string :
    (n i : ℕ) (s m : Bytes)
    → suc (length (c_str s)) ≤ n
    → i ≤ length m
    → c_str (take n (drop i (write_at i (c_str s ++ (0 ∷ [])) m))) ≡ c_str s
read_string n i s m fits h =
    let b = c_str s ++ (0 ∷ []) in
    let size : length b ≡ suc (length (c_str s)) =
      omega (arith, length-append (c_str s) (0 ∷ [])) in
    ap (λ l. c_str (take n l)) (drop-write_at i b m h)
    ∙ ap c_str (take-append_ge n b (drop (i + length b) m) (omega arith))
    ∙ c_str_terminated s (take (n - length b) (drop (i + length b) m))

-- Whether a string is empty is seen at its first byte.
pub head_byte-c_str :
    (n : ℕ) (l : Bytes) → (head_byte l == 0) ≡ (length (c_str (take (suc n) l)) == 0)
head_byte-c_str n [] = refl
head_byte-c_str n (x ∷ l) = go (x == 0) refl
  where
    go : (t : Bool) → (x == 0) ≡ t → t ≡ (length (if t then [] else x ∷ c_str (take n l)) == 0)
    go true q = refl
    go false q = ground arith
