-- ===== src/Prelude/Chars.antt =====
-- C character arrays: a list of byte values. A C string is the part before the first NUL.
use Prim.Native.Nat.{ℕ}
use Prim.Native.Char.{code}
use Prim.Native.String.{String}
use mathlib.Core.Path.{◌≡◌, refl}
use mathlib.Core.Logic.{◌↔◌}
use mathlib.Core.Bool.{Bool, true, false, ◌&&◌}
use mathlib.Core.List.{List, [], ◌∷◌}
use native.Mathlib.Omega.{arith}
use be_la.Prelude.Tests.{◌==◌, if◌then◌else◌}

abbrev pub Bytes : Type 0
Bytes = List ℕ

-- The bytes of an ASCII literal.
abbrev pub codes : String → Bytes
codes String.[] = []
codes (String.◌∷◌ c s) = code c ∷ codes s

abbrev pub head_byte : Bytes → ℕ
head_byte [] = 0
head_byte (b ∷ bs) = b

-- What `strcmp`, `strlen` and `%s` read of an array.
abbrev pub c_str : Bytes → Bytes
c_str [] = []
c_str (b ∷ bs) = if b == 0 then [] else b ∷ c_str bs

unfoldable pub bytes_eq : Bytes → Bytes → Bool
bytes_eq [] [] = true
bytes_eq [] (b ∷ bs) = false
bytes_eq (a ∷ as') [] = false
bytes_eq (a ∷ as') (b ∷ bs) = (a == b) && bytes_eq as' bs

-- `strcmp(a, b) == 0`.
abbrev pub str_eq : Bytes → Bytes → Bool
str_eq a b = bytes_eq (c_str a) (c_str b)

pub bytes_eq_refl : (a : Bytes) → bytes_eq a a ≡ true
unfolding bytes_eq
bytes_eq_refl [] = refl
bytes_eq_refl (x ∷ xs) = ground (arith, bytes_eq_refl xs)

pub bytes_eq_sound : (a b : Bytes) → bytes_eq a b ≡ true → a ≡ b
unfolding bytes_eq
bytes_eq_sound [] [] h = refl
bytes_eq_sound [] (y ∷ ys) h = cc
bytes_eq_sound (x ∷ xs) [] h = cc
bytes_eq_sound (x ∷ xs) (y ∷ ys) h = ground (arith, bytes_eq_sound xs ys)

pub bytes_eq_of_eq : (a b : Bytes) → a ≡ b → bytes_eq a b ≡ true
bytes_eq_of_eq a b e = rw e (bytes_eq_refl b)

pub str_eq_iff : (a b : Bytes) → (str_eq a b ≡ true) ↔ (c_str a ≡ c_str b)
str_eq_iff a b = (bytes_eq_sound (c_str a) (c_str b), bytes_eq_of_eq (c_str a) (c_str b))
