-- ===== src/Ovs/Print.antt =====
-- The printing of rule/openvswitch/acc_ovs_rule.c: what `sprintf` makes of numbers and fields.
use be_la.Prelude.{
  ℕ, zero, suc, ◌+◌, ◌-◌, ◌*◌, ◌/◌, ◌%◌, ◌^◌, ◌≤◌, ◌<◌, ◌≡◌, refl, Bytes, [], ◌∷◌, ◌++◌, arith, ltb,
  ltb-true, ◌∙◌, if◌then◌else◌, length, get_or, length-append, codes, inl, inr, Bool-cases,
}

-- A digit of `%d`, and one of `%X`.
abbrev pub digit : ℕ → ℕ
digit d = b'0' + d

abbrev pub hex_digit : ℕ → ℕ
hex_digit d = if ltb d 10 then b'0' + d else b'A' + d - 10

-- The digits of a number to a base, most significant first, with fuel for as many.
unfoldable pub print_base : ℕ → (ℕ → ℕ) → ℕ → ℕ → Bytes
print_base base show zero n = []
print_base base show (suc f) n =
    let front = print_base base show f (n / base) in
    if ltb n base then show n ∷ [] else front ++ (show (n % base) ∷ [])

-- `%d` and `%X` of a 32-bit word: 10 and 8 digits are enough.
unfoldable pub print_d : ℕ → Bytes
unfolding print_base
print_d n = print_base 10 digit 10 n

unfoldable pub print_x : ℕ → Bytes
unfolding print_base
print_x n = print_base 16 hex_digit 8 n

-- `%02X` of a byte.
unfoldable pub print_02x : ℕ → Bytes
print_02x b = hex_digit (b / 16) ∷ hex_digit (b % 16) ∷ []

-- `_print_port` of the two bytes of a `uint16_t`.
unfoldable pub print_port : Bytes → Bytes
unfolding print_d
print_port p = print_d (get_or p 0 0 + 256 * get_or p 1 0)

unfoldable pub print_ip : Bytes → Bytes
print_ip a =
    print_d (get_or a 0 0)
    ++ (codes "."
        ++ (print_d (get_or a 1 0)
            ++ (codes "." ++ (print_d (get_or a 2 0) ++ (codes "." ++ print_d (get_or a 3 0))))))

unfoldable pub print_mac : Bytes → Bytes
unfolding print_02x
print_mac m =
    print_02x (get_or m 0 0)
    ++ (codes ":"
        ++ (print_02x (get_or m 1 0)
            ++ (codes ":"
                ++ (print_02x (get_or m 2 0)
                    ++ (codes ":"
                        ++ (print_02x (get_or m 3 0)
                            ++ (codes ":"
                                ++ (print_02x (get_or m 4 0)
                                    ++ (codes ":" ++ print_02x (get_or m 5 0))))))))))

-- A number takes as many digits as the power of the base that it stays under.
length-print_base : (base : ℕ) (show : ℕ → ℕ) (f n : ℕ) → length (print_base base show f n) ≤ f
unfolding print_base
length-print_base base show zero n = omega arith
length-print_base base show (suc f) n = ground (
  arith,
  length-print_base base show f (n / base),
  length-append (print_base base show f (n / base)) (show (n % base) ∷ []),
)

-- 10 to the k + 1.
abbrev pub power : ℕ → ℕ
power zero = 10
power (suc k) = 10 * power k

-- Under 10^(k + 1) a number has at most k + 1 decimal digits.
small_print : (f k n : ℕ) → n < power k → length (print_base 10 digit f n) ≤ suc k
unfolding print_base
small_print zero k n h = omega arith
small_print (suc f) zero n h = rw (ltb-true n 10 h) (omega arith)
small_print (suc f) (suc k) n h = ground (
  arith,
  small_print f k (n / 10) (omega arith),
  length-append (print_base 10 digit f (n / 10)) (digit (n % 10) ∷ []),
)

-- The printed fields fit the static buffers of 8, 16 and 18 bytes with their final NUL.
pub length-print_port :
    (p : Bytes) → get_or p 0 0 < 256 → get_or p 1 0 < 256 → length (print_port p) < 8
unfolding print_port
length-print_port p a b =
    omega (arith, small_print 10 4 (get_or p 0 0 + 256 * get_or p 1 0) (omega arith))

-- The number that a decimal text stands for.
unfoldable pub read_d : ℕ → Bytes → ℕ
read_d acc [] = acc
read_d acc (b ∷ r) = read_d (10 * acc + (b - b'0')) r

read_d-append :
    (acc d : ℕ) (xs : Bytes) → read_d acc (xs ++ (digit d ∷ [])) ≡ 10 * read_d acc xs + d
unfolding read_d
read_d-append acc d [] = omega arith
read_d-append acc d (x ∷ xs) = read_d-append (10 * acc + (x - b'0')) d xs

read_print : (f n : ℕ) → n < power f → read_d 0 (print_base 10 digit (suc f) n) ≡ n
unfolding read_d print_base
read_print zero n h = rw (ltb-true n 10 h) (omega arith)
read_print (suc f) n h = elim (Bool-cases (ltb n 10)) [
  | inl small ↦ rw small (omega arith)
  | inr big ↦ rw big (
      read_d-append 0 (n % 10) (print_base 10 digit (suc f) (n / 10))
      ∙ omega (arith, read_print f (n / 10) (omega arith)))
]

-- Ten digits are enough for a 32-bit word: its decimal text reads back as the word.
pub read_d-print_d : (n : ℕ) → n < 2 ^ 32 → read_d 0 (print_d n) ≡ n
unfolding print_d
read_d-print_d n h = read_print 9 n (omega arith)

print_d_byte : (n : ℕ) → n < 256 → length (print_d n) ≤ 3
unfolding print_d
print_d_byte n h = small_print 10 2 n (omega arith)

-- The text of an address of four bytes fits its static buffer of 16 bytes with the final NUL.
pub length-print_ip :
    (a : Bytes)
    → get_or a 0 0 < 256
    → get_or a 1 0 < 256
    → get_or a 2 0 < 256
    → get_or a 3 0 < 256
    → length (print_ip a) < 16
unfolding print_ip
length-print_ip a h0 h1 h2 h3 =
    (simp length-append (
      omega (
        arith,
        print_d_byte (get_or a 0 0) h0,
        print_d_byte (get_or a 1 0) h1,
        print_d_byte (get_or a 2 0) h2,
        print_d_byte (get_or a 3 0) h3,
      )))

pub length-print_mac : (m : Bytes) → length (print_mac m) ≡ 17
unfolding print_mac
length-print_mac m = refl

-- Bounds that need no bound on the bytes.
pub print_d-le : (n : ℕ) → length (print_d n) ≤ 10
unfolding print_d
print_d-le n = length-print_base 10 digit 10 n

pub print_port-le : (p : Bytes) → length (print_port p) ≤ 10
unfolding print_port
print_port-le p = length-print_base 10 digit 10 (get_or p 0 0 + 256 * get_or p 1 0)

pub print_ip-le : (a : Bytes) → length (print_ip a) ≤ 43
unfolding print_ip
print_ip-le a = simp length-append (
    omega (
      arith,
      print_d-le (get_or a 0 0),
      print_d-le (get_or a 1 0),
      print_d-le (get_or a 2 0),
      print_d-le (get_or a 3 0),
    ))

pub print_x-le : (n : ℕ) → length (print_x n) ≤ 8
unfolding print_x
print_x-le n = length-print_base 16 hex_digit 8 n
