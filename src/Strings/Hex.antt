-- ===== src/Strings/Hex.antt =====
-- The hexadecimal numerals of src/lib/hex.hpp, read back.
use retux.Prelude.{
  ℕ, zero, suc, ◌+◌, ◌-◌, ◌*◌, ◌/◌, ◌%◌, ◌^◌, ◌<◌, ◌≤◌, ◌⊎◌, All, ◌≡◌, ap, ◌∙◌, ltb, if◌then◌else◌,
  List, [], ◌∷◌, arith, length,
}
use retux.Strings.{digit, hex_digits, to_string}

abbrev pub digit_value : ℕ → ℕ
digit_value c = if ltb c b'A' then c - b'0' else c - b'A' + 10

-- The number that a numeral stands for, when `value` has been read before it.
unfoldable pub read_hex : ℕ → List ℕ → ℕ
read_hex value [] = value
read_hex value (c ∷ s) = read_hex (value * 16 + digit_value c) s

abbrev sixteen_to : ℕ → ℕ
sixteen_to zero = 1
sixteen_to (suc n) = sixteen_to n * 16

digit-read : (n : ℕ) → n < 16 → digit_value (digit n) ≡ n
unfolding digit
digit-read n small = ground arith

read_hex-hex_digits :
    (n value : ℕ) (out : List ℕ)
    → value < sixteen_to n
    → read_hex 0 (hex_digits n value out) ≡ read_hex value out
unfolding read_hex hex_digits
read_hex-hex_digits zero value out small = ap (λ v. read_hex v out) (omega (arith, small))
read_hex-hex_digits (suc n) value out small =
    read_hex-hex_digits n (value / 16) (digit (value % 16) ∷ out) (omega (arith, small))
    ∙ ap (λ v. read_hex v out) (omega (arith, digit-read (value % 16) (omega arith)))

length-hex_digits : (n value : ℕ) (out : List ℕ) → length (hex_digits n value out) ≡ n + length out
unfolding hex_digits
length-hex_digits zero value out = omega arith
length-hex_digits (suc n) value out =
    omega (arith, length-hex_digits n (value / 16) (digit (value % 16) ∷ out))

-- A digit or an upper-case letter from A to F.
abbrev pub IsDigit : ℕ → Type 0
IsDigit c = ((b'0' ≤ c) × (c ≤ b'9')) ⊎ ((b'A' ≤ c) × (c ≤ b'F'))

digit-IsDigit : (n : ℕ) → n < 16 → IsDigit (digit n)
unfolding digit
digit-IsDigit n small = ground (arith, small)

hex_digits-All :
    (n value : ℕ) (out : List ℕ) → All IsDigit out → All IsDigit (hex_digits n value out)
unfolding hex_digits
hex_digits-All zero value out all = all
hex_digits-All (suc n) value out all =
    hex_digits-All n (value / 16) (digit (value % 16) ∷ out)
      (digit-IsDigit (value % 16) (omega arith), all)

-- Hex::to_string of a 64-bit value has 16 characters, each of them a digit or an upper-case letter
-- from A to F, and reads back as the value.
pub read_hex-to_string :
    (value : ℕ)
    → value < 2 ^ 64
    → (read_hex 0 (to_string value) ≡ value)
      × (length (to_string value) ≡ 16)
      × All IsDigit (to_string value)
unfolding to_string read_hex
read_hex-to_string value small = (
  read_hex-hex_digits 16 value [] small,
  length-hex_digits 16 value [],
  hex_digits-All 16 value [] tt,
)
