-- ===== src/Texts/Hexadecimal.antt =====
-- Hexadecimal digits, read back.
use feather.Common.{
  length, all, ltb, if◌then◌else◌, nat_eq, string_eq, list_eq, ℕ, ◌+◌, ◌-◌, ◌*◌, ◌/◌, ◌%◌, ◌<◌, ◌≡◌,
  refl, true, Option, none, some, List, [], ◌∷◌, arith,
}
use feather.Texts.{hex_digit, hexadecimal_string}

digit_value : ℕ → ℕ
digit_value c = if ltb c 58 then c - 48 else c - 87

-- The bytes of pairs of digits.
pub bytes_of_digits : List ℕ → Option (List ℕ)
unfolding digit_value
bytes_of_digits [] = some []
bytes_of_digits (h ∷ []) = none
bytes_of_digits (h ∷ l ∷ digits) =
    let rest = bytes_of_digits digits in
    elim rest [ none ↦ none | some bytes ↦ some ((digit_value h * 16 + digit_value l) ∷ bytes) ]

digit_value-hex_digit : (n : ℕ) → n < 16 → digit_value (hex_digit n) ≡ n
unfolding digit_value hex_digit
digit_value-hex_digit n h = ground arith

-- Data of bytes below 256 are read back from the digits of their hexadecimal string, which has two for
-- each byte.
pub hexadecimal_string_read :
    (bytes : List ℕ)
    → all (λ b. ltb b 256) bytes ≡ true
    → (bytes_of_digits (hexadecimal_string bytes) ≡ some bytes)
      × (length (hexadecimal_string bytes) ≡ 2 * length bytes)
unfolding bytes_of_digits hexadecimal_string
hexadecimal_string_read [] h = (refl, refl)
hexadecimal_string_read (b ∷ bytes) h =
    let byte : b < 256 = ground arith in
    let (read, twice) = hexadecimal_string_read bytes (ground arith) in
    let high = digit_value-hex_digit (b / 16) (omega (arith, byte)) in
    let low = digit_value-hex_digit (b % 16) (omega arith) in
    let whole : b / 16 * 16 + b % 16 ≡ b = omega arith in
    (ground (arith, read, high, low, whole), omega (arith, twice))
