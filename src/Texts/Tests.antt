-- ===== src/Texts/Tests.antt =====
-- Strings, tried out: a character is a space where its code is 32.
use feather.Common.{
  all, ◌++◌, ◌+◌, length, ◌==◌, nat_eq, string_eq, list_eq, ℕ, ◌+◌, ◌↔◌, arith, ◌≤◌, ◌<◌, ◌≡◌, refl,
  ◌⊎◌, Bool, true, false, some, List, [], ◌∷◌, ◌++◌,
}
use feather.Texts.{
  words, normalize_whitespace, trimming_to_length, starts_with_member, ends_with_member,
  hexadecimal_string,
}
use feather.Texts.Ranges.{Range, range_contains_range, range_contains_range_ends}
use feather.Texts.Hexadecimal.{bytes_of_digits, hexadecimal_string_read}
use feather.Texts.Trimming.{trimming_to_length_lem}
use feather.Texts.Whitespace.{normalize_whitespace_again}

is_space : ℕ → Bool
is_space c = c == 32

abbrev spaced : List ℕ
spaced = 32 ∷ 97 ∷ 32 ∷ 32 ∷ 98 ∷ 32 ∷ []

trimming_to_length_lem_example :
    ((truncate : Bool) → (trimming_to_length is_space spaced 2 truncate ≡ spaced) × (6 ≤ 2))
    ⊎ ((2 < 6)
        × ((after : List ℕ) × (trimming_to_length is_space spaced 2 false ++ after ≡ spaced))
        × (length (trimming_to_length is_space spaced 2 false) ≡ 2)
        × ((front : List ℕ) × (middle : List ℕ) × (back : List ℕ) × (trimming_to_length is_space
                spaced 2 false
              ≡ front ++ (middle ++ back))
            × (all is_space front ≡ true)
            × (all is_space back ≡ true)
            × (starts_with_member is_space middle ≡ false)
            × (ends_with_member is_space middle ≡ false)
            × (trimming_to_length is_space spaced 2 true ≡ middle ++ (46 ∷ 46 ∷ 46 ∷ []))
            × (length (trimming_to_length is_space spaced 2 true) + (length front + length back)
                ≡ 5)))
trimming_to_length_lem_example = trimming_to_length_lem is_space spaced 2

normalize_whitespace_again_example :
    (words is_space (normalize_whitespace is_space false false spaced) ≡ words is_space spaced)
    × (normalize_whitespace is_space false false (normalize_whitespace is_space false false spaced)
        ≡ normalize_whitespace is_space false false spaced)
unfolding is_space
normalize_whitespace_again_example = normalize_whitespace_again is_space spaced refl

hexadecimal_string_read_example :
    (bytes_of_digits (hexadecimal_string (171 ∷ 5 ∷ [])) ≡ some (171 ∷ 5 ∷ []))
    × (length (hexadecimal_string (171 ∷ 5 ∷ [])) ≡ 4)
hexadecimal_string_read_example = hexadecimal_string_read (171 ∷ 5 ∷ []) refl

-- A range that another one holds and that ends before it, and a range behind that one.
abbrev whole : Range
whole = record { location = 0; len = 10 }

range_contains_range_ends_example :
    ((range_contains_range whole (record { location = 2; len = 3 }) ≡ true) ↔ (2 + 3 ≡ 0 + 10))
    × (range_contains_range whole (record { location = 20; len = 1 }) ≡ true)
range_contains_range_ends_example =
    range_contains_range_ends whole (record { location = 2; len = 3 })
      (record { location = 20; len = 1 }) (omega arith) (omega arith) (omega arith) (omega arith)
      (omega arith)
