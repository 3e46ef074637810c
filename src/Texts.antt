-- ===== src/Texts.antt =====
-- The categories on NSString and NSData: Feather/Sources/Categories/NSString+MPExtensions.m and
-- NSData+MPExtensions.m. A string is the list of its characters' codes, a character set a test on
-- codes, and data a list of bytes.
pub mod Substrings
pub mod Trimming
pub mod Whitespace
pub mod Hexadecimal
pub mod Ranges
mod Tests
use feather.Common.{
  length, get_elem?, take, drop, filter, ltb, leb, if◌then◌else◌, ◌==◌, nat_eq, list_eq, string_eq,
  is_some, ℕ, zero, suc, ◌+◌, ◌/◌, ◌%◌, Bool, true, false, ◌&&◌, Option, none, some, List, [], ◌∷◌,
  ◌++◌,
}

-- Whether a string begins with another; what is left of it.
unfoldable pub strip_prefix : List ℕ → List ℕ → Option (List ℕ)
strip_prefix [] xs = some xs
strip_prefix (s ∷ ss) [] = none
strip_prefix (s ∷ ss) (x ∷ xs) = if s == x then strip_prefix ss xs else none

-- `rangeOfString:`, which finds no empty string: its location.
find_from : List ℕ → ℕ → List ℕ → Option ℕ
unfolding strip_prefix
find_from s i [] = none
find_from s i (x ∷ xs) =
    if is_some (strip_prefix s (x ∷ xs)) then some i else find_from s (suc i) xs

pub range_of_string : List ℕ → List ℕ → Option ℕ
unfolding find_from
range_of_string [] xs = none
range_of_string (s ∷ ss) xs = find_from (s ∷ ss) 0 xs

-- `substringAfter:`, `substringBefore:`, `substringUpToEndOfFirstOccurrenceOfString:` and
-- `containsSubstring:`.
pub substring_after : List ℕ → List ℕ → Option (List ℕ)
unfolding range_of_string
substring_after xs s = elim (range_of_string s xs) [
  | none ↦ none
  | some i ↦ some (drop (i + length s) xs)
]

pub substring_before : List ℕ → List ℕ → Option (List ℕ)
unfolding range_of_string
substring_before xs s = elim (range_of_string s xs) [ none ↦ none | some i ↦ some (take i xs) ]

pub substring_up_to_end : List ℕ → List ℕ → Option (List ℕ)
unfolding range_of_string
substring_up_to_end xs s = elim (range_of_string s xs) [
  | none ↦ none
  | some i ↦ some (take (i + length s) xs)
]

pub contains_substring : List ℕ → List ℕ → Bool
unfolding range_of_string
contains_substring xs s = is_some (range_of_string s xs)

-- `stringByTrimmingCharactersInSet:`
pub trim_start : (ℕ → Bool) → List ℕ → List ℕ
trim_start member [] = []
trim_start member (x ∷ xs) = if member x then trim_start member xs else x ∷ xs

pub trim_end : (ℕ → Bool) → List ℕ → List ℕ
trim_end member [] = []
trim_end member (x ∷ xs) =
    let rest = trim_end member xs in
    elim rest [ [] ↦ if member x then [] else x ∷ [] | y ∷ ys ↦ x ∷ y ∷ ys ]

pub trim : (ℕ → Bool) → List ℕ → List ℕ
unfolding trim_start trim_end
trim member xs = trim_end member (trim_start member xs)

-- `componentsSeparatedByCharactersInSet:`
unfoldable pub components : (ℕ → Bool) → List ℕ → List (List ℕ)
components member [] = [] ∷ []
components member (x ∷ xs) =
    let rest = components member xs in
    if member x
    then [] ∷ rest
    else elim rest [ [] ↦ (x ∷ []) ∷ [] | word ∷ words ↦ (x ∷ word) ∷ words ]

has_content : List ℕ → Bool
has_content [] = false
has_content (x ∷ xs) = true

-- `componentsJoinedByString:@" "`
pub join : List (List ℕ) → List ℕ
join [] = []
join (word ∷ []) = word
join (word ∷ next ∷ words) = word ++ (32 ∷ join (next ∷ words))

pub words : (ℕ → Bool) → List ℕ → List (List ℕ)
unfolding components has_content
words member xs = filter has_content (components member xs)

pub starts_with_member : (ℕ → Bool) → List ℕ → Bool
starts_with_member member [] = false
starts_with_member member (x ∷ xs) = member x

pub ends_with_member : (ℕ → Bool) → List ℕ → Bool
ends_with_member member [] = false
ends_with_member member (x ∷ []) = member x
ends_with_member member (x ∷ y ∷ xs) = ends_with_member member (y ∷ xs)

-- `stringByNormalizingWhitespaceAllowLeading:trailingWhitespace:`
pub normalize_whitespace : (ℕ → Bool) → Bool → Bool → List ℕ → List ℕ
unfolding trim words join starts_with_member ends_with_member
normalize_whitespace member leading trailing xs =
    let normalized = join (words member (trim member xs)) in
    let before = if leading && starts_with_member member xs then 32 ∷ [] else [] in
    let after = if trailing && ends_with_member member xs then 32 ∷ [] else [] in
    if ltb (length xs) 1 then xs else before ++ (normalized ++ after)

-- `stringByTrimmingLeadingWhitespace`: the index at which the loop ends.
leading_members : (ℕ → Bool) → List ℕ → ℕ
leading_members member [] = 0
leading_members member (x ∷ xs) = if member x then suc (leading_members member xs) else 0

pub trimming_leading : (ℕ → Bool) → List ℕ → List ℕ
unfolding leading_members
trimming_leading member xs = drop (leading_members member xs) xs

-- `stringByTrimmingTrailingCharactersInSet:`: the length that the loop counts down to.
trailing_length : (ℕ → Bool) → List ℕ → ℕ → ℕ
trailing_length member xs zero = 0
trailing_length member xs (suc n) =
    let shorter = trailing_length member xs n in
    elim (get_elem? xs n) [ none ↦ suc n | some x ↦ if member x then shorter else suc n ]

pub trimming_trailing : (ℕ → Bool) → List ℕ → List ℕ
unfolding trailing_length
trimming_trailing member xs = take (trailing_length member xs (length xs)) xs

-- `stringByTrimmingToLength:truncate:`
pub trimming_to_length : (ℕ → Bool) → List ℕ → ℕ → Bool → List ℕ
unfolding trim
trimming_to_length member xs len truncate =
    let cut = take len xs in
    if leb (length xs) len
    then xs
    else if truncate
    then trim member cut ++ (46 ∷ 46 ∷ 46 ∷ [])
    else cut

-- `hexadecimalString`, by the digits of "%02x".
hex_digit : ℕ → ℕ
hex_digit n = if ltb n 10 then 48 + n else 87 + n

pub hexadecimal_string : List ℕ → List ℕ
unfolding hex_digit
hexadecimal_string [] = []
hexadecimal_string (b ∷ bytes) = hex_digit (b / 16) ∷ hex_digit (b % 16) ∷ hexadecimal_string bytes
