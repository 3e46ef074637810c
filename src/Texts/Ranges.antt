-- ===== src/Texts/Ranges.antt =====
-- The macros and inline functions of Feather/Sources/Categories/NSString+MPExtensions.h. A string is a
-- list of its characters, nil is `none`, and an NSUInteger has 64 bits.
use feather.Common.{
  length, ltb, leb, if◌then◌else◌, ℕ, ◌+◌, ◌-◌, ◌%◌, ◌≤◌, ◌<◌, ◌≡◌, ◌↔◌, Bool, true, ◌&&◌, Option,
  none, some, List, [], arith,
}

-- NSNotFound, which is NSIntegerMax.
abbrev pub not_found : ℕ
not_found = 0x7fffffffffffffff

abbrev pub word_size : ℕ
word_size = 0x10000000000000000

-- NSRange.
pub record Range : Type 0 where
  pub location : ℕ
  pub len : ℕ

-- MPFullRange, MPLastIndexOfRange, MPRangeContainsRange.
unfoldable pub full_range : List ℕ → Range
full_range s = record { location = 0; len = length s }

unfoldable pub last_index_of_range : Range → ℕ
last_index_of_range r = (r.location + r.len + word_size - 1) % word_size

unfoldable pub range_contains_range : Range → Range → Bool
range_contains_range r r2 =
    leb r.location r2.location
    && leb ((r.location + r.len) % word_size) ((r2.location + r2.len) % word_size)

-- MPLastIndexOfString.
unfoldable pub last_index_of_string : Option (List ℕ) → ℕ
last_index_of_string none = not_found
last_index_of_string (some s) = if ltb 0 (length s) then length s - 1 else not_found

-- MPNilToEmptyString, MPNilOrEmptyStringToString, MPNilToString.
unfoldable pub nil_to_empty_string : Option (List ℕ) → List ℕ
nil_to_empty_string none = []
nil_to_empty_string (some s) = s

unfoldable pub nil_or_empty_string_to_string : Option (List ℕ) → Option (List ℕ) → Option (List ℕ)
nil_or_empty_string_to_string none s2 = s2
nil_or_empty_string_to_string (some s) s2 = if ltb 0 (length s) then some s else s2

unfoldable pub nil_to_string : Option (List ℕ) → Option (List ℕ) → List ℕ
unfolding nil_to_empty_string
nil_to_string none s2 = nil_to_empty_string s2
nil_to_string (some s) s2 = s

-- The macro finds a range in one that holds it and does not pass the largest index exactly when both end
-- at the same index, and it finds every range that begins behind the end of the first one, which that
-- one does not hold.
pub range_contains_range_ends :
    (r inner behind : Range)
    → r.location + r.len < word_size
    → r.location ≤ inner.location
    → inner.location + inner.len ≤ r.location + r.len
    → r.location + r.len ≤ behind.location
    → behind.location + behind.len < word_size
    → ((range_contains_range r inner ≡ true) ↔ (inner.location + inner.len ≡ r.location + r.len))
      × (range_contains_range r behind ≡ true)
unfolding range_contains_range
range_contains_range_ends r inner behind small begins ends later small' =
    (ground arith, ground arith)
