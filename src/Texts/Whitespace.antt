-- ===== src/Texts/Whitespace.antt =====
-- Trimming and normalizing whitespace.
use feather.Common.{
  length, filter, all, ltb, if◌then◌else◌, nat_eq, string_eq, list_eq, Bool-cases, ℕ, suc, ◌≡◌,
  refl, ap, ◌∙◌, inl, inr, Bool, true, false, ◌&&◌, not, List, [], ◌∷◌, ◌++◌, arith,
}
use feather.Texts.{
  trim_start, trim_end, trim, components, has_content, join, words, normalize_whitespace,
}
use mathlib.Core.List.{append-nil}

module _ (member : ℕ → Bool) where
  first : List ℕ → List ℕ
  first [] = []
  first (x ∷ xs) = if member x then [] else x ∷ first xs

  prepend : List ℕ → List (List ℕ) → List (List ℕ)
  prepend [] ws = ws
  prepend (c ∷ cs) ws = (c ∷ cs) ∷ ws

  others : List ℕ → List (List ℕ)
  unfolding prepend first
  others [] = []
  others (x ∷ xs) = let later = others xs in if member x then prepend (first xs) later else later

  filter-prepend :
      (w : List ℕ) (rest ws : List (List ℕ))
      → filter has_content rest ≡ ws
      → filter has_content (w ∷ rest) ≡ prepend w ws
  unfolding prepend has_content
  filter-prepend [] rest ws h = h
  filter-prepend (c ∷ w) rest ws h = ap (◌∷◌ (c ∷ w)) h

  -- The components with content, by the first and the others.
  components-first :
      (xs : List ℕ)
      → (rest : List (List ℕ)) × (components member xs ≡ first xs ∷ rest)
        × (filter has_content rest ≡ others xs)
  unfolding components first others prepend has_content
  components-first [] = ([], refl, refl)
  components-first (x ∷ xs) =
      let (rest, e, kept) = components-first xs in
      elim (Bool-cases (member x)) [
        | inl white ↦ (
          components member xs,
          ground (arith, white),
          ground (arith, white, e, filter-prepend (first xs) rest (others xs) kept),
        )
        | inr dark ↦ (rest, ground (arith, dark, e), ground (arith, dark, kept))
      ]

  words-first : (xs : List ℕ) → words member xs ≡ prepend (first xs) (others xs)
  unfolding words has_content prepend
  words-first xs =
      let (rest, e, kept) = components-first xs in
      rw e (filter-prepend (first xs) rest (others xs) kept)

  trim_end-first :
      (xs : List ℕ)
      → (first (trim_end member xs) ≡ first xs) × (others (trim_end member xs) ≡ others xs)
  unfolding trim_end first others prepend
  trim_end-first [] = (refl, refl)
  trim_end-first (x ∷ xs) = let (f, o) = trim_end-first xs in ground (arith, f, o)

  words-trim_start : (xs : List ℕ) → words member (trim_start member xs) ≡ words member xs
  unfolding trim_start words components has_content
  words-trim_start [] = refl
  words-trim_start (x ∷ xs) = ground (arith, words-trim_start xs)

  words-trim : (xs : List ℕ) → words member (trim member xs) ≡ words member xs
  unfolding trim
  words-trim xs =
      let (f, o) = trim_end-first (trim_start member xs) in
      let trimmed : words member (trim_end member (trim_start member xs))
          ≡ words member (trim_start member xs) =
        ground (
          arith,
          f,
          o,
          words-first (trim_start member xs),
          words-first (trim_end member (trim_start member xs)),
        ) in
      trimmed ∙ words-trim_start xs

  is_dark : List ℕ → Bool
  is_dark w = all (λ c. not (member c)) w

  -- Whether every word has content and no whitespace.
  are_words : List (List ℕ) → Bool
  unfolding is_dark has_content
  are_words ws = all (λ w. has_content w && is_dark w) ws

  first_dark : (xs : List ℕ) → is_dark (first xs) ≡ true
  unfolding is_dark first
  first_dark [] = refl
  first_dark (x ∷ xs) = ground (arith, first_dark xs)

  prepend_words :
      (w : List ℕ) (ws : List (List ℕ))
      → is_dark w ≡ true
      → are_words ws ≡ true
      → are_words (prepend w ws) ≡ true
  unfolding prepend are_words has_content
  prepend_words [] ws h k = k
  prepend_words (c ∷ w) ws h k = ground (arith, h, k)

  others_words : (xs : List ℕ) → are_words (others xs) ≡ true
  unfolding others are_words
  others_words [] = refl
  others_words (x ∷ xs) = ground (
    arith,
    others_words xs,
    prepend_words (first xs) (others xs) (first_dark xs) (others_words xs),
  )

  words-words : (xs : List ℕ) → are_words (words member xs) ≡ true
  words-words xs =
      rw (words-first xs) (prepend_words (first xs) (others xs) (first_dark xs) (others_words xs))

  first_alone : (w : List ℕ) → is_dark w ≡ true → (first w ≡ w) × (others w ≡ [])
  unfolding is_dark first others
  first_alone [] h = (refl, refl)
  first_alone (c ∷ w) h =
      let dark : member c ≡ false = ground arith in
      ground (arith, dark, first_alone w (ground (arith, dark)))

  first_append :
      (w rest : List ℕ)
      → member 32 ≡ true
      → is_dark w ≡ true
      → (first (w ++ (32 ∷ rest)) ≡ w) × (others (w ++ (32 ∷ rest)) ≡ words member rest)
  unfolding is_dark first others
  first_append [] rest space h = (ground (arith, space), ground (arith, space, words-first rest))
  first_append (c ∷ w) rest space h =
      let dark : member c ≡ false = ground arith in
      ground (arith, dark, first_append w rest space (ground (arith, dark)))

  words-join :
      (ws : List (List ℕ)) → member 32 ≡ true → are_words ws ≡ true → words member (join ws) ≡ ws
  unfolding join are_words prepend has_content first others
  words-join [] space h = words-first []
  words-join ([] ∷ ws) space h = absurd (ground arith)
  words-join ((c ∷ w) ∷ []) space h =
      let (f, o) = first_alone (c ∷ w) (ground arith) in words-first (c ∷ w) ∙ rw (f, o) refl
  words-join ((c ∷ w) ∷ next ∷ ws) space h =
      let (f, o) = first_append (c ∷ w) (join (next ∷ ws)) space (ground arith) in
      let later = words-join (next ∷ ws) space (ground arith) in
      words-first ((c ∷ w) ++ (32 ∷ join (next ∷ ws))) ∙ rw (f, o, later) refl

  normalize_words :
      (xs : List ℕ) → normalize_whitespace member false false xs ≡ join (words member xs)
  unfolding normalize_whitespace join
  normalize_words [] = refl
  normalize_words (x ∷ xs) =
      let test : ltb (suc (length xs)) 1 ≡ false = ground arith in
      rw test (append-nil (join (words member (trim member (x ∷ xs)))))
      ∙ ap join (words-trim (x ∷ xs))

  -- Where a space is whitespace, normalizing whitespace, with none allowed at the ends, keeps the words
  -- of the string, and doing it again changes nothing.
  pub normalize_whitespace_again :
      (xs : List ℕ)
      → member 32 ≡ true
      → (words member (normalize_whitespace member false false xs) ≡ words member xs)
        × (normalize_whitespace member false false (normalize_whitespace member false false xs)
            ≡ normalize_whitespace member false false xs)
  normalize_whitespace_again xs space =
      let once = normalize_words xs in
      let kept : words member (join (words member xs)) ≡ words member xs =
        words-join (words member xs) space (words-words xs) in
      (
        rw once kept,
        normalize_words (normalize_whitespace member false false xs) ∙ rw once (ap join kept),
      )
