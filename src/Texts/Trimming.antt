-- ===== src/Texts/Trimming.antt =====
-- Cutting a string to a length.

use feather.Common.{
  length, take, drop, take-append-drop, length-append, length-take, leb, nat_eq, Bool-cases, ℕ, ◌+◌,
  ◌≤◌, ◌<◌, ◌≡◌, refl, ap, ◌∙◌, ◌⊎◌, inl, inr, Bool, true, false, List, [], ◌∷◌, ◌++◌, all, arith,
}
use feather.Texts.{
  trim_start, trim_end, trim, starts_with_member, ends_with_member, trimming_to_length,
}

trim_start_front :
    (member : ℕ → Bool) (xs : List ℕ)
    → (front : List ℕ) × (xs ≡ front ++ trim_start member xs)
      × (all member front ≡ true)
      × (starts_with_member member (trim_start member xs) ≡ false)
unfolding trim_start starts_with_member
trim_start_front member [] = ([], refl, refl, refl)
trim_start_front member (x ∷ xs) = elim (Bool-cases (member x)) [
  | inl space ↦
      let (front, e, spaces, free) = trim_start_front member xs in
      (
        x ∷ front,
        rw (space) (ap (◌∷◌ x) e),
        ground (arith, space, spaces),
        ground (arith, space, free),
      )
  | inr letter ↦ ([], ground (arith, letter), refl, ground (arith, letter))
]

-- What a list without members at its end becomes with an element before it.
trim_end-cons :
    (member : ℕ → Bool) (x : ℕ) (xs rest : List ℕ)
    → trim_end member xs ≡ rest
    → ends_with_member member rest ≡ false
    → (back : List ℕ) → xs ≡ rest ++ back
    → all member back ≡ true
    → (back' : List ℕ) × (x ∷ xs ≡ trim_end member (x ∷ xs) ++ back')
      × (all member back' ≡ true)
      × (ends_with_member member (trim_end member (x ∷ xs)) ≡ false)
unfolding trim_end ends_with_member
trim_end-cons member x xs [] e free back whole spaces = elim (Bool-cases (member x)) [
  | inl space ↦
      (x ∷ xs, rw (e, space) refl, ground (arith, space, whole, spaces), rw (e, space) refl)
  | inr letter ↦ (xs, rw (e, letter) refl, ground (arith, whole, spaces), rw (e, letter) letter)
]
trim_end-cons member x xs (y ∷ ys) e free back whole spaces =
    (back, rw (e) (ap (◌∷◌ x) whole), spaces, rw (e) free)

trim_end_back :
    (member : ℕ → Bool) (xs : List ℕ)
    → (back : List ℕ) × (xs ≡ trim_end member xs ++ back)
      × (all member back ≡ true)
      × (ends_with_member member (trim_end member xs) ≡ false)
unfolding trim_end ends_with_member
trim_end_back member [] = ([], refl, refl, refl)
trim_end_back member (x ∷ xs) =
    let (back, whole, spaces, free) = trim_end_back member xs in
    trim_end-cons member x xs (trim_end member xs) refl free back whole spaces

starts-trim_end :
    (member : ℕ → Bool) (xs : List ℕ)
    → starts_with_member member xs ≡ false
    → starts_with_member member (trim_end member xs) ≡ false
unfolding trim_end starts_with_member
starts-trim_end member [] h = refl
starts-trim_end member (x ∷ xs) h = ground (arith, h)

-- A string that is no longer than a length stays when it is cut to it. A longer one becomes its first
-- characters, as many as the length says; or, with an ellipsis, what is left of these without the white
-- space before and after, neither beginning nor ending with white space, and three full stops. That is
-- longer than the length unless at least three characters of white space were removed.
pub trimming_to_length_lem :
    (member : ℕ → Bool) (xs : List ℕ) (len : ℕ)
    → ((truncate : Bool) → (trimming_to_length member xs len truncate ≡ xs) × (length xs ≤ len))
      ⊎ ((len < length xs)
          × ((after : List ℕ) × (trimming_to_length member xs len false ++ after ≡ xs))
          × (length (trimming_to_length member xs len false) ≡ len)
          × ((front : List ℕ) × (middle : List ℕ) × (back : List ℕ) × (trimming_to_length member xs
                  len false
                ≡ front ++ (middle ++ back))
              × (all member front ≡ true)
              × (all member back ≡ true)
              × (starts_with_member member middle ≡ false)
              × (ends_with_member member middle ≡ false)
              × (trimming_to_length member xs len true ≡ middle ++ (46 ∷ 46 ∷ 46 ∷ []))
              × (length (trimming_to_length member xs len true) + (length front + length back)
                  ≡ len + 3)))
unfolding trimming_to_length trim
trimming_to_length_lem member xs len = elim (Bool-cases (leb (length xs) len)) [
  | inl short ↦ inl (λ truncate. (ground (arith, short), ground (arith, short)))
  | inr long ↦
      let cut = take len xs in
      let (front, begins, before, starts) = trim_start_front member cut in
      let (back, ends, after, stops) = trim_end_back member (trim_start member cut) in
      let middle = trim_end member (trim_start member cut) in
      let whole : cut ≡ front ++ (middle ++ back) = begins ∙ ap (front ++◌) ends in
      let cut_is : trimming_to_length member xs len false ≡ cut = ground (arith, long) in
      let marked : trimming_to_length member xs len true ≡ middle ++ (46 ∷ 46 ∷ 46 ∷ []) =
        ground (arith, long) in
      let cut_length : length cut ≡ len = ground (arith, long, length-take len xs) in
      inr (
        ground (arith, long),
        (drop len xs, rw (cut_is) (take-append-drop len xs)),
        ap length cut_is ∙ cut_length,
        (
          front,
          middle,
          back,
          cut_is ∙ whole,
          before,
          after,
          starts-trim_end member (trim_start member cut) starts,
          stops,
          marked,
          omega (
            arith,
            ap length marked,
            ap length whole,
            cut_length,
            length-append front (middle ++ back),
            length-append middle back,
            length-append middle (46 ∷ 46 ∷ 46 ∷ []),
          ),
        ),
      )
]
