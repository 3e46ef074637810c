-- ===== src/Arrays/Search.antt =====
-- Searching and cutting arrays.
use feather.Arrays.{first_from, first_object_matching, subarray, subarray_up_to, subarray_from}
use feather.Common.{
  length, get_elem?, take, drop, take-append-drop, length-take, length-drop, filter, nat_eq,
  string_eq, list_eq, Bool-cases, Option-cases, ℕ, suc, ◌+◌, ◌<◌, ◌≡◌, refl, ◌⊎◌, inl, inr, Bool,
  true, none, some, List, [], ◌∷◌, ◌++◌, arith,
}
use feather.Foundation.{returned}

module _ {ℓ} {A : Type ℓ} where
  first_from-split :
      (matches : A → Bool) (i : ℕ) (xs : List A) (a : A) (j : ℕ)
      → first_from matches i xs ≡ some (a, j)
      → (n : ℕ) × (j ≡ i + n)
        × (get_elem? xs n ≡ some a)
        × (matches a ≡ true)
        × (filter matches (take n xs) ≡ [])
  unfolding first_from
  first_from-split matches i [] a j h = cc
  first_from-split matches i (x ∷ xs) a j h = elim (Bool-cases (matches x)) [
    | inl hit ↦ (0, ground arith, ground arith, ground arith, refl)
    | inr miss ↦
        let later : first_from matches (suc i) xs ≡ some (a, j) = ground arith in
        let (n, at, found, hit, before) = first_from-split matches (suc i) xs a j later in
        (suc n, omega (arith, at), found, hit, rw (miss, before))
  ]

  first_from-none :
      (matches : A → Bool) (i : ℕ) (xs : List A)
      → first_from matches i xs ≡ none
      → filter matches xs ≡ []
  unfolding first_from
  first_from-none matches i [] h = refl
  first_from-none matches i (x ∷ xs) h = ground (arith, first_from-none matches (suc i) xs)

  -- Either the first object that matches is found with its index, and none before it matches; or
  -- nothing is found, and no object matches.
  pub first_object_matching-first :
      (matches : A → Bool) (xs : List A)
      → ((a : A) × (i : ℕ) × (first_object_matching matches xs ≡ some (a, i))
          × (get_elem? xs i ≡ some a)
          × (matches a ≡ true)
          × (filter matches (take i xs) ≡ []))
        ⊎ ((first_object_matching matches xs ≡ none) × (filter matches xs ≡ []))
  unfolding first_object_matching
  first_object_matching-first matches xs = elim (Option-cases (first_from matches 0 xs)) [
    | inl nothing ↦ inr (nothing, first_from-none matches 0 xs nothing)
    | inr ((a, i), found) ↦
        let (n, at, there, hit, before) = first_from-split matches 0 xs a i found in
        let alike : i ≡ n = omega (arith, at) in
        inl (a, i, found, rw alike there, hit, rw alike before)
  ]

  take_all : (xs : List A) → take (length xs) xs ≡ xs
  take_all [] = refl
  take_all (x ∷ xs) = rw (take_all xs)

  -- An index within the array but not its last cuts the array in two: the part up to the index, and
  -- the part from the next index on. Neither cut raises an exception.
  pub subarray_up_to-from :
      (xs : List A) (i : ℕ)
      → suc i < length xs
      → (front back : List A) × (subarray_up_to xs i ≡ returned front)
        × (subarray_from xs (suc i) ≡ returned back)
        × (front ++ back ≡ xs)
        × (length front ≡ suc i)
  unfolding subarray_up_to subarray_from subarray
  subarray_up_to-from xs i h = (
    take (suc i) xs,
    drop (suc i) xs,
    ground arith,
    ground (arith, length-drop (suc i) xs, take_all (drop (suc i) xs)),
    take-append-drop (suc i) xs,
    omega (arith, length-take (suc i) xs),
  )
