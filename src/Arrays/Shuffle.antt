-- ===== src/Arrays/Shuffle.antt =====
-- Exchanging objects, and the shuffle.
use feather.Arrays.{replace, object_at, exchange, shuffle_from, shuffle}
use feather.Common.{
  length, get_elem?, count, if◌then◌else◌, Eq, ◌==◌, nat_eq, string_eq, list_eq, ℕ, zero, suc, ◌+◌,
  ◌%◌, ◌<◌, ◌≡◌, refl, ◌∙◌, some, List, [], ◌∷◌, arith,
}
use feather.Foundation.{returned}
use native.Mathlib.Nat.{mod-lt}

module _ {ℓ} {A : Type ℓ} ⦃e : Eq A⦄ where
  one : A → A → ℕ
  one a b = if a == b then 1 else 0

  count-replace :
      (c : A) (xs : List A) (i : ℕ) (x a : A)
      → get_elem? xs i ≡ some x
      → count c (replace xs i a) + one x c ≡ count c xs + one a c
  unfolding replace one
  count-replace c [] i x a h = cc
  count-replace c (y ∷ xs) zero x a h = ground arith
  count-replace c (y ∷ xs) (suc i) x a h = omega (arith, count-replace c xs i x a h)

  get_elem?-replace :
      (xs : List A) (i j : ℕ) (x y : A)
      → get_elem? xs i ≡ some x
      → get_elem? xs j ≡ some y
      → get_elem? (replace xs i y) j ≡ some y
  unfolding replace
  get_elem?-replace [] i j x y h k = cc
  get_elem?-replace (z ∷ xs) zero zero x y h k = refl
  get_elem?-replace (z ∷ xs) zero (suc j) x y h k = k
  get_elem?-replace (z ∷ xs) (suc i) zero x y h k = k
  get_elem?-replace (z ∷ xs) (suc i) (suc j) x y h k = get_elem?-replace xs i j x y h k

  length-replace : (xs : List A) (i : ℕ) (a : A) → length (replace xs i a) ≡ length xs
  unfolding replace
  length-replace [] i a = refl
  length-replace (x ∷ xs) zero a = refl
  length-replace (x ∷ xs) (suc i) a = omega (arith, length-replace xs i a)

  get_elem?-within : (xs : List A) (i : ℕ) → i < length xs → (x : A) × (get_elem? xs i ≡ some x)
  get_elem?-within [] i h = absurd (omega arith)
  get_elem?-within (x ∷ xs) zero h = (x, refl)
  get_elem?-within (x ∷ xs) (suc i) h = get_elem?-within xs i (omega arith)

  -- An exchange within the array keeps what is in it.
  pub exchange_within :
      (xs : List A) (i j : ℕ)
      → i < length xs
      → j < length xs
      → (ys : List A) × (exchange xs i j ≡ returned ys)
        × (length ys ≡ length xs)
        × ((c : A) → count c ys ≡ count c xs)
  unfolding exchange object_at
  exchange_within xs i j h k =
      let (x, at) = get_elem?-within xs i h in
      let (y, at') = get_elem?-within xs j k in
      (
        replace (replace xs i y) j x,
        ground (arith, at, at'),
        omega (arith, length-replace xs i y, length-replace (replace xs i y) j x),
        λ c. omega (
          arith,
          count-replace c xs i x y at,
          count-replace c (replace xs i y) j y x (get_elem?-replace xs i j x y at at'),
        ),
      )

  shuffle_from-keeps :
      (random : ℕ → ℕ) (i left : ℕ) (xs : List A)
      → i + left ≡ length xs
      → (ys : List A) × (shuffle_from random i left xs ≡ returned ys)
        × (length ys ≡ length xs)
        × ((c : A) → count c ys ≡ count c xs)
  unfolding shuffle_from
  shuffle_from-keeps random i zero xs h = (xs, refl, refl, λ c. refl)
  shuffle_from-keeps random i (suc left) xs h =
      let below : random i % (suc left) < suc left = mod-lt (random i) (omega arith) in
      let (ys, made, same, kept) =
        exchange_within xs i (random i % (suc left) + i) (omega arith) (omega (arith, below)) in
      let (zs, made', same', kept') =
        shuffle_from-keeps random (suc i) left ys (omega (arith, same)) in
      (zs, rw (made, made'), same' ∙ same, λ c. kept' c ∙ kept c)

  -- Whatever numbers are drawn, the shuffle raises no exception, and its result has as many objects
  -- as the array and each of them as often.
  pub shuffle-keeps :
      (random : ℕ → ℕ) (xs : List A)
      → (ys : List A) × (shuffle random xs ≡ returned ys)
        × (length ys ≡ length xs)
        × ((c : A) → count c ys ≡ count c xs)
  unfolding shuffle
  shuffle-keeps random xs = shuffle_from-keeps random 0 (length xs) xs (omega arith)
