-- ===== src/Foundation/Arrays.antt =====
-- NSArray and NSMutableArray: `indexOfObject:` (NSNotFound is `none`), `removeObject:` and
-- `insertObject:atIndex:`, with what they do to positions and to the number of occurrences.
use feather.Common.{
  length, get_elem?, count, if◌then◌else◌, Eq, ◌==◌, nat_eq, string_eq, list_eq, Bool-cases, ℕ,
  zero, suc, ◌+◌, ◌≤◌, ◌<◌, ◌≡◌, refl, ap, ◌↔◌, inl, inr, Option, none, some, List, [], ◌∷◌, arith,
}
use feather.Foundation.Outcomes.{Exception, Outcome, returned, raised, ◌>>=◌}

module _ {ℓ} {A : Type ℓ} ⦃e : Eq A⦄ where
  unfoldable pub index_from : ℕ → List A → A → Option ℕ
  index_from i [] a = none
  index_from i (x ∷ xs) a = if x == a then some i else index_from (suc i) xs a

  unfoldable pub index_of : List A → A → Option ℕ
  unfolding index_from
  index_of xs a = index_from 0 xs a

  -- Every object that is equal to `a` is removed.
  unfoldable pub remove_object : List A → A → List A
  remove_object [] a = []
  remove_object (x ∷ xs) a = if x == a then remove_object xs a else x ∷ remove_object xs a

module _ {ℓ} {A : Type ℓ} where
  unfoldable pub insert_object : List A → A → ℕ → Outcome (List A)
  insert_object xs a zero = returned (a ∷ xs)
  insert_object [] a (suc i) = raised Exception.range
  insert_object (x ∷ xs) a (suc i) = do ys ← insert_object xs a i; returned (x ∷ ys)

module _ {ℓ} {A : Type ℓ} ⦃e : Eq A⦄ where
  -- A removal takes away every occurrence of the object, and no other.
  pub count-remove_object :
      (a b : A) (xs : List A) → count b (remove_object xs a) ≡ (if a == b then 0 else count b xs)
  unfolding remove_object
  count-remove_object a b [] = ground arith
  count-remove_object a b (x ∷ xs) = ground (
    arith,
    count-remove_object a b xs,
    e.is_equal_iff x a,
    e.is_equal_iff x b,
    e.is_equal_iff a b,
  )

  pub remove_object_absent : (a : A) (xs : List A) → count a xs ≡ 0 → remove_object xs a ≡ xs
  unfolding remove_object
  remove_object_absent a [] h = refl
  remove_object_absent a (x ∷ xs) h = ground (arith, remove_object_absent a xs)

  -- The array is a count short for each occurrence that was removed.
  pub length-remove_object :
      (a : A) (xs : List A) → length (remove_object xs a) + count a xs ≡ length xs
  unfolding remove_object
  length-remove_object a [] = omega arith
  length-remove_object a (x ∷ xs) = ground (arith, length-remove_object a xs)

  pub index_from-none_iff :
      (i : ℕ) (xs : List A) (a : A) → (index_from i xs a ≡ none) ↔ (count a xs ≡ 0)
  unfolding index_from
  index_from-none_iff i [] a = ground arith
  index_from-none_iff i (x ∷ xs) a = ground (arith, index_from-none_iff (suc i) xs a)

  -- An object that is found stands at the position given.
  pub index_from-get_elem? :
      (i : ℕ) (xs : List A) (a : A) (j : ℕ)
      → index_from i xs a ≡ some j
      → (k : ℕ) × (j ≡ i + k) × (get_elem? xs k ≡ some a)
  unfolding index_from
  index_from-get_elem? i [] a j h = cc
  index_from-get_elem? i (x ∷ xs) a j h = elim (Bool-cases (x == a)) [
    | inl same ↦ (0, ground arith, ap some ((e.is_equal_iff x a).0 same))
    | inr other ↦
        let later : index_from (suc i) xs a ≡ some j = ground arith in
        let (k, at, found) = index_from-get_elem? (suc i) xs a j later in
        (suc k, omega (arith, at), found)
  ]

  pub count-pos_of_get_elem? :
      (xs : List A) (k : ℕ) (a : A) → get_elem? xs k ≡ some a → 0 < count a xs
  count-pos_of_get_elem? [] k a h = cc
  count-pos_of_get_elem? (x ∷ xs) zero a h = ground (arith, e.is_equal_iff x a)
  count-pos_of_get_elem? (x ∷ xs) (suc k) a h = omega (arith, count-pos_of_get_elem? xs k a h)

  -- Where an object stands once, its position is the one that is found.
  pub index_from-of_get_elem? :
      (i : ℕ) (xs : List A) (k : ℕ) (a : A)
      → count a xs ≤ 1
      → get_elem? xs k ≡ some a
      → index_from i xs a ≡ some (i + k)
  unfolding index_from
  index_from-of_get_elem? i [] k a once h = cc
  index_from-of_get_elem? i (x ∷ xs) zero a once h = ground (arith, e.is_equal_iff x a)
  index_from-of_get_elem? i (x ∷ xs) (suc k) a once h =
      ground (arith, count-pos_of_get_elem? xs k a h, index_from-of_get_elem? (suc i) xs k a)

module _ {ℓ} {A : Type ℓ} where
  pub get_elem?-lt : (xs : List A) (k : ℕ) {a : A} → get_elem? xs k ≡ some a → k < length xs
  get_elem?-lt [] k h = cc
  get_elem?-lt (x ∷ xs) zero h = omega arith
  get_elem?-lt (x ∷ xs) (suc k) h = omega (arith, get_elem?-lt xs k h)

module _ {ℓ} {A : Type ℓ} ⦃e : Eq A⦄ where
  -- An insertion within the array succeeds; it adds one object, at the position named.
  pub insert_object_within :
      (xs : List A) (a : A) (i : ℕ)
      → i ≤ length xs
      → (ys : List A) × (insert_object xs a i ≡ returned ys)
        × (get_elem? ys i ≡ some a)
        × (length ys ≡ suc (length xs))
        × ((b : A) → count b ys ≡ count b (a ∷ xs))
  unfolding insert_object
  insert_object_within xs a zero h = (a ∷ xs, refl, refl, refl, λ b. refl)
  insert_object_within [] a (suc i) h = absurd (omega arith)
  insert_object_within (x ∷ xs) a (suc i) h =
      let (ys, made, there, longer, same) = insert_object_within xs a i (omega arith) in
      (x ∷ ys, rw made, there, omega (arith, longer), λ b. omega (arith, same b))

  -- Past the end it raises.
  pub insert_object_past :
      (xs : List A) (a : A) (i : ℕ) → length xs < i → insert_object xs a i ≡ raised Exception.range
  unfolding insert_object
  insert_object_past xs a zero h = elim h [ ]
  insert_object_past [] a (suc i) h = refl
  insert_object_past (x ∷ xs) a (suc i) h = rw (insert_object_past xs a i (omega arith))
