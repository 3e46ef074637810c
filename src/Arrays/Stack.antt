-- ===== src/Arrays/Stack.antt =====
-- Pushing, popping and toggling.
use feather.Arrays.{pop_object, push_objects, added, toggle_value}
use feather.Common.{
  length, contains, count, count-append, contains-append, ltb, Eq, nat_eq, string_eq, ==_refl,
  list_eq, Bool-cases, ℕ, zero, suc, ◌<◌, ◌≡◌, refl, ◌≢◌, ◌↔◌, inl, inr, true, false, not, none,
  some, List, [], ◌∷◌, ◌++◌, arith,
}
use feather.Foundation.{remove_object, count-remove_object}

module _ {ℓ} {A : Type ℓ} where
  -- Objects popped one after the other.
  pub pop_objects : ℕ → List A → List A × List A
  pop_objects zero xs = ([], xs)
  pop_objects (suc n) xs =
      let (popped, left) = pop_object xs in
      let (later, rest) = pop_objects n left in
      elim popped [ none ↦ ([], left) | some x ↦ (x ∷ later, rest) ]

  pop_objects-append : (ys xs : List A) → pop_objects (length ys) (ys ++ xs) ≡ (ys, xs)
  unfolding pop_objects pop_object
  pop_objects-append [] xs = refl
  pop_objects-append (y ∷ ys) xs = rw (pop_objects-append ys xs)

  -- The objects of an array that is pushed are popped in their order, and leave what was there before.
  pub pop-push_objects :
      (ys xs : List A) → pop_objects (length ys) (push_objects xs (some ys)) ≡ (ys, xs)
  unfolding push_objects
  pop-push_objects [] xs = pop_objects-append [] xs
  pop-push_objects (y ∷ ys) xs =
      let some_there : ltb 0 (length (y ∷ ys)) ≡ true = ground arith in
      rw some_there (pop_objects-append (y ∷ ys) xs)

module _ {ℓ} {A : Type ℓ} ⦃e : Eq A⦄ where
  contains-count : (xs : List A) (a : A) → (contains xs a ≡ true) ↔ (0 < count a xs)
  contains-count [] a = ground arith
  contains-count (x ∷ xs) a = ground (arith, contains-count xs a)

  -- A toggle puts in a value that is not there and takes out every occurrence of one that is, says
  -- which, and leaves the number of occurrences of every other value alone.
  pub toggle_value-flips :
      (xs : List A) (a : A)
      → (contains (toggle_value xs a).1 a ≡ not (contains xs a))
        × (((toggle_value xs a).0 ≡ added) ↔ (contains xs a ≡ false))
        × ((b : A) → b ≢ a → count b (toggle_value xs a).1 ≡ count b xs)
  unfolding toggle_value
  toggle_value-flips xs a = elim (Bool-cases (contains xs a)) [
    | inl there ↦ (
      ground (
        arith,
        there,
        contains-count (remove_object xs a) a,
        count-remove_object a a xs,
        ==_refl a,
      ),
      ground (arith, there),
      λ b other. ground (arith, there, count-remove_object a b xs, e.is_equal_iff a b),
    )
    | inr absent ↦ (
      ground (arith, absent, contains-append xs (a ∷ []) a, ==_refl a),
      ground (arith, absent),
      λ b other. ground (arith, absent, count-append b xs (a ∷ []), e.is_equal_iff a b),
    )
  ]
