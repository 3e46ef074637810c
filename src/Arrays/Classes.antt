-- ===== src/Arrays/Classes.antt =====
-- The questions about the classes of the objects of an array: `allObjectsAreSubclassesOfClasses:`,
-- `allObjectsAreSubclassesOf:` and `matchingValueForKey:value:`. `is_kind` is `isKindOfClass:`; a class
-- is a number.
pub mod Agree
use feather.Common.{
  length, ltb, if◌then◌else◌, ◌==◌, nat_eq, list_eq, string_eq, ℕ, Bool, true, false, not, List, [],
  ◌∷◌,
}
use feather.Foundation.{Outcome, returned, ◌>>=◌, ◌>>◌, assert}

module _ {ℓ} {A : Type ℓ} (is_kind : A → ℕ → Bool) where
  -- The inner loop: it runs through all classes.
  pub is_one_of : A → Bool → List ℕ → Bool
  is_one_of a found [] = found
  is_one_of a found (c ∷ cs) = is_one_of a (if is_kind a c then true else found) cs

  each_is_one_of : List A → List ℕ → Bool
  unfolding is_one_of
  each_is_one_of [] classes = true
  each_is_one_of (a ∷ later) classes =
      let rest = each_is_one_of later classes in
      if not (is_one_of a false classes) then false else rest

  pub all_objects_are_subclasses_of_classes : List A → List ℕ → Outcome Bool
  unfolding each_is_one_of
  all_objects_are_subclasses_of_classes objects classes = do
    assert (ltb 0 (length classes))
    returned (if length objects == 0 then false else each_is_one_of objects classes)

  each_is_kind : List A → ℕ → Bool
  each_is_kind [] c = true
  each_is_kind (a ∷ later) c =
      let rest = each_is_kind later c in if not (is_kind a c) then false else rest

  pub all_objects_are_subclasses_of : List A → ℕ → Bool
  unfolding each_is_kind
  all_objects_are_subclasses_of objects c =
      if length objects == 0 then false else each_is_kind objects c
