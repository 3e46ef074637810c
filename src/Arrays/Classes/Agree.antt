-- ===== src/Arrays/Classes/Agree.antt =====
-- The question about several classes and the question about one.
use feather.Arrays.Classes.{
  is_one_of, each_is_one_of, all_objects_are_subclasses_of_classes, each_is_kind,
  all_objects_are_subclasses_of,
}
use feather.Common.{nat_eq, list_eq, string_eq, ℕ, ◌≡◌, refl, Bool, List, [], ◌∷◌, arith}
use feather.Foundation.{returned}

module _ {ℓ} {A : Type ℓ} (is_kind : A → ℕ → Bool) where
  each-agree :
      (objects : List A) (c : ℕ)
      → each_is_one_of is_kind objects (c ∷ []) ≡ each_is_kind is_kind objects c
  unfolding each_is_one_of is_one_of each_is_kind
  each-agree [] c = refl
  each-agree (a ∷ later) c = ground (arith, each-agree later c)

  -- About an array of one class the question about several classes raises nothing and has the answer
  -- of the question about that class.
  pub all_objects_are_subclasses-agree :
      (objects : List A) (c : ℕ)
      → all_objects_are_subclasses_of_classes is_kind objects (c ∷ [])
        ≡ returned (all_objects_are_subclasses_of is_kind objects c)
  unfolding all_objects_are_subclasses_of_classes all_objects_are_subclasses_of
  all_objects_are_subclasses-agree objects c = ground (arith, each-agree objects c)
