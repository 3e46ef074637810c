-- ===== src/Arrays/Tests.antt =====
-- Arrays, tried out.
use feather.Arrays.{
  first_object_matching, subarray_up_to, subarray_from, shuffle, push_objects, added, toggle_value,
}
use feather.Arrays.Classes.{all_objects_are_subclasses_of_classes, all_objects_are_subclasses_of}
use feather.Arrays.Classes.Agree.{all_objects_are_subclasses-agree}
use feather.Arrays.Search.{first_object_matching-first, subarray_up_to-from}
use feather.Arrays.Shuffle.{shuffle-keeps}
use feather.Arrays.Stack.{pop_objects, pop-push_objects, toggle_value-flips}
use feather.Common.{
  length, get_elem?, take, filter, contains, count, ◌==◌, nat_eq, list_eq, string_eq, ℕ, ◌≡◌, ◌≢◌,
  ◌↔◌, ◌⊎◌, Bool, true, false, not, none, some, List, [], ◌∷◌, ◌++◌, arith,
}
use feather.Foundation.{returned}

abbrev letters : List ℕ
letters = 1 ∷ 2 ∷ 3 ∷ []

is_two : ℕ → Bool
is_two n = n == 2

first_object_matching-first_example :
    ((a : ℕ) × (i : ℕ) × (first_object_matching is_two letters ≡ some (a, i))
      × (get_elem? letters i ≡ some a)
      × (is_two a ≡ true)
      × (filter is_two (take i letters) ≡ []))
    ⊎ ((first_object_matching is_two letters ≡ none) × (filter is_two letters ≡ []))
first_object_matching-first_example = first_object_matching-first is_two letters

subarray_up_to-from_example :
    (front back : List ℕ) × (subarray_up_to letters 0 ≡ returned front)
    × (subarray_from letters 1 ≡ returned back)
    × (front ++ back ≡ letters)
    × (length front ≡ 1)
subarray_up_to-from_example = subarray_up_to-from letters 0 (omega arith)

shuffle-keeps_example :
    (ys : List ℕ) × (shuffle (λ i. 5) letters ≡ returned ys)
    × (length ys ≡ length letters)
    × ((c : ℕ) → count c ys ≡ count c letters)
shuffle-keeps_example = shuffle-keeps (λ i. 5) letters

pop-push_objects_example :
    pop_objects 2 (push_objects letters (some (8 ∷ 9 ∷ []))) ≡ (8 ∷ 9 ∷ [], letters)
pop-push_objects_example = pop-push_objects (8 ∷ 9 ∷ []) letters

toggle_value-flips_example :
    (contains (toggle_value letters 2).1 2 ≡ not (contains letters 2))
    × (((toggle_value letters 2).0 ≡ added) ↔ (contains letters 2 ≡ false))
    × ((b : ℕ) → b ≢ 2 → count b (toggle_value letters 2).1 ≡ count b letters)
toggle_value-flips_example = toggle_value-flips letters 2

all_objects_are_subclasses-agree_example :
    all_objects_are_subclasses_of_classes (λ a c. a == c) letters (2 ∷ [])
    ≡ returned (all_objects_are_subclasses_of (λ a c. a == c) letters 2)
all_objects_are_subclasses-agree_example =
    all_objects_are_subclasses-agree (λ a c. a == c) letters 2
