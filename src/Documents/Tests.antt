-- ===== src/Documents/Tests.antt =====
-- A document of the class named "A".
use feather.Common.{
  ◌==◌, nat_eq, list_eq, string_eq, ℕ, ◌≡◌, ◌↔◌, Bool, true, none, some, List, [], ◌∷◌, ◌++◌,
}
use feather.Documents.{is_managed_object_dictionary}
use feather.Documents.Identifiers.{has_no_colon, is_managed_object_dictionary_iff}

is_a : List ℕ → Bool
is_a name = name == (65 ∷ [])

is_managed_object_dictionary_iff_example :
    (is_managed_object_dictionary is_a (some (65 ∷ [])) (some (65 ∷ 58 ∷ 49 ∷ [])) ≡ none) ↔ (
      (name : List ℕ) × (rest : List ℕ) × (some (65 ∷ []) ≡ some name)
      × (some (65 ∷ 58 ∷ 49 ∷ []) ≡ some (name ++ (58 ∷ rest)))
      × (is_a name ≡ true)
      × (has_no_colon name ≡ true)
      × (has_no_colon rest ≡ true))
is_managed_object_dictionary_iff_example =
    is_managed_object_dictionary_iff is_a (some (65 ∷ [])) (some (65 ∷ 58 ∷ 49 ∷ []))
