-- ===== src/Dictionaries/Tests.antt =====
-- Two dictionaries that share a key.
use feather.Common.{nat_eq, list_eq, string_eq, ℕ, ◌≡◌, refl, none, some, List, [], ◌∷◌}
use feather.Dictionaries.{object_for_key, dictionary_from_two_dictionaries}
use feather.Dictionaries.Merge.{or_else, keys_differ, dictionary_from_two_dictionaries_lem}

abbrev low : List (ℕ × ℕ)
low = (1, 10) ∷ (2, 20) ∷ []

abbrev high : List (ℕ × ℕ)
high = (2, 21) ∷ []

dictionary_from_two_dictionaries_lem_example :
    (object_for_key 2 (dictionary_from_two_dictionaries (some low) (some high)) ≡ some 21)
    × (object_for_key 2 (dictionary_from_two_dictionaries none (some high)) ≡ some 21)
    × (object_for_key 2 (dictionary_from_two_dictionaries (some low) none) ≡ some 20)
unfolding object_for_key or_else keys_differ
dictionary_from_two_dictionaries_lem_example =
    dictionary_from_two_dictionaries_lem 2 low high refl refl
