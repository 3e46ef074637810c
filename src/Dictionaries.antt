-- ===== src/Dictionaries.antt =====
-- The category on NSDictionary: Feather/Sources/Categories/NSDictionary+MPExtensions.m. A dictionary is
-- the list of its entries, in the order in which they are enumerated.
pub mod Merge
mod Tests
use feather.Common.{
  if◌then◌else◌, Eq, ◌==◌, nat_eq, list_eq, string_eq, Bool, Option, none, some, List, [], ◌∷◌,
}

module _ {ℓ} {K V : Type ℓ} where
  -- `anyObjectMatching:`
  pub any_object_matching : (K → V → Bool) → List (K × V) → Option V
  any_object_matching matches [] = none
  any_object_matching matches ((k, v) ∷ entries) =
      if matches k v then some v else any_object_matching matches entries

  -- `dictionaryWithObjectsMatching:`
  pub dictionary_with_objects_matching : (K → V → Bool) → List (K × V) → List (K × V)
  dictionary_with_objects_matching matches [] = []
  dictionary_with_objects_matching matches ((k, v) ∷ entries) =
      let later = dictionary_with_objects_matching matches entries in
      if matches k v then (k, v) ∷ later else later

module _ {K V : Type 0} ⦃e : Eq K⦄ where
  pub object_for_key : K → List (K × V) → Option V
  object_for_key key [] = none
  object_for_key key ((k, v) ∷ entries) = if k == key then some v else object_for_key key entries

  pub set_object : K → V → List (K × V) → List (K × V)
  set_object key v [] = (key, v) ∷ []
  set_object key v ((k, w) ∷ entries) =
      let later = set_object key v entries in if k == key then (k, v) ∷ entries else (k, w) ∷ later

  -- `addEntriesFromDictionary:`
  pub add_entries : List (K × V) → List (K × V) → List (K × V)
  unfolding set_object
  add_entries md [] = md
  add_entries md ((k, v) ∷ entries) = add_entries (set_object k v md) entries

  -- `MPDictionaryFromDictionaries`: the loop over the arguments, of which nil ones are skipped.
  pub dictionary_from_dictionaries : List (Option (List (K × V))) → List (K × V) → List (K × V)
  unfolding add_entries
  dictionary_from_dictionaries [] md = md
  dictionary_from_dictionaries (none ∷ ds) md = dictionary_from_dictionaries ds md
  dictionary_from_dictionaries (some d ∷ ds) md = dictionary_from_dictionaries ds (add_entries md d)

  pub dictionary_from_two_dictionaries :
      Option (List (K × V)) → Option (List (K × V)) → List (K × V)
  unfolding dictionary_from_dictionaries
  dictionary_from_two_dictionaries d₁ d₂ = dictionary_from_dictionaries (d₁ ∷ d₂ ∷ []) []
