-- ===== src/Dictionaries/Merge.antt =====
-- Dictionaries put together.
use feather.Common.{
  if◌then◌else◌, Eq, ◌==◌, nat_eq, list_eq, string_eq, Bool-cases, is_some, ◌≡◌, refl, inl, inr,
  Bool, true, ◌&&◌, not, Option, none, some, List, [], ◌∷◌, arith,
}
use feather.Dictionaries.{
  object_for_key, set_object, add_entries, dictionary_from_dictionaries,
  dictionary_from_two_dictionaries,
}

-- A value, or another where there is none.
unfoldable pub or_else : {V : Type 0} → Option V → Option V → Option V
or_else (some v) w = some v
or_else none w = w

module _ {K V : Type 0} ⦃e : Eq K⦄ where
  object_for_key-set_object :
      (key k : K) (v : V) (d : List (K × V))
      → object_for_key k (set_object key v d) ≡ (if key == k then some v else object_for_key k d)
  unfolding object_for_key set_object
  object_for_key-set_object key k v [] = refl
  object_for_key-set_object key k v ((q, w) ∷ entries) = ground (
    arith,
    object_for_key-set_object key k v entries,
    e.is_equal_iff q key,
    e.is_equal_iff q k,
    e.is_equal_iff key k,
  )

  -- Whether a key stands once at most among the entries.
  unfoldable pub keys_differ : List (K × V) → Bool
  keys_differ [] = true
  keys_differ ((k, v) ∷ entries) = not (is_some (object_for_key k entries)) && keys_differ entries

  object_for_key-add_entries :
      (k : K) (md d : List (K × V))
      → keys_differ d ≡ true
      → object_for_key k (add_entries md d) ≡ or_else (object_for_key k d) (object_for_key k md)
  unfolding add_entries object_for_key or_else keys_differ
  object_for_key-add_entries k md [] h = refl
  object_for_key-add_entries k md ((q, v) ∷ d) h =
      let fresh : object_for_key q d ≡ none = ground arith in
      let later = object_for_key-add_entries k (set_object q v md) d (ground arith) in
      let one = object_for_key-set_object q k v md in
      elim (Bool-cases (q == k)) [
        | inl alike ↦
            let same : q ≡ k = (e.is_equal_iff q k).0 alike in
            let none_later : object_for_key k d ≡ none = rw (← same) fresh in
            ground (arith, later, one, alike, none_later)
        | inr other ↦ ground (arith, later, one, other)
      ]

  -- In the dictionary from two dictionaries, each with different keys, an object of the second comes
  -- before one of the first under the same key, and a missing dictionary counts as an empty one.
  pub dictionary_from_two_dictionaries_lem :
      (k : K) (d₁ d₂ : List (K × V))
      → keys_differ d₁ ≡ true
      → keys_differ d₂ ≡ true
      → (object_for_key k (dictionary_from_two_dictionaries (some d₁) (some d₂))
          ≡ or_else (object_for_key k d₂) (object_for_key k d₁))
        × (object_for_key k (dictionary_from_two_dictionaries none (some d₂)) ≡ object_for_key k d₂)
        × (object_for_key k (dictionary_from_two_dictionaries (some d₁) none) ≡ object_for_key k d₁)
  unfolding dictionary_from_two_dictionaries dictionary_from_dictionaries or_else object_for_key
  dictionary_from_two_dictionaries_lem k d₁ d₂ h₁ h₂ =
      let first = object_for_key-add_entries k [] d₁ h₁ in
      let second = object_for_key-add_entries k [] d₂ h₂ in
      let both = object_for_key-add_entries k (add_entries [] d₁) d₂ h₂ in
      (ground (arith, first, both), ground (arith, second), ground (arith, first))
