-- ===== src/Controller/Search.antt =====
-- The search command of the scripting support: the selectors for a property, the first of them that the
-- controller responds to, and `handleSearchCommand:`. A set of objects is a list in which none stands
-- twice; an object is the number of its pointer.
pub mod Meet
mod Tests
use Prim.Native.String.{◌++◌ as str_append}
use Prim.Native.String.{String}
use feather.Common.{
  filter, contains, if◌then◌else◌, nat_eq, list_eq, string_eq, ℕ, Bool, true, false, ◌||◌, Option,
  none, some, List, [], ◌∷◌,
}
use feather.Foundation.{Exception, Outcome, returned, raised, ◌>>=◌, ◌>>◌}

-- What the code asks of the controller's class and of the results: the names of its objects, whether
-- it responds to a selector, what the methods for many objects and for one object give, the property
-- name with a capital, the object that `anyObject` picks, and the order in which the objects of a set
-- are given, sorted where they are comparable.
pub record Searcher (V : Type 0) : Type 0 where
  pub singular : String
  pub plural : String
  pub responds : String → Bool
  pub find_many : String → V → List ℕ
  pub find_one : String → V → Option ℕ
  pub capital : String → String
  pub pick : List ℕ → Option ℕ
  pub arrange : List ℕ → List ℕ

-- The result of a search: one object or nil, or an array.
pub data Answer : Type 0 where
  single : Option ℕ → Answer
  several : List ℕ → Answer

selector : String → String → String → String
selector start middle property = str_append start (str_append middle (str_append property ":"))

module _ {V : Type 0} (searcher : Searcher V) where
  -- `singularSearchSelectorStringsForManagedObjectProperty:` and its plural.
  singular_selectors : String → List String
  unfolding selector
  singular_selectors property =
      let name = searcher.capital property in
      selector searcher.singular "For" name
      ∷ selector searcher.singular "With" name
      ∷ selector searcher.singular "By" name
      ∷ selector "object" "By" name
      ∷ selector "object" "With" name
      ∷ selector "object" "For" name
      ∷ []

  plural_selectors : String → List String
  unfolding selector
  plural_selectors property =
      let name = searcher.capital property in
      selector searcher.plural "For" name
      ∷ selector searcher.plural "With" name
      ∷ selector searcher.plural "By" name
      ∷ selector "objects" "By" name
      ∷ selector "objects" "With" name
      ∷ selector "objects" "For" name
      ∷ []

  first_responding : List String → Option String
  first_responding [] = none
  first_responding (s ∷ ss) = if searcher.responds s then some s else first_responding ss

  -- `searchSelectorForManagedObjectProperty:isPlural:`
  pub search_selector : String → Option (String × Bool)
  unfolding plural_selectors singular_selectors first_responding
  search_selector property = elim (first_responding (plural_selectors property)) [
    | some s ↦ some (s, true)
    | none ↦ elim (first_responding (singular_selectors property)) [
      | some s ↦ some (s, false)
      | none ↦ none
    ]
  ]

  -- What a selector gives as an array: `@[ nil ]` raises.
  pub results_of : String → Bool → V → Outcome (List ℕ)
  results_of s true v = returned (searcher.find_many s v)
  results_of s false v = elim (searcher.find_one s v) [
    | none ↦ raised Exception.invalid_argument
    | some o ↦ returned (o ∷ [])
  ]

  -- `setWithArray:`
  pub set_of : List ℕ → List ℕ
  set_of [] = []
  set_of (o ∷ os) = let rest = set_of os in if contains rest o then rest else o ∷ rest

  pub answer : Bool → List ℕ → Answer
  answer plural_involved results =
      if plural_involved then several (searcher.arrange results) else single (searcher.pick results)

  -- The loop over the criteria after the first, with the results so far.
  pub intersect : Bool → List ℕ → List (String × V) → Outcome Answer
  unfolding search_selector results_of set_of answer
  intersect plural_involved results [] = returned (answer plural_involved results)
  intersect plural_involved results ((key, v) ∷ criteria) = elim (search_selector key) [
    | none ↦ raised Exception.assertion
    | some (s, is_plural) ↦ (do
      found ← results_of s is_plural v
      intersect (is_plural || plural_involved) (filter (contains (set_of found)) results) criteria)
  ]

  -- `handleSearchCommand:`, by the criteria in the order in which the dictionary gives them.
  pub handle_search : List (String × V) → Outcome Answer
  unfolding intersect
  handle_search [] = returned (single none)
  handle_search ((key, v) ∷ []) = elim (search_selector key) [
    | none ↦ raised Exception.assertion
    | some (s, true) ↦ returned (several (searcher.find_many s v))
    | some (s, false) ↦ returned (single (searcher.find_one s v))
  ]
  handle_search ((key, v) ∷ next ∷ criteria) = elim (search_selector key) [
    | none ↦ raised Exception.assertion
    | some (s, is_plural) ↦ (do
      found ← results_of s is_plural v
      intersect is_plural (set_of found) (next ∷ criteria))
  ]
