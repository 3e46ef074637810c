-- ===== src/Packages/Lookup.antt =====
-- The controller of a class: `controllerForManagedObjectClass:` and `_controllerForManagedObjectClass:`, with
-- the assertions of both. A class is its name, a controller a number.
pub mod Answers
use Prim.Native.String.{String}
use feather.Common.{
  ℕ, Bool, true, false, not, ◌||◌, ◌&&◌, Option, none, some, List, [], ◌∷◌, if◌then◌else◌, ◌==◌,
  string_eq, is_some,
}
use feather.Foundation.{Outcome, returned, ◌>>=◌, ◌>>◌, assert}

-- What the runtime knows of classes, and the package of its properties. `ancestors` gives a class and its
-- superclasses below MPManagedObject; `controller_of` is what the property has that is named for a class.
pub record Classes : Type 0 where
  pub is_metadata : String → Bool
  pub is_managed_object : String → Bool
  pub is_subclass : String → Bool
  pub is_referencable : String → Bool
  pub has_prefix : String → Bool
  pub ancestors : String → List String
  pub responds : String → Bool
  pub controller_of : String → Option ℕ

-- `_controllerDictionary`: a class has no entry, NSNull (`some none`) or the class for which the property
-- is named that was found.
unfoldable pub cached : String → List (String × Option String) → Option (Option String)
cached c [] = none
cached c ((d, v) ∷ cache) = if c == d then some v else cached c cache

module _ (classes : Classes) where
  -- The `do` loop from a class towards MPManagedObject.
  unfoldable pub closest : List String → Outcome (Option String)
  closest [] = returned none
  closest (c ∷ cs) =
      let later = closest cs in
      let here = (do assert (is_some (classes.controller_of c)); returned (some c)) in
      assert (classes.has_prefix c) >> (if classes.responds c then here else later)

  -- `valueForKey:` of the property that is named for a class, or nil.
  unfoldable pub value_for : Option String → Option ℕ
  value_for none = none
  value_for (some k) = classes.controller_of k

  -- A class that was found is noted.
  unfoldable pub remembered :
      String
      → List (String × Option String)
      → Option String
      → Option ℕ × List (String × Option String)
  unfolding value_for
  remembered c cache none = (none, cache)
  remembered c cache (some k) = (value_for (some k), (c, some k) ∷ cache)

  unfoldable pub found_or_searched :
      String
      → List (String × Option String)
      → Option (Option String)
      → Outcome (Option ℕ × List (String × Option String))
  unfolding closest remembered value_for
  found_or_searched c cache (some v) = returned (value_for v, cache)
  found_or_searched c cache none = do
    found ← closest (classes.ancestors c)
    returned (remembered c cache found)

  -- `_controllerForManagedObjectClass:`
  unfoldable pub controller_or_none :
      String → List (String × Option String) → Outcome (Option ℕ × List (String × Option String))
  unfolding found_or_searched cached
  controller_or_none c cache = if classes.is_metadata c then returned (none, cache) else (do
    assert (classes.is_subclass c && not (classes.is_managed_object c))
    found_or_searched c cache (cached c cache))

  -- Where no controller is found, NSNull is noted.
  unfoldable pub noted :
      String
      → Option ℕ × List (String × Option String)
      → Outcome (Option ℕ × List (String × Option String))
  noted c (some m, cache) = returned (some m, cache)
  noted c (none, cache) = do
    assert (classes.is_referencable c || not (classes.is_managed_object c))
    returned (none, (c, none) ∷ cache)

  -- `controllerForManagedObjectClass:`
  unfoldable pub controller_for_class :
      String → List (String × Option String) → Outcome (Option ℕ × List (String × Option String))
  unfolding controller_or_none noted
  controller_for_class c cache = controller_or_none c cache >>= noted c

  -- A package that is asked for classes one after another.
  unfoldable pub controllers_for_classes :
      List String → List (String × Option String) → Outcome (List (Option ℕ))
  unfolding controller_for_class
  controllers_for_classes [] cache = returned []
  controllers_for_classes (c ∷ cs) cache = do
    (found, cache') ← controller_for_class c cache
    rest ← controllers_for_classes cs cache'
    returned (found ∷ rest)
