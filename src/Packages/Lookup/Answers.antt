-- ===== src/Packages/Lookup/Answers.antt =====
-- The answers of a package without its dictionary, and that these are the answers with it.
use Prim.Native.String.{String}
use feather.Common.{
  ℕ, Bool, true, false, not, ◌||◌, ◌&&◌, ◌≡◌, refl, Option, none, some, List, [], ◌∷◌,
  if◌then◌else◌, ◌==◌, string_eq, eq_iff, arith, ap, sym, ◌∙◌, Bool-cases, inl, inr,
}
use feather.Foundation.{Exception, Outcome, returned, raised, ◌>>=◌, ◌>>◌, assert}
use feather.Packages.Lookup.{
  Classes, cached, closest, value_for, remembered, found_or_searched, controller_or_none, noted,
  controller_for_class, controllers_for_classes,
}

module _ (classes : Classes) where
  -- The search of the class hierarchy, with its assertions.
  unfoldable pub searched : String → Outcome (Option ℕ)
  unfolding closest value_for
  searched c = if classes.is_metadata c then returned none else (do
    assert (classes.is_subclass c && not (classes.is_managed_object c))
    found ← closest classes (classes.ancestors c)
    returned (value_for classes found))

  -- What is asserted of a class without a controller.
  unfoldable pub accepted : String → Option ℕ → Outcome (Option ℕ)
  accepted c (some m) = returned (some m)
  accepted c none = do
    assert (classes.is_referencable c || not (classes.is_managed_object c))
    returned none

  abbrev pub searches : List String → Outcome (List (Option ℕ))
  searches [] = returned []
  searches (c ∷ cs) = do
    found ← searched c >>= accepted c
    rest ← searches cs
    returned (found ∷ rest)

  -- Each entry of the dictionary is what the search finds.
  abbrev AreRight : List (String × Option String) → Type 0
  AreRight cache =
      (c : String) (v : Option String)
      → cached c cache ≡ some v
      → searched c ≡ returned (value_for classes v)

  entry-AreRight :
      (c : String) (v : Option String) (cache : List (String × Option String))
      → AreRight cache
      → searched c ≡ returned (value_for classes v)
      → AreRight ((c, v) ∷ cache)
  unfolding cached
  entry-AreRight c v cache right it d w h = elim (Bool-cases (d == c)) [
    | inl same ↦
        let d_is_c : d ≡ c = ground (arith, eq_iff d c, same) in
        let v_is_w : v ≡ w = ground (arith, same, h) in
        ap searched d_is_c ∙ (it ∙ ap (λ v. returned (value_for classes v)) v_is_w)
    | inr other ↦ right d w (ground (arith, other, h))
  ]

  -- What is done with the dictionary has the outcome of what is done without it, and leaves it right.
  abbrev IsRight : Outcome (Option ℕ) → Outcome (Option ℕ × List (String × Option String)) → Type 0
  IsRight expected (raised e) = expected ≡ raised e
  IsRight expected (returned (found, cache)) = (expected ≡ returned found) × AreRight cache

  remembered-IsRight :
      (c : String) (cache : List (String × Option String)) (m : Outcome (Option String))
      → AreRight cache
      → searched c ≡ (m >>= λ found. returned (value_for classes found))
      → IsRight (searched c) (m >>= λ found. returned (remembered classes c cache found))
  unfolding remembered value_for
  remembered-IsRight c cache (raised e) right it = it
  remembered-IsRight c cache (returned none) right it = (it, right)
  remembered-IsRight c cache (returned (some k)) right it =
      (it, entry-AreRight c (some k) cache right it)

  found_or_searched-IsRight :
      (o : Option (Option String)) (c : String) (cache : List (String × Option String))
      → AreRight cache
      → cached c cache ≡ o
      → searched c
        ≡ (closest classes (classes.ancestors c) >>= λ found. returned (value_for classes found))
      → IsRight (searched c) (found_or_searched classes c cache o)
  unfolding found_or_searched
  found_or_searched-IsRight (some v) c cache right it plain = (right c v it, right)
  found_or_searched-IsRight none c cache right it plain =
      remembered-IsRight c cache (closest classes (classes.ancestors c)) right plain

  -- A class that may be searched for.
  abbrev is_below : String → Bool
  is_below c = classes.is_subclass c && not (classes.is_managed_object c)

  searched-metadata : (c : String) → classes.is_metadata c ≡ true → searched c ≡ returned none
  unfolding searched
  searched-metadata c metadata = rw (metadata) refl

  searched-above :
      (c : String)
      → classes.is_metadata c ≡ false
      → is_below c ≡ false
      → searched c ≡ raised Exception.assertion
  unfolding searched
  searched-above c plain above = rw (plain, above) refl

  searched-below :
      (c : String)
      → classes.is_metadata c ≡ false
      → is_below c ≡ true
      → searched c
        ≡ (closest classes (classes.ancestors c) >>= λ found. returned (value_for classes found))
  unfolding searched
  searched-below c plain below = rw (plain, below) refl

  controller_or_none-IsRight :
      (c : String) (cache : List (String × Option String))
      → AreRight cache
      → IsRight (searched c) (controller_or_none classes c cache)
  unfolding controller_or_none
  controller_or_none-IsRight c cache right = elim (Bool-cases (classes.is_metadata c)) [
    | inl metadata ↦ rw (metadata) (searched-metadata c metadata, right)
    | inr plain ↦ elim (Bool-cases (is_below c)) [
      | inl below ↦
          rw (plain, below)
            (found_or_searched-IsRight (cached c cache) c cache right refl
              (searched-below c plain below))
      | inr above ↦ rw (plain, above) (searched-above c plain above)
    ]
  ]

  noted-none-IsRight :
      (c : String) (cache : List (String × Option String)) (b : Bool)
      → AreRight cache
      → searched c ≡ returned none
      → IsRight (assert b >> returned none) (assert b >> returned (none, (c, none) ∷ cache))
  unfolding value_for
  noted-none-IsRight c cache true right it = (refl, entry-AreRight c none cache right it)
  noted-none-IsRight c cache false right it = refl

  noted-IsRight :
      (c : String) (m : Outcome (Option ℕ × List (String × Option String)))
      → IsRight (searched c) m
      → IsRight (searched c >>= accepted c) (m >>= noted classes c)
  unfolding noted accepted
  noted-IsRight c (raised e) it = ap (λ m. m >>= accepted c) it
  noted-IsRight c (returned (some m, cache)) (it, right) = (ap (λ m. m >>= accepted c) it, right)
  noted-IsRight c (returned (none, cache)) (it, right) = rw (it) (
      noted-none-IsRight c cache (classes.is_referencable c || not (classes.is_managed_object c))
        right it)

  controller_for_class-IsRight :
      (c : String) (cache : List (String × Option String))
      → AreRight cache
      → IsRight (searched c >>= accepted c) (controller_for_class classes c cache)
  unfolding controller_for_class
  controller_for_class-IsRight c cache right =
      noted-IsRight c (controller_or_none classes c cache)
        (controller_or_none-IsRight c cache right)

  go_on :
      (expected : Outcome (Option ℕ)) (m : Outcome (Option ℕ × List (String × Option String)))
      (cs : List String)
      → IsRight expected m
      → ((cache : List (String × Option String))
          → AreRight cache
          → controllers_for_classes classes cs cache ≡ searches cs)
      → (m >>= λ r. controllers_for_classes classes cs r.1 >>= λ rest. returned (r.0 ∷ rest))
        ≡ (expected >>= λ found. searches cs >>= λ rest. returned (found ∷ rest))
  go_on expected (raised e) cs it later =
      sym (ap (λ m. m >>= λ found. searches cs >>= λ rest. returned (found ∷ rest)) it)
  go_on expected (returned (found, cache)) cs (it, right) later =
      ap (λ m. m >>= λ rest. returned (found ∷ rest)) (later cache right)
      ∙ sym (ap (λ m. m >>= λ found. searches cs >>= λ rest. returned (found ∷ rest)) it)

  all_right :
      (cs : List String) (cache : List (String × Option String))
      → AreRight cache
      → controllers_for_classes classes cs cache ≡ searches cs
  unfolding controllers_for_classes
  all_right [] cache right = refl
  all_right (c ∷ cs) cache right =
      go_on (searched c >>= accepted c) (controller_for_class classes c cache) cs
        (controller_for_class-IsRight c cache right) (all_right cs)

  -- Whatever classes a package is asked for, one after another, it answers what the search of the class
  -- hierarchy alone answers, and where an assertion stops one of the two it stops the other: the
  -- dictionary changes neither an answer nor an assertion.
  pub controllers_for_classes-searches :
      (cs : List String) → controllers_for_classes classes cs [] ≡ searches cs
  unfolding cached
  controllers_for_classes-searches cs = all_right cs [] λ c v h. cc
