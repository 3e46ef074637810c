-- ===== src/Controller/Search/Meet.antt =====
-- What a search with several criteria finds.
use Prim.Native.String.{String}
use feather.Common.{
  filter, all, contains, ◌==◌, nat_eq, ==_refl, list_eq, string_eq, Bool-cases, Option-cases, ℕ,
  ◌≡◌, refl, sym, ◌∙◌, inl, inr, Bool, false, ◌&&◌, ◌||◌, none, some, List, [], ◌∷◌, arith,
}
use feather.Controller.Search.{
  Searcher, Answer, search_selector, results_of, set_of, answer, intersect, handle_search,
}
use feather.Foundation.{returned, raised, ◌>>=◌, >>=-eq-returned}

module _ {V : Type 0} (searcher : Searcher V) where
  -- Whether an object meets a criterion.
  pub meets : ℕ → String × V → Bool
  meets o (key, v) = elim (search_selector searcher key) [
    | none ↦ false
    | some (s, is_plural) ↦ elim (results_of searcher s is_plural v) [
      | raised e ↦ false
      | returned found ↦ contains found o
    ]
  ]

  contains-set_of : (os : List ℕ) (o : ℕ) → contains (set_of searcher os) o ≡ contains os o
  unfolding set_of
  contains-set_of [] o = refl
  contains-set_of (p ∷ os) o = elim (Bool-cases (p == o)) [
    | inl alike ↦ let e : p ≡ o = ground (arith, alike) in rw e (ground (arith, ==_refl o))
    | inr other ↦ ground (arith, other, contains-set_of os o)
  ]

  contains-filter :
      (p : ℕ → Bool) (os : List ℕ) (o : ℕ) → contains (filter p os) o ≡ (p o && contains os o)
  contains-filter p [] o = ground arith
  contains-filter p (q ∷ os) o = elim (Bool-cases (q == o)) [
    | inl alike ↦
        let e : q ≡ o = ground (arith, alike) in
        rw e (ground (arith, ==_refl o, contains-filter p os o))
    | inr other ↦ ground (arith, other, contains-filter p os o)
  ]

  -- One criterion that is met raises nothing, and gives the objects that meet it.
  found_meets :
      (key : String) (v : V) (s : String) (is_plural : Bool) (found : List ℕ) (o : ℕ)
      → search_selector searcher key ≡ some (s, is_plural)
      → results_of searcher s is_plural v ≡ returned found
      → meets o (key, v) ≡ contains (set_of searcher found) o
  unfolding meets
  found_meets key v s is_plural found o h k = rw (h, k, meets) (sym (contains-set_of found o))

  intersect_step :
      (b : Bool) (results : List ℕ) (key s : String) (v : V) (is_plural : Bool)
      (criteria : List (String × V))
      → search_selector searcher key ≡ some (s, is_plural)
      → intersect searcher b results ((key, v) ∷ criteria) ≡ (
          results_of searcher s is_plural v >>= λ found.
          intersect searcher
            (is_plural || b)
            (filter (contains (set_of searcher found)) results)
            criteria)
  unfolding intersect
  intersect_step b results key s v is_plural criteria h = rw (h, intersect) refl

  intersect-meets :
      (b : Bool) (results : List ℕ) (criteria : List (String × V)) (a : Answer)
      → intersect searcher b results criteria ≡ returned a
      → (c : Bool) × (xs : List ℕ) × (a ≡ answer searcher c xs)
        × ((o : ℕ) → contains xs o ≡ (contains results o && all (meets o) criteria))
  unfolding intersect
  intersect-meets b results [] a h = (b, results, ground arith, λ o. ground arith)
  intersect-meets b results ((key, v) ∷ criteria) a h =
      elim (Option-cases (search_selector searcher key)) [
        | inl nothing ↦ absurd (ground (arith, nothing))
        | inr ((s, is_plural), selected) ↦
            let (found, given, rest) =
              >>=-eq-returned (results_of searcher s is_plural v) _
                (sym (intersect_step b results key s v is_plural criteria selected) ∙ h) in
            let left = filter (contains (set_of searcher found)) results in
            let (c, xs, e, meet) = intersect-meets (is_plural || b) left criteria a rest in
            (
              c,
              xs,
              e,
              λ o. ground (
                arith,
                meet o,
                contains-filter (contains (set_of searcher found)) results o,
                found_meets key v s is_plural found o selected given,
              ),
            )
      ]

  handle_search_step :
      (key s : String) (v : V) (is_plural : Bool) (next : String × V) (criteria : List (String × V))
      → search_selector searcher key ≡ some (s, is_plural)
      → handle_search searcher ((key, v) ∷ next ∷ criteria) ≡ (
          results_of searcher s is_plural v >>= λ found.
          intersect searcher is_plural (set_of searcher found) (next ∷ criteria))
  unfolding handle_search
  handle_search_step key s v is_plural next criteria h = rw (h, handle_search) refl

  -- A search with two or more criteria, where it raises no exception, answers from the set of the
  -- objects that meet every criterion.
  pub handle_search-meets :
      (first next : String × V) (criteria : List (String × V)) (a : Answer)
      → handle_search searcher (first ∷ next ∷ criteria) ≡ returned a
      → (c : Bool) × (xs : List ℕ) × (a ≡ answer searcher c xs)
        × ((o : ℕ) → contains xs o ≡ all (meets o) (first ∷ next ∷ criteria))
  unfolding handle_search
  handle_search-meets (key, v) next criteria a h =
      elim (Option-cases (search_selector searcher key)) [
        | inl nothing ↦ absurd (ground (arith, nothing))
        | inr ((s, is_plural), selected) ↦
            let (found, given, rest) =
              >>=-eq-returned (results_of searcher s is_plural v) _
                (sym (handle_search_step key s v is_plural next criteria selected) ∙ h) in
            let (c, xs, e, meet) =
              intersect-meets is_plural (set_of searcher found) (next ∷ criteria) a rest in
            (
              c,
              xs,
              e,
              λ o. ground (arith, meet o, found_meets key v s is_plural found o selected given),
            )
      ]
