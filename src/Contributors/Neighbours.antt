-- ===== src/Contributors/Neighbours.antt =====
-- previousContributor and nextContributor
use feather.Common.{
  length, get_elem?, count, Distinct, nat_eq, list_eq, string_eq, Option-cases, ℕ, zero, suc, ◌-◌,
  ◌<◌, ◌≡◌, ap, ◌∙◌, ◌≢◌, ◌↔◌, inl, inr, true, none, some, List, [], ◌∷◌, arith,
}
use feather.Contributors.{previous_contributor, next_contributor, is_object, is_first_contributor}
use feather.Foundation.{
  index_from, index_of, index_from-none_iff, index_from-get_elem?, index_from-of_get_elem?,
  get_elem?-lt,
}

next_to_previous :
    (everyone : List ℕ) (c d : ℕ)
    → Distinct everyone
    → next_contributor everyone c ≡ some d
    → previous_contributor everyone d ≡ some c
unfolding previous_contributor next_contributor index_of
next_to_previous everyone c d distinct h = elim (Option-cases (index_from 0 everyone c)) [
  | inl absent ↦ cc (rw (absent, next_contributor) at h)
  | inr (i, found) ↦
      let (k, e, at) = index_from-get_elem? 0 everyone c i found in
      let after : get_elem? everyone (suc k) ≡ some d = ground arith in
      ground (arith, index_from-of_get_elem? 0 everyone (suc k) d (distinct d) after)
]

previous_to_next :
    (everyone : List ℕ) (c d : ℕ)
    → Distinct everyone
    → previous_contributor everyone d ≡ some c
    → next_contributor everyone c ≡ some d
unfolding previous_contributor next_contributor index_of
previous_to_next everyone c d distinct h = elim (Option-cases (index_from 0 everyone d)) [
  | inl absent ↦ cc (rw (absent, previous_contributor) at h)
  | inr (i, found) ↦
      let (k, e, at) = index_from-get_elem? 0 everyone d i found in
      let before : (0 < k) × (get_elem? everyone (k - 1) ≡ some c) = ground arith in
      ground (
        arith,
        index_from-of_get_elem? 0 everyone (k - 1) c (distinct c) before.1,
        get_elem?-lt everyone k at,
      )
]

-- In an array without repetitions the next contributor of one is another exactly when the previous
-- contributor of the other is the one.
pub next-previous :
    (everyone : List ℕ) (c d : ℕ)
    → Distinct everyone
    → (next_contributor everyone c ≡ some d) ↔ (previous_contributor everyone d ≡ some c)
next-previous everyone c d distinct =
    (next_to_previous everyone c d distinct, previous_to_next everyone c d distinct)

-- The first contributor of an array without repetitions has no previous one, the last one has no next
-- one, and an object outside the array has neither.
pub neighbours_none :
    (everyone : List ℕ) (first last outside : ℕ)
    → Distinct everyone
    → get_elem? everyone 0 ≡ some first
    → get_elem? everyone (length everyone - 1) ≡ some last
    → count outside everyone ≡ 0
    → (previous_contributor everyone first ≡ none)
      × (next_contributor everyone last ≡ none)
      × (previous_contributor everyone outside ≡ none)
      × (next_contributor everyone outside ≡ none)
unfolding previous_contributor next_contributor index_of
neighbours_none everyone first last outside distinct at at' absent = (
  ground (arith, index_from-of_get_elem? 0 everyone 0 first (distinct first) at),
  ground (arith, index_from-of_get_elem? 0 everyone (length everyone - 1) last (distinct last) at'),
  ground (arith, (index_from-none_iff 0 everyone outside).1 absent),
  ground (arith, (index_from-none_iff 0 everyone outside).1 absent),
)

before_there : (xs : List ℕ) (k c : ℕ) → get_elem? xs (suc k) ≡ some c → get_elem? xs k ≢ none
before_there [] k c h e = ground (arith, h)
before_there (x ∷ xs) zero c h e = ground (arith, e)
before_there (x ∷ xs) (suc k) c h e = before_there xs k c h e

not_first :
    (everyone : List ℕ) (c k : ℕ)
    → index_from 0 everyone c ≡ some k
    → get_elem? everyone k ≡ some c
    → previous_contributor everyone c ≡ none
    → get_elem? everyone 0 ≡ some c
unfolding previous_contributor index_of
not_first everyone c zero found at h = at
not_first everyone c (suc k) found at h =
    absurd (before_there everyone k c at (ground (arith, found)))

-- A contributor of an array without repetitions is the first one exactly where it has no previous one.
pub is_first_contributor-previous :
    (everyone : List ℕ) (c i : ℕ)
    → Distinct everyone
    → get_elem? everyone i ≡ some c
    → (is_first_contributor everyone c ≡ true) ↔ (previous_contributor everyone c ≡ none)
unfolding is_first_contributor is_object previous_contributor index_of
is_first_contributor-previous everyone c i distinct at =
    let found : index_from 0 everyone c ≡ some i =
      index_from-of_get_elem? 0 everyone i c (distinct c) at ∙ ap some (omega arith) in
    (
      λ first.
          let front : get_elem? everyone 0 ≡ some c = ground arith in
          ground (arith, index_from-of_get_elem? 0 everyone 0 c (distinct c) front),
      λ nothing. ground (arith, not_first everyone c i found at nothing),
    )
