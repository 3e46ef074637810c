-- ===== src/Contributors/Move.antt =====
-- moveContributors:amongstContributors:toIndex:indexChangeHandler:
use feather.Common.{
  length, get_elem?, count, Distinct, ◌==◌, nat_eq, string_eq, list_eq, Bool-cases, Option-cases, ℕ,
  zero, suc, ◌≤◌, ◌<◌, ◌≡◌, refl, ◌∙◌, inl, inr, false, some, List, [], ◌∷◌, ◌++◌, arith,
}
use feather.Contributors.{
  Priorities, refresh_priorities, IndexChange, move_one, move_all, move_contributors,
}
use feather.Contributors.Priority.{refresh_priorities_at}
use feather.Foundation.{
  index_from, index_of, remove_object, insert_object, count-remove_object, remove_object_absent,
  length-remove_object, index_from-none_iff, index_from-get_elem?, get_elem?-lt,
  insert_object_within, insert_object_past, Exception, returned, raised, >>=-eq-returned,
}

-- One contributor of the array, moved to an index of the array: the objects stay the same.
move_one_within :
    (index c : ℕ) (u : List ℕ)
    → count c u ≡ 1
    → index < length u
    → (moved : List ℕ) × (calls : List IndexChange) × (move_one index c u ≡ returned (moved, calls))
      × (get_elem? moved index ≡ some c)
      × (length moved ≡ length u)
      × ((b : ℕ) → count b moved ≡ count b u)
unfolding move_one index_of
move_one_within index c u once within = elim (Option-cases (index_from 0 u c)) [
  | inl absent ↦ absurd (omega (arith, (index_from-none_iff 0 u c).0 absent))
  | inr (old, found) ↦ elim (Bool-cases (old == index)) [
    | inl same ↦
        let (k, e, at) = index_from-get_elem? 0 u c old found in
        let here : k ≡ index = ground arith in
        (u, [], rw (found, move_one, same), rw (← here) at, refl, λ b. refl)
    | inr other ↦
        let (moved, made, there, longer, counts) =
          insert_object_within (remove_object u c) c index
            (omega (arith, length-remove_object c u)) in
        (
          moved,
          record { contributor = c; old_index = some old; new_index = index } ∷ [],
          rw (found, move_one, other, made),
          there,
          omega (arith, longer, length-remove_object c u),
          λ b. ground (arith, counts b, count-remove_object c b u),
        )
  ]
]

move_all_within :
    (index : ℕ) (cs u : List ℕ)
    → ((c : ℕ) → 0 < count c cs → count c u ≡ 1)
    → index < length u
    → (moved : List ℕ) × (calls : List IndexChange) × (move_all index cs u
        ≡ returned (moved, calls))
      × ((i c : ℕ) (rest : List ℕ) → cs ≡ c ∷ rest → get_elem? moved index ≡ some c)
      × (length moved ≡ length u)
      × ((b : ℕ) → count b moved ≡ count b u)
unfolding move_all
move_all_within index [] u member within = (u, [], refl, λ i c rest e. cc, refl, λ b. refl)
move_all_within index (c ∷ cs) u member within =
    let (later, calls, ran, _, same, counts) =
      move_all_within index cs u (λ d p. member d (omega arith)) within in
    let (moved, call, done, there, same', counts') =
      move_one_within index c later (omega (arith, counts c, member c (ground arith)))
        (omega (arith, same, within)) in
    (
      moved,
      calls ++ call,
      rw (ran, done),
      λ i d rest e. cc,
      same' ∙ same,
      λ b. counts' b ∙ counts b,
    )

-- To move some contributors of an array without repetitions to an index of the array raises nothing:
-- the array keeps its objects, the first of the moved contributors ends at the index, and each
-- object's priority becomes its new index.
pub move_contributors_within :
    (h : Priorities) (c : ℕ) (cs u : List ℕ) (index : ℕ)
    → Distinct u
    → ((d : ℕ) → 0 < count d (c ∷ cs) → count d u ≡ 1)
    → index < length u
    → (moved : List ℕ) × (after : Priorities) × (calls : List IndexChange) × (move_contributors h
          (c ∷ cs)
          u
          index
        ≡ returned (moved, after, calls))
      × ((b : ℕ) → count b moved ≡ count b u)
      × (get_elem? moved index ≡ some c)
      × ((i d : ℕ) → get_elem? moved i ≡ some d → after d ≡ i)
unfolding move_contributors
move_contributors_within h c cs u index distinct member within =
    let (moved, calls, ran, first, _, counts) = move_all_within index (c ∷ cs) u member within in
    (
      moved,
      (refresh_priorities h moved).0,
      calls,
      rw ran,
      counts,
      first 0 c cs refl,
      λ i d at. refresh_priorities_at h moved i d (λ b. omega (arith, counts b, distinct b)) at,
    )

-- An index past the end of the array raises a range exception, whatever contributor is moved.
pub move_contributors_past :
    (h : Priorities) (c : ℕ) (u : List ℕ) (index : ℕ)
    → length u < index
    → move_contributors h (c ∷ []) u index ≡ raised Exception.range
unfolding move_contributors move_all move_one index_of
move_contributors_past h c u index beyond = elim (Option-cases (index_from 0 u c)) [
  | inl absent ↦ rw (absent, move_one, insert_object_past u c index beyond)
  | inr (old, found) ↦
      let (k, e, at) = index_from-get_elem? 0 u c old found in
      let other : (old == index) ≡ false = ground (arith, get_elem?-lt u k at) in
      rw (
        found,
        move_one,
        other,
        insert_object_past (remove_object u c) c index
            (omega (arith, beyond, length-remove_object c u)),
      )
]

insert_object_before :
    (xs : List ℕ) (a i j : ℕ) {ys : List ℕ}
    → insert_object xs a i ≡ returned ys
    → j < i
    → get_elem? ys j ≡ get_elem? xs j
unfolding insert_object
insert_object_before xs a zero j made lt = elim lt [ ]
insert_object_before [] a (suc i) j made lt = cc
insert_object_before (x ∷ xs) a (suc i) zero made lt =
    let (zs, inner, e) = >>=-eq-returned (insert_object xs a i) (λ zs. returned (x ∷ zs)) made in
    ground arith
insert_object_before (x ∷ xs) a (suc i) (suc j) made lt =
    let (zs, inner, e) = >>=-eq-returned (insert_object xs a i) (λ zs. returned (x ∷ zs)) made in
    ground (arith, insert_object_before xs a i j inner)

-- The first object of an array, moved further on.
move_first :
    (index a : ℕ) (later : List ℕ) {moved : List ℕ}
    → 0 < index
    → count a later ≡ 0
    → insert_object later a index ≡ returned moved
    → move_one index a (a ∷ later)
      ≡ returned (moved, record { contributor = a; old_index = some 0; new_index = index } ∷ [])
unfolding move_one index_of remove_object
move_first index a later pos absent made = ground (arith, made, remove_object_absent a later absent)

-- The second of two objects at the front goes to a later place, or stays where it is.
move_second :
    (a b : ℕ) (rest : List ℕ) (k : ℕ)
    → Distinct (a ∷ b ∷ rest)
    → k < length rest
    → (later : List ℕ) × (calls : List IndexChange) × (move_one (suc k) b (a ∷ b ∷ rest)
        ≡ returned (a ∷ later, calls))
      × (get_elem? later k ≡ some b)
      × (suc k ≤ length later)
      × (count a later ≡ 0)
unfolding move_one index_of remove_object insert_object
move_second a b rest zero distinct lt =
    (b ∷ rest, [], ground (arith, distinct a), refl, omega arith, ground (arith, distinct a))
move_second a b rest (suc k) distinct lt =
    let (later, made, there, longer, counts) = insert_object_within rest b (suc k) (omega arith) in
    (
      later,
      record { contributor = b; old_index = some 1; new_index = suc (suc k) } ∷ [],
      ground (arith, made, distinct a, distinct b, remove_object_absent b rest),
      there,
      omega (arith, longer),
      ground (arith, distinct a, counts a),
    )

-- Two contributors at the front, moved together to a later index, change places: the second one ends
-- just before the first.
pub move_contributors_swaps :
    (h : Priorities) (a b : ℕ) (rest : List ℕ) (k : ℕ)
    → Distinct (a ∷ b ∷ rest)
    → k < length rest
    → (moved : List ℕ) × (after : Priorities) × (calls : List IndexChange) × (move_contributors h
          (a ∷ b ∷ [])
          (a ∷ b ∷ rest)
          (suc k)
        ≡ returned (moved, after, calls))
      × (get_elem? moved k ≡ some b)
      × (get_elem? moved (suc k) ≡ some a)
unfolding move_contributors move_all
move_contributors_swaps h a b rest k distinct lt =
    let (later, calls, ran, there, fits, absent) = move_second a b rest k distinct lt in
    let (moved, made, at, _, _) = insert_object_within later a (suc k) fits in
    let call : List IndexChange =
      record { contributor = a; old_index = some 0; new_index = suc k } ∷ [] in
    let first : move_one (suc k) a (a ∷ later) ≡ returned (moved, call) =
      move_first (suc k) a later (omega arith) absent made in
    (
      moved,
      (refresh_priorities h moved).0,
      calls ++ call,
      rw (ran, first),
      insert_object_before later a (suc k) k made (omega arith) ∙ there,
      at,
    )
