-- ===== src/Contributors/Tests.antt =====
-- Priorities, moves and neighbours, tried out.
use feather.Common.{
  get_elem?, count, Distinct, nat_eq, list_eq, string_eq, ℕ, ◌≡◌, refl, ◌↔◌, true, none, some, List,
  [], ◌∷◌, arith,
}
use feather.Contributors.{
  Priorities, refresh_priorities, IndexChange, move_contributors, previous_contributor,
  next_contributor, is_first_contributor,
}
use feather.Contributors.Move.{
  move_contributors_within, move_contributors_past, move_contributors_swaps,
}
use feather.Contributors.Neighbours.{next-previous, neighbours_none, is_first_contributor-previous}
use feather.Contributors.Priority.{refresh_priorities-index, refresh_priorities_again}
use feather.Foundation.{Exception, returned, raised}

abbrev unset : Priorities
unset = λ c. 9

abbrev three : List ℕ
three = 1 ∷ 2 ∷ 3 ∷ []

three-Distinct : Distinct three
three-Distinct a = ground arith

refresh_priorities-index_example :
    ((refresh_priorities unset three).0 2 ≡ 1) × ((refresh_priorities unset three).0 4 ≡ unset 4)
refresh_priorities-index_example =
    refresh_priorities-index unset three 1 2 4 three-Distinct refl refl

refresh_priorities_again_example :
    refresh_priorities (refresh_priorities unset three).0 three
    ≡ ((refresh_priorities unset three).0, [], 0)
refresh_priorities_again_example = refresh_priorities_again unset three three-Distinct

move_contributors_within_example :
    (moved : List ℕ) × (after : Priorities) × (calls : List IndexChange) × (move_contributors unset
        (3 ∷ 2 ∷ [])
        three
        0
      ≡ returned (moved, after, calls))
    × ((b : ℕ) → count b moved ≡ count b three)
    × (get_elem? moved 0 ≡ some 3)
    × ((i d : ℕ) → get_elem? moved i ≡ some d → after d ≡ i)
move_contributors_within_example =
    move_contributors_within unset 3 (2 ∷ []) three 0 three-Distinct (λ d h. ground arith)
      (omega arith)

move_contributors_past_example : move_contributors unset (1 ∷ []) three 7 ≡ raised Exception.range
move_contributors_past_example = move_contributors_past unset 1 three 7 (omega arith)

move_contributors_swaps_example :
    (moved : List ℕ) × (after : Priorities) × (calls : List IndexChange) × (move_contributors unset
        (1 ∷ 2 ∷ [])
        three
        1
      ≡ returned (moved, after, calls))
    × (get_elem? moved 0 ≡ some 2)
    × (get_elem? moved 1 ≡ some 1)
move_contributors_swaps_example =
    move_contributors_swaps unset 1 2 (3 ∷ []) 0 three-Distinct (omega arith)

next-previous_example :
    (next_contributor three 1 ≡ some 2) ↔ (previous_contributor three 2 ≡ some 1)
next-previous_example = next-previous three 1 2 three-Distinct

neighbours_none_example :
    (previous_contributor three 1 ≡ none)
    × (next_contributor three 3 ≡ none)
    × (previous_contributor three 5 ≡ none)
    × (next_contributor three 5 ≡ none)
neighbours_none_example = neighbours_none three 1 3 5 three-Distinct refl refl refl

is_first_contributor-previous_example :
    (is_first_contributor three 1 ≡ true) ↔ (previous_contributor three 1 ≡ none)
is_first_contributor-previous_example = is_first_contributor-previous three 1 0 three-Distinct refl
