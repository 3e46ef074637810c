-- ===== src/Contributors.antt =====
-- The contributors of a package: Feather/Sources/Model Controllers/MPContributorsController.m and
-- Feather/Sources/Model/MPContributor.m. An object is the number of its pointer, and `isEqual:` of
-- two objects is the identity of the pointers. `Priorities` is the heap of the field `priority`, an
-- NSInteger read as its 64-bit pattern, since the code compares it with an NSUInteger.
mod Priority
mod Move
mod Neighbours
pub mod Claim
mod Tests
use feather.Common.{
  length, get_elem?, if◌then◌else◌, ◌==◌, nat_eq, list_eq, string_eq, ℕ, suc, ◌+◌, ◌-◌, Bool, false,
  Option, none, some, List, [], ◌∷◌, ◌++◌,
}
use feather.Foundation.{index_of, remove_object, insert_object, Outcome, returned, ◌>>=◌, ◌>>◌}

abbrev pub Priorities : Type 0
Priorities = ℕ → ℕ

abbrev pub assign : Priorities → ℕ → ℕ → Priorities
assign h c p = λ k. if k == c then p else h k

-- The enumeration of `refreshPrioritiesForContributors:changedContributors:` from the index `idx`:
-- the new priorities, and the objects that were changed. The contributors are taken not to be deleted:
-- the setter of a deleted object does nothing.
pub refresh_from : ℕ → Priorities → List ℕ → Priorities × List ℕ
refresh_from idx h [] = (h, [])
refresh_from idx h (c ∷ cs) =
    let same = h c == idx in
    let (after, changed) = refresh_from (suc idx) (if same then h else assign h c idx) cs in
    (after, if same then changed else c ∷ changed)

-- The new priorities, the objects changed, and the count that is returned.
pub refresh_priorities : Priorities → List ℕ → Priorities × List ℕ × ℕ
refresh_priorities h contributors =
    let (after, changed) = refresh_from 0 h contributors in (after, changed, length changed)

-- A call of the `MPContributorPriorityChangeHandler`: the object, its old index and its new one.
pub record IndexChange : Type 0 where
  pub contributor : ℕ
  pub old_index : Option ℕ
  pub new_index : ℕ

-- The body of the loop of `moveContributors:amongstContributors:toIndex:indexChangeHandler:`.
pub move_one : ℕ → ℕ → List ℕ → Outcome (List ℕ × List IndexChange)
move_one index c universe = elim (index_of universe c) [
  | none ↦ do
    moved ← insert_object universe c index
    returned (moved, record { contributor = c; old_index = none; new_index = index } ∷ [])
  | some old ↦
      let left = remove_object universe c in
      if old == index then returned (universe, []) else do
        moved ← insert_object left c index
        returned (moved, record { contributor = c; old_index = some old; new_index = index } ∷ [])
]

-- The loop runs from the last contributor to the first.
pub move_all : ℕ → List ℕ → List ℕ → Outcome (List ℕ × List IndexChange)
move_all index [] universe = returned (universe, [])
move_all index (c ∷ cs) universe = do
  (later, calls) ← move_all index cs universe
  (moved, call) ← move_one index c later
  returned (moved, calls ++ call)

-- The new order, the new priorities, and the calls of the handler.
pub move_contributors :
    Priorities → List ℕ → List ℕ → ℕ → Outcome (List ℕ × Priorities × List IndexChange)
move_contributors h contributors universe index = do
  (moved, calls) ← move_all index contributors universe
  returned (moved, (refresh_priorities h moved).0, calls)

-- `previousContributor`, `nextContributor`, over the array `allContributors`.
pub previous_contributor : List ℕ → ℕ → Option ℕ
previous_contributor everyone c = elim (index_of everyone c) [
  | none ↦ none
  | some index ↦ if index == 0 then none else get_elem? everyone (index - 1)
]

pub next_contributor : List ℕ → ℕ → Option ℕ
next_contributor everyone c = elim (index_of everyone c) [
  | none ↦ none
  | some index ↦ if index == length everyone - 1 then none else get_elem? everyone (index + 1)
]

-- `isFirstContributor`, `isLastContributor`
is_object : Option ℕ → ℕ → Bool
is_object none c = false
is_object (some d) c = d == c

pub is_first_contributor : List ℕ → ℕ → Bool
unfolding is_object
is_first_contributor everyone c = is_object (get_elem? everyone 0) c

pub is_last_contributor : List ℕ → ℕ → Bool
unfolding is_object
is_last_contributor everyone c = is_object (get_elem? everyone (length everyone - 1)) c
