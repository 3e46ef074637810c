-- ===== src/Trees.antt =====
-- MPTreeItemUtility: Feather/Sources/Utilities/MPTreeItemUtility.m. An item is known by a number; its
-- children are a forest.
pub mod Descendents
mod Tests
use feather.Common.{
  nat_eq, string_eq, list_eq, ℕ, zero, suc, Option, none, some, List, [], ◌∷◌, ◌++◌,
}

mutual
  pub data Tree : Type 0 where
    item : ℕ → Forest → Tree

  pub data Forest : Type 0 where
    none_left : Forest
    child : Tree → Forest → Forest

-- `for (c in [last children]) [stack addObject:c]`. The last object of the stack comes first.
pub push_children : Forest → List Tree → List Tree
push_children none_left stack = stack
push_children (child t ts) stack = push_children ts (t ∷ stack)

-- The `while` loop, with a bound on its rounds: the items that it adds, or `none` where the bound is
-- reached.
pub visit : ℕ → List Tree → Option (List ℕ)
unfolding push_children
visit fuel [] = some []
visit zero (t ∷ stack) = none
visit (suc fuel) (item i ts ∷ stack) =
    let later = visit fuel (push_children ts stack) in
    elim later [ none ↦ none | some items ↦ some (i ∷ items) ]

pub visit_children : ℕ → Forest → Option (List ℕ)
unfolding visit
visit_children fuel none_left = some []
visit_children fuel (child (item i ts) rest) =
    let below = visit fuel (item i ts ∷ []) in
    let later = visit_children fuel rest in
    elim below [
      | none ↦ none
      | some items ↦ elim later [ none ↦ none | some others ↦ some (i ∷ (items ++ others)) ]
    ]

-- `descendentsForTreeItem:`
pub descendents : ℕ → Tree → Option (List ℕ)
unfolding visit_children
descendents fuel (item i ts) = visit_children fuel ts
