-- ===== src/Trees/Tests.antt =====
-- A tree with two children, of which the first has a child.
use feather.Common.{nat_eq, string_eq, list_eq, ℕ, ◌+◌, ◌≡◌, some, List, arith}
use feather.Trees.{item, Forest, none_left, child, descendents}
use feather.Trees.Descendents.{
  weigh_items, weigh_forest, weigh_roots, items_below, descendents_weight,
}

abbrev below : Forest
below = child (item 1 (child (item 2 none_left) none_left)) (child (item 3 none_left) none_left)

descendents_weight_example :
    (items : List ℕ) × (descendents 3 (item 0 below) ≡ some items)
    × (weigh_items (λ i. i) items ≡ weigh_forest (λ i. i) below + weigh_roots (λ i. i) below)
unfolding items_below weigh_forest
descendents_weight_example = descendents_weight (λ i. i) 0 below 3 (omega arith)
