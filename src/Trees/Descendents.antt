-- ===== src/Trees/Descendents.antt =====
-- Which items are collected, and how often.
use feather.Common.{
  nat_eq, string_eq, list_eq, ℕ, zero, suc, ◌+◌, ◌≤◌, ◌≡◌, refl, some, List, [], ◌∷◌, ◌++◌, arith,
}
use feather.Trees.{
  Tree, item, Forest, none_left, child, push_children, visit, visit_children, descendents,
}

-- The sum over a list of items of a weight, and the sums over the items of a tree, of a forest and of a
-- stack; with the weight 1 at one item and 0 elsewhere, the number of its occurrences.
pub weigh_items : (ℕ → ℕ) → List ℕ → ℕ
weigh_items f [] = 0
weigh_items f (i ∷ items) = f i + weigh_items f items

unfoldable mutual
  pub weigh_tree : (ℕ → ℕ) → Tree → ℕ
  weigh_tree f (item i ts) = f i + weigh_forest f ts

  pub weigh_forest : (ℕ → ℕ) → Forest → ℕ
  weigh_forest f none_left = 0
  weigh_forest f (child t ts) = weigh_tree f t + weigh_forest f ts

pub weigh_stack : (ℕ → ℕ) → List Tree → ℕ
unfolding weigh_tree
weigh_stack f [] = 0
weigh_stack f (t ∷ stack) = weigh_tree f t + weigh_stack f stack

-- The sum over the roots of a forest.
pub weigh_roots : (ℕ → ℕ) → Forest → ℕ
weigh_roots f none_left = 0
weigh_roots f (child (item i ts) rest) = f i + weigh_roots f rest

-- The number of items below an item.
unfoldable pub items_below : Tree → ℕ
unfolding weigh_forest
items_below (item i ts) = weigh_forest (λ _. 1) ts

weigh_push :
    (f : ℕ → ℕ) (ts : Forest) (stack : List Tree)
    → weigh_stack f (push_children ts stack) ≡ weigh_forest f ts + weigh_stack f stack
unfolding push_children weigh_stack weigh_forest
weigh_push f none_left stack = omega arith
weigh_push f (child t ts) stack = omega (arith, weigh_push f ts (t ∷ stack))

weigh_append :
    (f : ℕ → ℕ) (xs ys : List ℕ) → weigh_items f (xs ++ ys) ≡ weigh_items f xs + weigh_items f ys
unfolding weigh_items
weigh_append f [] ys = omega arith
weigh_append f (x ∷ xs) ys = omega (arith, weigh_append f xs ys)

visit_weight :
    (f : ℕ → ℕ) (fuel : ℕ) (stack : List Tree)
    → weigh_stack (λ _. 1) stack ≤ fuel
    → (items : List ℕ) × (visit fuel stack ≡ some items)
      × (weigh_items f items ≡ weigh_stack f stack)
unfolding visit weigh_items weigh_stack weigh_tree
visit_weight f fuel [] h = ([], ground arith, refl)
visit_weight f zero (item i ts ∷ stack) h = absurd (omega arith)
visit_weight f (suc fuel) (item i ts ∷ stack) h =
    let (items, visited, weight) =
      visit_weight f fuel (push_children ts stack) (omega (arith, weigh_push (λ _. 1) ts stack)) in
    (i ∷ items, ground (arith, visited), omega (arith, weight, weigh_push f ts stack))

visit_children_weight :
    (f : ℕ → ℕ) (fuel : ℕ) (ts : Forest)
    → weigh_forest (λ _. 1) ts ≤ fuel
    → (items : List ℕ) × (visit_children fuel ts ≡ some items)
      × (weigh_items f items ≡ weigh_forest f ts + weigh_roots f ts)
unfolding visit_children weigh_items weigh_stack weigh_forest weigh_tree weigh_roots
visit_children_weight f fuel none_left h = ([], refl, refl)
visit_children_weight f fuel (child (item i ts) rest) h =
    let (items, visited, weight) = visit_weight f fuel (item i ts ∷ []) (omega arith) in
    let (others, visited', weight') = visit_children_weight f fuel rest (omega arith) in
    (
      i ∷ (items ++ others),
      ground (arith, visited, visited'),
      omega (arith, weight, weight', weigh_append f items others),
    )

-- With as many rounds as there are items below the item, the collection ends; it has every item below
-- once, and each child of the item once more: for every weight of the items, the sum over the
-- collection is the sum over the items below and the sum over the children.
pub descendents_weight :
    (f : ℕ → ℕ) (i : ℕ) (children : Forest) (fuel : ℕ)
    → items_below (item i children) ≤ fuel
    → (items : List ℕ) × (descendents fuel (item i children) ≡ some items)
      × (weigh_items f items ≡ weigh_forest f children + weigh_roots f children)
unfolding descendents items_below
descendents_weight f i children fuel h = visit_children_weight f fuel children h
