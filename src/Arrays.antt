-- ===== src/Arrays.antt =====
-- The category on NSArray and NSMutableArray: Feather/Sources/Categories/NSArray+MPExtensions.m. A
-- block is a function; `arc4random` is a function from the number of the draw.
pub mod Search
pub mod Shuffle
pub mod Stack
pub mod Classes
mod Tests
use feather.Common.{
  length, get_elem?, take, drop, contains, count, ltb, leb, if◌then◌else◌, Eq, nat_eq, list_eq,
  string_eq, ℕ, zero, suc, ◌+◌, ◌-◌, ◌%◌, Bool, Option, none, some, List, [], ◌∷◌, ◌++◌,
}
use feather.Foundation.{remove_object, Exception, Outcome, returned, raised, ◌>>=◌, ◌>>◌, assert}

module _ {ℓ} {A : Type ℓ} where
  map_from : {B : Type ℓ} → (A → ℕ → Option B) → ℕ → List A → List B
  map_from block i [] = []
  map_from block i (x ∷ xs) = elim (block x i) [
    | some y ↦ y ∷ map_from block (suc i) xs
    | none ↦ map_from block (suc i) xs
  ]

  -- `nilFilteredMapUsingBlock:`
  pub nil_filtered_map : {B : Type ℓ} → (A → ℕ → Option B) → List A → List B
  unfolding map_from
  nil_filtered_map block xs = map_from block 0 xs

  map_all_from : {B : Type ℓ} → (A → ℕ → Option B) → ℕ → List A → Outcome (List B)
  map_all_from block i [] = returned []
  map_all_from block i (x ∷ xs) = elim (block x i) [
    | none ↦ raised Exception.assertion
    | some y ↦ (do ys ← map_all_from block (suc i) xs; returned (y ∷ ys))
  ]

  -- `mapObjectsUsingBlock:`, which asserts that the block gives an object.
  pub map_objects : {B : Type ℓ} → (A → ℕ → Option B) → List A → Outcome (List B)
  unfolding map_all_from
  map_objects block xs = map_all_from block 0 xs

  first_from : (A → Bool) → ℕ → List A → Option (A × ℕ)
  first_from matches i [] = none
  first_from matches i (x ∷ xs) = if matches x then some (x, i) else first_from matches (suc i) xs

  -- `firstObjectMatching:index:`: the object and the index that is written.
  pub first_object_matching : (A → Bool) → List A → Option (A × ℕ)
  unfolding first_from
  first_object_matching matches xs = first_from matches 0 xs

  -- `subarrayWithRange:`
  subarray : ℕ → ℕ → List A → Outcome (List A)
  subarray start count xs =
      if leb (start + count) (length xs)
      then returned (take count (drop start xs))
      else raised Exception.range

  -- `subarrayUpToIncludingIndex:`
  pub subarray_up_to : List A → ℕ → Outcome (List A)
  unfolding subarray
  subarray_up_to xs i =
      let last = if ltb (length xs - 1) i then length xs - 1 else i in
      if ltb (length xs) 1 then returned xs else subarray 0 (last + 1) xs

  -- `subarrayFromIndex:`
  pub subarray_from : List A → ℕ → Outcome (List A)
  unfolding subarray
  subarray_from xs i = do assert (ltb i (length xs)); subarray i (length xs - i) xs

  -- `arrayByRemovingLastObject`
  pub removing_last : List A → Outcome (List A)
  unfolding subarray
  removing_last xs = if leb (length xs) 1 then returned [] else subarray 0 (length xs - 1) xs

  -- `exchangeObjectAtIndex:withObjectAtIndex:`
  pub replace : List A → ℕ → A → List A
  replace [] i a = []
  replace (x ∷ xs) zero a = a ∷ xs
  replace (x ∷ xs) (suc i) a = x ∷ replace xs i a

  object_at : List A → ℕ → Outcome A
  object_at xs i = elim (get_elem? xs i) [ none ↦ raised Exception.range | some x ↦ returned x ]

  pub exchange : List A → ℕ → ℕ → Outcome (List A)
  unfolding object_at replace
  exchange xs i j = do
    x ← object_at xs i
    y ← object_at xs j
    returned (replace (replace xs i y) j x)

  -- The loop of `arrayByRandomizingOrder` from an index on, with the number of rounds left.
  shuffle_from : (ℕ → ℕ) → ℕ → ℕ → List A → Outcome (List A)
  unfolding exchange
  shuffle_from random i zero xs = returned xs
  shuffle_from random i (suc left) xs = do
    ys ← exchange xs i (random i % (suc left) + i)
    shuffle_from random (suc i) left ys

  pub shuffle : (ℕ → ℕ) → List A → Outcome (List A)
  unfolding shuffle_from
  shuffle random xs = shuffle_from random 0 (length xs) xs

  -- `popObject`, `pushObject:` and `pushObjectsInArray:`
  pub pop_object : List A → Option A × List A
  pop_object [] = (none, [])
  pop_object (x ∷ xs) = (some x, xs)

  pub push_object : List A → A → List A
  push_object xs a = a ∷ xs

  pub push_objects : List A → Option (List A) → List A
  push_objects xs none = xs
  push_objects xs (some ys) = if ltb 0 (length ys) then ys ++ xs else xs

-- MPValueToggleResult
pub data Toggled : Type 0 where
  removed added : Toggled

-- `toggleValue:`
pub toggle_value {ℓ} : {A : Type ℓ} ⦃e : Eq A⦄ → List A → A → Toggled × List A
unfolding remove_object
toggle_value xs a = if contains xs a then (removed, remove_object xs a) else (added, xs ++ (a ∷ []))

-- `arrayByRemovingObject:`
pub array_by_removing_object {ℓ} : {A : Type ℓ} ⦃e : Eq A⦄ → List A → A → List A
unfolding remove_object
array_by_removing_object xs a = remove_object xs a
