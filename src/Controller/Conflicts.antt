-- ===== src/Controller/Conflicts.antt =====
-- `resolveConflictingRevisionsForObject:error:`. The revisions of a document are those that Couchbase
-- Lite gives, the comparison of their identifiers is `CBLCompareRevIDs`, and `answers` says which of the
-- calls made of the document succeed.
pub mod Oldest
use Prim.Native.String.{String}
use feather.Common.{
  length, ltb, if◌then◌else◌, nat_eq, string_eq, list_eq, ℕ, Bool, true, false, Option, none, some,
  List, [], ◌∷◌, ◌++◌,
}
use feather.Foundation.{Exception, Outcome, returned, raised, ◌>>=◌, ◌>>◌}

-- NSComparisonResult
pub data Comparison : Type 0 where
  ordered_ascending ordered_same ordered_descending : Comparison

pub record Revision (P : Type 0) : Type 0 where
  pub revision_id : String
  pub updated_at : Option ℕ
  pub properties : P

-- What is asked of the document: to delete a revision, or to create one with the properties of
-- another.
pub data Call (P : Type 0) : Type 0 where
  delete_revision create_revision : Revision P → Call P

-- `[a compare:b]`: a message to nil gives the same as NSOrderedSame, and an argument of nil raises.
pub compare_times : Option ℕ → Option ℕ → Outcome Comparison
compare_times none b = returned ordered_same
compare_times (some a) none = raised Exception.invalid_argument
compare_times (some a) (some b) =
    returned
      (if ltb a b then ordered_ascending else if ltb b a then ordered_descending else ordered_same)

module _ {P : Type 0} (compare_ids : String → String → Comparison) where
  pub compare_revisions : Revision P → Revision P → Outcome Comparison
  unfolding compare_times
  compare_revisions a b = do
    by_time ← compare_times a.updated_at b.updated_at
    returned (elim by_time [ ordered_same ↦ compare_ids a.revision_id b.revision_id | c ↦ c ])

  -- `sortedArrayUsingComparator:`
  pub insert_sorted : Revision P → List (Revision P) → Outcome (List (Revision P))
  unfolding compare_revisions
  insert_sorted r [] = returned (r ∷ [])
  insert_sorted r (x ∷ xs) = do
    c ← compare_revisions r x
    elim c [
      | ordered_descending ↦ (do ys ← insert_sorted r xs; returned (x ∷ ys))
      | _ ↦ returned (r ∷ x ∷ xs)
    ]

  pub sort_revisions : List (Revision P) → Outcome (List (Revision P))
  unfolding insert_sorted
  sort_revisions [] = returned []
  sort_revisions (r ∷ revs) = do ys ← sort_revisions revs; insert_sorted r ys

  -- The loop that deletes revisions until a deletion fails, with the calls it makes.
  pub delete_revisions : (Call P → Bool) → List (Revision P) → Bool × List (Call P)
  delete_revisions answers [] = (true, [])
  delete_revisions answers (r ∷ revs) =
      let (done, later) = delete_revisions answers revs in
      if answers (delete_revision r)
      then (done, delete_revision r ∷ later)
      else (false, delete_revision r ∷ [])

  pub keep_first : (Call P → Bool) → List (Revision P) → Outcome (Bool × List (Call P))
  unfolding delete_revisions
  keep_first answers [] = raised Exception.range
  keep_first answers (kept ∷ others) =
      let (deleted, calls) = delete_revisions answers others in
      returned (
        if deleted
        then (answers (create_revision kept), calls ++ (create_revision kept ∷ []))
        else (false, calls))

  -- The revisions are `none` where they cannot be got.
  pub resolve_conflicting_revisions :
      (Call P → Bool) → Option (List (Revision P)) → Outcome (Bool × List (Call P))
  unfolding sort_revisions keep_first
  resolve_conflicting_revisions answers none = returned (false, [])
  resolve_conflicting_revisions answers (some revs) =
      let resolved = (do sorted ← sort_revisions revs; keep_first answers sorted) in
      if ltb (length revs) 2 then returned (true, []) else resolved
