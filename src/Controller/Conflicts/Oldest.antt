-- ===== src/Controller/Conflicts/Oldest.antt =====
-- Which revision is kept.
use mathlib.Core.List.Perm as Perms
use Prim.Native.String.{String}
use feather.Common.{
  length, ltb, nat_eq, string_eq, list_eq, ℕ, ◌≤◌, ◌≡◌, refl, ap, ◌∙◌, ◌≢◌, ◌⊎◌, inl, inr, Bool,
  true, false, some, List, [], ◌∷◌, ◌++◌, map, arith,
}
use feather.Controller.Conflicts.{
  Comparison, ordered_ascending, ordered_same, ordered_descending, Revision, Call, delete_revision,
  create_revision, compare_times, compare_revisions, insert_sorted, sort_revisions,
  delete_revisions, keep_first, resolve_conflicting_revisions,
}
use feather.Foundation.{returned}
use mathlib.Core.List.{Perm}

-- Every revision of the list has a time, and none an earlier one than `t`.
unfoldable pub NotBefore : {P : Type 0} → ℕ → List (Revision P) → Type 0
NotBefore t [] = Unit
NotBefore t (x ∷ xs) = ((u : ℕ) × (x.updated_at ≡ some u) × (t ≤ u)) × NotBefore t xs

-- The first revision of the list has a time, and no other has an earlier one.
pub FirstIsOldest : {P : Type 0} → List (Revision P) → Type 0
unfolding NotBefore
FirstIsOldest [] = Unit
FirstIsOldest (x ∷ xs) = (t : ℕ) × (x.updated_at ≡ some t) × NotBefore t xs

is_descending : (c : Comparison) → (c ≡ ordered_descending) ⊎ (c ≢ ordered_descending)
is_descending ordered_ascending = inr (λ e. ground (arith, e))
is_descending ordered_same = inr (λ e. ground (arith, e))
is_descending ordered_descending = inl refl

module _ {P : Type 0} (compare_ids : String → String → Comparison) where
  NotBefore-mono : (s t : ℕ) (xs : List (Revision P)) → s ≤ t → NotBefore t xs → NotBefore s xs
  unfolding NotBefore
  NotBefore-mono s t [] h k = tt
  NotBefore-mono s t (x ∷ xs) h ((u, at, k), later) =
      ((u, at, omega arith), NotBefore-mono s t xs h later)

  -- Revisions with times compare; a result other than NSOrderedDescending bounds the first time by the
  -- second, and that result bounds the second by the first.
  compare_timed :
      (a b : Revision P) (t u : ℕ)
      → a.updated_at ≡ some t
      → b.updated_at ≡ some u
      → (c : Comparison) × (compare_revisions compare_ids a b ≡ returned c)
        × (c ≡ ordered_descending → u ≤ t)
        × ((c ≢ ordered_descending) → t ≤ u)
  unfolding compare_revisions compare_times
  compare_timed a b t u h k = elim (ordered (ltb t u) (ltb u t) refl refl) [
    | inl (lt, _) ↦ (
      ordered_ascending,
      ground (arith, h, k, lt),
      λ e. absurd (ground (arith, e)),
      λ e. ground arith,
    )
    | inr (inl (ge, gt)) ↦
        (ordered_descending, ground (arith, h, k, ge, gt), λ e. ground arith, λ e. absurd (e refl))
    | inr (inr (ge, le)) ↦ (
      compare_ids a.revision_id b.revision_id,
      ground (arith, h, k, ge, le),
      λ e. ground arith,
      λ e. ground arith,
    )
  ]
    where
      ordered :
          (p q : Bool)
          → ltb t u ≡ p
          → ltb u t ≡ q
          → ((p ≡ true) × (ltb t u ≡ true))
            ⊎ (((ltb t u ≡ false) × (ltb u t ≡ true)) ⊎ ((ltb t u ≡ false) × (ltb u t ≡ false)))
      ordered true q e f = inl (refl, e)
      ordered false true e f = inr (inl (e, f))
      ordered false false e f = inr (inr (e, f))

  insert_here :
      (c : Comparison) (r x : Revision P) (xs : List (Revision P))
      → compare_revisions compare_ids r x ≡ returned c
      → c ≢ ordered_descending
      → insert_sorted compare_ids r (x ∷ xs) ≡ returned (r ∷ x ∷ xs)
  unfolding insert_sorted
  insert_here ordered_ascending r x xs h k = rw h refl
  insert_here ordered_same r x xs h k = rw h refl
  insert_here ordered_descending r x xs h k = absurd (k refl)

  insert_later :
      (r x : Revision P) (xs ys : List (Revision P))
      → compare_revisions compare_ids r x ≡ returned ordered_descending
      → insert_sorted compare_ids r xs ≡ returned ys
      → insert_sorted compare_ids r (x ∷ xs) ≡ returned (x ∷ ys)
  unfolding insert_sorted
  insert_later r x xs ys h k = rw (h, k) refl

  insert_keeps :
      (t u : ℕ) (r : Revision P) (xs : List (Revision P))
      → r.updated_at ≡ some u
      → t ≤ u
      → NotBefore t xs
      → (ys : List (Revision P)) × (insert_sorted compare_ids r xs ≡ returned ys)
        × Perm ys (r ∷ xs)
        × NotBefore t ys
  unfolding insert_sorted NotBefore
  insert_keeps t u r [] at h k = (r ∷ [], refl, Perms.refl (r ∷ []), ((u, at, h), tt))
  insert_keeps t u r (x ∷ xs) at h ((v, at', k), later) =
      let (c, compared, _, _) = compare_timed r x u v at at' in
      let (ys, made, kept, above) = insert_keeps t u r xs at h later in
      elim (is_descending c) [
        | inl d ↦ (
          x ∷ ys,
          insert_later r x xs ys (compared ∙ ap returned d) made,
          Perms.trans (Perms.cons x kept) (Perms.swap r x xs),
          ((v, at', k), above),
        )
        | inr d ↦ (
          r ∷ x ∷ xs,
          insert_here c r x xs compared d,
          Perms.refl (r ∷ x ∷ xs),
          ((u, at, h), ((v, at', k), later)),
        )
      ]

  insert_oldest :
      (u : ℕ) (r : Revision P) (xs : List (Revision P))
      → r.updated_at ≡ some u
      → FirstIsOldest xs
      → (ys : List (Revision P)) × (insert_sorted compare_ids r xs ≡ returned ys)
        × Perm ys (r ∷ xs)
        × FirstIsOldest ys
  unfolding insert_sorted NotBefore FirstIsOldest
  insert_oldest u r [] at k = (r ∷ [], refl, Perms.refl (r ∷ []), (u, at, tt))
  insert_oldest u r (x ∷ xs) at (v, at', later) =
      let (c, compared, below, over) = compare_timed r x u v at at' in
      elim (is_descending c) [
        | inl d ↦
            let (ys, made, kept, above) = insert_keeps v u r xs at (below d) later in
            (
              x ∷ ys,
              insert_later r x xs ys (compared ∙ ap returned d) made,
              Perms.trans (Perms.cons x kept) (Perms.swap r x xs),
              (v, at', above),
            )
        | inr d ↦ (
          r ∷ x ∷ xs,
          insert_here c r x xs compared d,
          Perms.refl (r ∷ x ∷ xs),
          (u, at, ((v, at', over d), NotBefore-mono u v xs (over d) later)),
        )
      ]

  sort_oldest :
      (revs : List (Revision P))
      → NotBefore 0 revs
      → (ys : List (Revision P)) × (sort_revisions compare_ids revs ≡ returned ys)
        × Perm ys revs
        × FirstIsOldest ys
  unfolding sort_revisions NotBefore FirstIsOldest
  sort_oldest [] h = ([], refl, Perms.refl [], tt)
  sort_oldest (r ∷ revs) ((u, at, _), later) =
      let (ys, sorted, kept, oldest) = sort_oldest revs later in
      let (zs, made, kept', oldest') = insert_oldest u r ys at oldest in
      (zs, rw (sorted, made) refl, Perms.trans kept' (Perms.cons r kept), oldest')

  delete_all :
      (answers : Call P → Bool) (revs : List (Revision P))
      → ((c : Call P) → answers c ≡ true)
      → delete_revisions compare_ids answers revs ≡ (true, map delete_revision revs)
  unfolding delete_revisions
  delete_all answers [] h = refl
  delete_all answers (r ∷ revs) h = rw (h (delete_revision r), delete_all answers revs h) refl

  resolved :
      (answers : Call P → Bool) (revs ys : List (Revision P))
      → 2 ≤ length revs
      → sort_revisions compare_ids revs ≡ returned ys
      → Perm ys revs
      → FirstIsOldest ys
      → ((c : Call P) → answers c ≡ true)
      → (kept : Revision P) × (others : List (Revision P)) × (t : ℕ)
        × (resolve_conflicting_revisions compare_ids answers (some revs)
            ≡ returned (true, map delete_revision others ++ (create_revision kept ∷ [])))
        × Perm (kept ∷ others) revs
        × (kept.updated_at ≡ some t)
        × NotBefore t others
  unfolding resolve_conflicting_revisions keep_first FirstIsOldest
  resolved answers revs [] many sorted p oldest h =
      let empty : revs ≡ [] = Perms.eq-nil (Perms.symm p) in absurd (ground arith)
  resolved answers revs (kept ∷ others) many sorted p (t, at, later) h =
      let test : ltb (length revs) 2 ≡ false = ground arith in
      let deleted = delete_all answers others h in
      (
        kept,
        others,
        t,
        ground (arith, test, sorted, deleted, h (create_revision kept)),
        p,
        at,
        later,
      )

  -- Where a document has two or more conflicting revisions, each has a time at which it was updated,
  -- and every call made of the document succeeds, the resolution succeeds: it deletes all revisions
  -- but one and then creates a revision with the properties of that one, and no other revision was
  -- updated before it.
  pub resolve_keeps_oldest :
      (answers : Call P → Bool) (revs : List (Revision P))
      → 2 ≤ length revs
      → NotBefore 0 revs
      → ((c : Call P) → answers c ≡ true)
      → (kept : Revision P) × (others : List (Revision P)) × (t : ℕ)
        × (resolve_conflicting_revisions compare_ids answers (some revs)
            ≡ returned (true, map delete_revision others ++ (create_revision kept ∷ [])))
        × Perm (kept ∷ others) revs
        × (kept.updated_at ≡ some t)
        × NotBefore t others
  unfolding resolve_conflicting_revisions FirstIsOldest NotBefore
  resolve_keeps_oldest answers revs many timed h =
      let (ys, sorted, kept, oldest) = sort_oldest revs timed in
      resolved answers revs ys many sorted kept oldest h
