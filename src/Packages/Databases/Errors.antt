-- ===== src/Packages/Databases/Errors.antt =====
-- The errors that a package collects from its databases.
use feather.Common.{
  ℕ, Bool, false, not, ◌||◌, ◌&&◌, ◌≡◌, refl, Option, some, List, [], ◌∷◌, ◌==◌, nat_eq, list_eq,
  contains, arith, Bool-cases, inl, inr, ap, ◌∙◌, list_beq_iff,
}
use feather.Foundation.{returned, ◌>>=◌}
use feather.Packages.Databases.{set_error, note_error, error_of, collect_errors, is_empty, sync_all}

abbrev pub keys : List (List ℕ × ℕ) → List (List ℕ)
keys [] = []
keys ((n, e) ∷ errors) = n ∷ keys errors

-- Whether a database fails that is not skipped, any, and one of a name.
abbrev pub fails : (ℕ → Bool × Option ℕ) → (ℕ → Bool) → ℕ → Bool
fails call skips db = not (skips db || (call db).0)

abbrev pub any_fails : (ℕ → Bool × Option ℕ) → (ℕ → Bool) → List ℕ → Bool
any_fails call skips [] = false
any_fails call skips (db ∷ dbs) = fails call skips db || any_fails call skips dbs

abbrev pub fails_as : (ℕ → Bool × Option ℕ) → (ℕ → List ℕ) → (ℕ → Bool) → List ℕ → List ℕ → Bool
fails_as call name skips n [] = false
fails_as call name skips n (db ∷ dbs) =
    (fails call skips db && name db == n) || fails_as call name skips n dbs

keys-set_error :
    (n m : List ℕ) (e : ℕ) (errors : List (List ℕ × ℕ))
    → contains (keys (set_error n e errors)) m ≡ (n == m || contains (keys errors) m)
unfolding set_error
keys-set_error n m e [] = ground arith
keys-set_error n m e ((k, f) ∷ errors) = elim (Bool-cases (k == n)) [
  | inl same ↦
      let it : k ≡ n = ground (arith, list_beq_iff k n, same) in
      let known : (k == m) ≡ (n == m) = ap (λ j. j == m) it in rw (same) (ground (arith, known))
  | inr other ↦ rw (other) (ground (arith, keys-set_error n m e errors))
]

set_error_some :
    (n : List ℕ) (e : ℕ) (errors : List (List ℕ × ℕ)) → is_empty (set_error n e errors) ≡ false
unfolding set_error
set_error_some n e [] = refl
set_error_some n e ((k, f) ∷ errors) = ground arith

-- Each call that fails gives an error.
abbrev pub GivesErrors : (ℕ → Bool × Option ℕ) → Type 0
GivesErrors call = (db : ℕ) → (call db).0 ≡ false → (e : ℕ) × ((call db).1 ≡ some e)

error_of-names :
    (call : ℕ → Bool × Option ℕ) (name : ℕ → List ℕ) (skips : ℕ → Bool) (db : ℕ)
    (errors : List (List ℕ × ℕ)) (n : List ℕ)
    → GivesErrors call
    → (errors' : List (List ℕ × ℕ)) × (error_of call name skips db errors ≡ returned errors')
      × (contains (keys errors') n
          ≡ (contains (keys errors) n || (fails call skips db && name db == n)))
      × (is_empty errors' ≡ (is_empty errors && not (fails call skips db)))
unfolding error_of note_error
error_of-names call name skips db errors n gives = elim (Bool-cases (skips db || (call db).0)) [
  | inl passes ↦ (errors, rw (passes) refl, ground (arith, passes), ground (arith, passes))
  | inr failing ↦
      let (e, gave) = gives db (ground (arith, failing)) in
      (
        set_error (name db) e errors,
        rw (failing, gave) refl,
        ground (arith, failing, keys-set_error (name db) n e errors),
        ground (arith, failing, set_error_some (name db) e errors),
      )
]

collect_errors-names :
    (call : ℕ → Bool × Option ℕ) (name : ℕ → List ℕ) (skips : ℕ → Bool) (dbs : List ℕ)
    (errors : List (List ℕ × ℕ)) (n : List ℕ)
    → GivesErrors call
    → (errors' : List (List ℕ × ℕ)) × (collect_errors call name skips dbs errors ≡ returned errors')
      × (contains (keys errors') n ≡ (contains (keys errors) n || fails_as call name skips n dbs))
      × (is_empty errors' ≡ (is_empty errors && not (any_fails call skips dbs)))
unfolding collect_errors
collect_errors-names call name skips [] errors n gives = (errors, refl, ground arith, ground arith)
collect_errors-names call name skips (db ∷ dbs) errors n gives =
    let (now, first, named, empty) = error_of-names call name skips db errors n gives in
    let (later, rest, all_named, all_empty) =
      collect_errors-names call name skips dbs now n gives in
    (
      later,
      ap (λ m. m >>= collect_errors call name skips dbs) first ∙ rest,
      ground (arith, named, all_named),
      ground (arith, empty, all_empty),
    )

-- Where each synchronisation that fails gives an error, the package answers YES exactly if no database
-- fails but for that of snapshots where it is skipped, and the errors are kept under the names of the
-- databases that fail, and under no others.
pub sync_all-names :
    (sync : ℕ → Bool × Option ℕ) (name : ℕ → List ℕ) (snapshots : ℕ) (with_snapshots : Bool)
    (dbs : List ℕ) (n : List ℕ)
    → GivesErrors sync
    → let skips = (λ (db : ℕ). db == snapshots && not with_snapshots) in
      (errors : List (List ℕ × ℕ)) × (sync_all sync name snapshots with_snapshots dbs
        ≡ returned (not (any_fails sync skips dbs), errors))
      × (contains (keys errors) n ≡ fails_as sync name skips n dbs)
unfolding sync_all
sync_all-names sync name snapshots with_snapshots dbs n gives =
    let skips = (λ (db : ℕ). db == snapshots && not with_snapshots) in
    let (errors, collected, named, empty) = collect_errors-names sync name skips dbs [] n gives in
    (
      errors,
      ap (λ m. m >>= λ es. returned (is_empty es, es)) collected
          ∙ ap (λ b. returned (b, errors)) empty,
      named,
    )
