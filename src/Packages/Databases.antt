-- ===== src/Packages/Databases.antt =====
-- What a package does with all its databases: `close:`, and `syncWithRemote:`,
-- `pushToRemoteWithErrorDictionary:` and `pullFromRemoteWithErrorDictionary:` with the errors that they
-- collect by the names of databases. A database is known by a number, an error by another.
pub mod Errors
use feather.Common.{
  ℕ, zero, suc, Bool, true, false, not, ◌||◌, ◌&&◌, ◌≡◌, refl, Option, none, some, List, [], ◌∷◌,
  map, all, if◌then◌else◌, ◌==◌, nat_eq, list_eq, contains, arith, Bool-cases, inl, inr, ap, ◌∙◌,
  list_beq_iff,
}
use feather.Foundation.{Exception, Outcome, returned, raised, ◌>>=◌, ◌>>◌, assert}
use feather.Interfaces.Package.{PackageError, ongoing_transaction}

-- What `close:` comes to: the servers it closes, after the listener was stopped, or NO with what the
-- caller's variable for the error has then; or it reads through a pointer that is nil.
pub data Closing : Type 0 where
  closed : List ℕ → Closing
  stays_open : Option PackageError → Closing
  crashes : Closing

-- The loop over the databases, by their levels of transactions.
unfoldable pub level_zero : (ℕ → ℕ) → Bool → List ℕ → Bool
level_zero level so_far [] = so_far
level_zero level so_far (db ∷ dbs) =
    level_zero level (elim (level db) [ zero ↦ so_far | suc k ↦ false ]) dbs

-- The error is set only where the variable that the pointer points to already has one.
refuse : Option (Option PackageError) → Closing
refuse none = crashes
refuse (some none) = stays_open none
refuse (some (some e)) = stays_open (some ongoing_transaction)

-- `error` is the caller's pointer and what it points to.
unfoldable pub close :
    (level server : ℕ → ℕ) → (error : Option (Option PackageError)) → List ℕ → Outcome Closing
unfolding level_zero refuse
close level server error dbs =
    if level_zero level true dbs
    then (do
      assert (elim dbs [ [] ↦ false | db ∷ rest ↦ true ])
      returned (closed (map server dbs)))
    else returned (refuse error)

pub set_error : List ℕ → ℕ → List (List ℕ × ℕ) → List (List ℕ × ℕ)
set_error n e [] = (n, e) ∷ []
set_error n e ((m, f) ∷ errors) =
    let rest = set_error n e errors in if m == n then (n, e) ∷ errors else (m, f) ∷ rest

remove_error : List ℕ → List (List ℕ × ℕ) → List (List ℕ × ℕ)
remove_error n [] = []
remove_error n ((m, f) ∷ errors) =
    let rest = remove_error n errors in if m == n then rest else (m, f) ∷ rest

-- The assignment of nil to a key removes it.
pub note_error : List ℕ → Option ℕ → List (List ℕ × ℕ) → List (List ℕ × ℕ)
unfolding set_error remove_error
note_error n none errors = remove_error n errors
note_error n (some e) errors = set_error n e errors

-- The loop of the three methods: `call` answers whether it succeeds, and with which error.
module _ (call : ℕ → Bool × Option ℕ) (name : ℕ → List ℕ) (skips : ℕ → Bool) where
  pub error_of : ℕ → List (List ℕ × ℕ) → Outcome (List (List ℕ × ℕ))
  unfolding note_error
  error_of db errors =
      if skips db || (call db).0
      then returned errors
      else returned (note_error (name db) (call db).1 errors)

  unfoldable pub collect_errors : List ℕ → List (List ℕ × ℕ) → Outcome (List (List ℕ × ℕ))
  unfolding error_of
  collect_errors [] errors = returned errors
  collect_errors (db ∷ dbs) errors = error_of db errors >>= collect_errors dbs

abbrev pub is_empty : List (List ℕ × ℕ) → Bool
is_empty [] = true
is_empty (e ∷ errors) = false

-- `syncWithRemote:`, which may skip the database of snapshots, and the two others, which skip none.
unfoldable pub sync_all :
    (sync : ℕ → Bool × Option ℕ)
    → (name : ℕ → List ℕ) → (snapshots : ℕ) → (synchronizes_snapshots : Bool) → List ℕ
    → Outcome (Bool × List (List ℕ × ℕ))
unfolding collect_errors
sync_all sync name snapshots synchronizes_snapshots dbs = do
  errors ← collect_errors sync name (λ db. db == snapshots && not synchronizes_snapshots) dbs []
  returned (is_empty errors, errors)

unfoldable pub push_all :
    (ℕ → Bool × Option ℕ) → (ℕ → List ℕ) → List ℕ → Outcome (Bool × List (List ℕ × ℕ))
unfolding collect_errors
push_all push name dbs = do
  errors ← collect_errors push name (λ db. false) dbs []
  returned (is_empty errors, errors)

unfoldable pub pull_all :
    (ℕ → Bool × Option ℕ) → (ℕ → List ℕ) → List ℕ → Outcome (List (List ℕ × ℕ))
unfolding collect_errors
pull_all pull name dbs = collect_errors pull name (λ db. false) dbs []

and_idle :
    (so_far : Bool) (k : ℕ) → (elim k [ zero ↦ so_far | suc k' ↦ false ]) ≡ (so_far && k == 0)
and_idle so_far zero = ground arith
and_idle so_far (suc k) = ground arith

level_zero-all :
    (level : ℕ → ℕ) (so_far : Bool) (dbs : List ℕ)
    → level_zero level so_far dbs ≡ (so_far && all (λ db. level db == 0) dbs)
unfolding level_zero
level_zero-all level so_far [] = ground arith
level_zero-all level so_far (db ∷ dbs) =
    ap (λ b. level_zero level b dbs) (and_idle so_far (level db))
    ∙ (level_zero-all level (so_far && level db == 0) dbs ∙ ground arith)

returned_either :
    (b : Bool) (x y : Closing)
    → (if b then returned x else returned y) ≡ returned (if b then x else y)
returned_either true x y = refl
returned_either false x y = refl

-- For a package with at least a database and a caller whose variable has no error yet: where no database is in a
-- transaction all servers are closed, otherwise none is, the method answers NO, and it sets no error.
pub close_lem :
    (level server : ℕ → ℕ) (db : ℕ) (dbs : List ℕ)
    → close level server (some none) (db ∷ dbs)
      ≡ returned (
          if all (λ d. level d == 0) (db ∷ dbs)
          then closed (map server (db ∷ dbs))
          else stays_open none)
unfolding close refuse
close_lem level server db dbs = rw (level_zero-all level true (db ∷ dbs)) (
    returned_either (all (λ d. level d == 0) (db ∷ dbs)) (closed (map server (db ∷ dbs)))
      (stays_open none))
