-- ===== src/Packages/Tests.antt =====
-- Tests of the packages of databases.
use Prim.Native.String.{String}
use feather.Common.{
  ℕ, Bool, true, false, not, ◌&&◌, ◌↔◌, ◌≡◌, refl, Option, none, some, List, [], ◌∷◌, ◌++◌, map,
  all, if◌then◌else◌, ◌==◌, nat_eq, string_eq, list_eq, arith, contains, filter, Bool-cases, inl,
  inr,
}
use feather.Foundation.{Exception, returned, raised}
use feather.Json.{codes}
use feather.Packages.Registry.{
  Event, opens, goes, is_open, run, registered, remove_registered, is_or_none, register, deregister,
  Finds, run-registered,
}
use feather.Packages.Lookup.{
  Classes, cached, closest, value_for, remembered, found_or_searched, controller_or_none, noted,
  controller_for_class, controllers_for_classes,
}
use feather.Packages.Lookup.Answers.{searches, controllers_for_classes-searches}
use feather.Packages.Copies.{
  Files, remove_root, create_root, copy_item, should_copy, make_temporary_copy,
  make_temporary_copy_all,
}
use feather.Packages.Revisions.{
  Revision, is_element, has_prefix, identifier_of, takes_revision, validate_revision,
  takes_revision_iff,
}
use feather.Packages.Replications.{
  Replications, Remote, Step, pushes, pulls, syncs, changes, run_steps, validate_filters,
}
use feather.Packages.Replications.Roles.{Plays, role_of}
use feather.Packages.Replications.Runs.{no_replications, run_steps-roles}
use feather.Packages.Databases.{closed, stays_open, close, close_lem, sync_all}
use feather.Packages.Databases.Errors.{keys, any_fails, fails_as, GivesErrors, sync_all-names}

-- A letter each.
abbrev identifier : ℕ → List ℕ
identifier n = n ∷ []

identifiers_apart : (p q : ℕ) → identifier p ≡ identifier q → p ≡ q
identifiers_apart p q h = cc

nothing_open : Finds identifier [] (λ p. false)
unfolding registered
nothing_open p = refl

-- The package 5 is opened twice, and 6 goes again.
abbrev openings : List Event
openings = opens 5 ∷ opens 6 ∷ opens 5 ∷ goes 6 ∷ []

run-registered_example :
    (r : List (List ℕ × ℕ)) × (run identifier openings [] ≡ returned r)
    × Finds identifier r (is_open openings (λ p. false))
run-registered_example =
    run-registered identifier openings [] (λ p. false) identifiers_apart nothing_open

opened : run identifier openings [] ≡ returned ((5 ∷ [], 5) ∷ [])
unfolding run register deregister registered remove_registered is_or_none
opened = refl

-- A second package of an identifier that is there stops the program.
clash : run (λ p. 1 ∷ []) (opens 5 ∷ opens 6 ∷ []) [] ≡ raised Exception.assertion
unfolding run register registered is_or_none
clash = refl

-- The package has a controller of contributors, known as 7; an author is a contributor.
abbrev classes : Classes
classes = record {
  is_metadata = λ c. c == "MPMetadata";
  is_managed_object = λ c. c == "MPManagedObject";
  is_subclass = λ c. not (c == "MPMetadata");
  is_referencable = λ c. false;
  has_prefix = λ c. true;
  ancestors = λ c. if c == "MPAuthor" then "MPAuthor" ∷ "MPContributor" ∷ [] else c ∷ [];
  responds = λ c. c == "MPContributor";
  controller_of = λ c. if c == "MPContributor" then some 7 else none;
}

abbrev asked : List String
asked = "MPAuthor" ∷ "MPMetadata" ∷ "MPAuthor" ∷ []

controllers_for_classes-searches_example :
    controllers_for_classes classes asked [] ≡ searches classes asked
controllers_for_classes-searches_example = controllers_for_classes-searches classes asked

answers : controllers_for_classes classes asked [] ≡ returned (some 7 ∷ none ∷ some 7 ∷ [])
unfolding controllers_for_classes controller_for_class noted controller_or_none found_or_searched
    cached remembered value_for closest
answers = refl

-- MPManagedObject itself is refused.
refused : controllers_for_classes classes ("MPManagedObject" ∷ []) [] ≡ raised Exception.assertion
unfolding controllers_for_classes controller_for_class noted controller_or_none found_or_searched
    cached remembered value_for closest
refused = refl

-- There is something at the root, and every call succeeds.
abbrev files : Files
files = record {
  exists = true;
  is_directory = true;
  removes = true;
  creates = true;
  contents = some (codes "a.touchdb" ∷ codes "snapshots.touchdb" ∷ []);
  copies = λ f. true;
}

copied : (make_temporary_copy files true true false true).succeeded ≡ true
unfolding make_temporary_copy should_copy
copied = refl

make_temporary_copy_all_example :
    (names : List (List ℕ)) × (files.contents ≡ some names)
    × ((make_temporary_copy files true true false true).calls
        ≡ (if files.exists then remove_root ∷ [] else [])
          ++ (create_root ∷ map copy_item (filter should_copy names)))
make_temporary_copy_all_example = make_temporary_copy_all files false true copied

abbrev validates : List ℕ → Option Bool
validates t = if t == codes "MPNote" then some true else none

abbrev note : Revision
note = record {
  is_deletion = false;
  document_id = some (codes "MPNote:1");
  id = none;
  object_type = some (codes "MPNote");
}

takes_revision_iff_example : (takes_revision validates false note ≡ returned true) ↔ (
    (has_prefix (identifier_of note) (codes "MPNote") ≡ true)
    × (validates (codes "MPNote") ≡ some true))
takes_revision_iff_example = takes_revision_iff validates note (codes "MPNote") refl refl refl

taken : takes_revision validates false note ≡ returned true
unfolding takes_revision validate_revision identifier_of has_prefix is_element
taken = refl

abbrev remote : Remote
remote = record {
  name = codes "db";
  push_filter_name = some (codes "f");
  pull_filter_name = none;
  knows_filter = λ f. f == codes "db/f";
  filters_pushes = true;
  filters_pulls = true;
  ensure_created = returned true;
}

filter_valid : validate_filters remote ≡ returned tt
unfolding validate_filters
filter_valid = refl

-- The push 0 and the pull 1 stop; the pull stays.
abbrev steps : List Step
steps = pushes ∷ pulls ∷ changes 0 true none ∷ changes 1 true none ∷ syncs ∷ []

run_steps-roles_example :
    (r : Replications) × (run_steps remote steps no_replications ≡ returned r)
    × Plays r 1 (role_of steps 0 1 none)
run_steps-roles_example = run_steps-roles remote steps 1 filter_valid refl

abbrev levels : ℕ → ℕ
levels db = if db == 2 then 1 else 0

close_lem_example :
    close levels (λ db. db) (some none) (1 ∷ 2 ∷ [])
    ≡ returned (
        if all (λ d. levels d == 0) (1 ∷ 2 ∷ [])
        then closed (map (λ db. db) (1 ∷ 2 ∷ []))
        else stays_open none)
close_lem_example = close_lem levels (λ db. db) 1 (2 ∷ [])

-- The database 2 fails with the error 7, and 3 is that of snapshots.
abbrev synchronize : ℕ → Bool × Option ℕ
synchronize db = if db == 1 then (true, none) else (false, some 7)

synchronize_errors : GivesErrors synchronize
synchronize_errors db h = elim (Bool-cases (db == 1)) [
  | inl one ↦ absurd (ground (arith, one, h))
  | inr other ↦ (7, ground (arith, other))
]

sync_all-names_example :
    let skips = (λ (db : ℕ). db == 3 && not false) in
    (errors : List (List ℕ × ℕ)) × (sync_all synchronize identifier 3 false (1 ∷ 2 ∷ 3 ∷ [])
      ≡ returned (not (any_fails synchronize skips (1 ∷ 2 ∷ 3 ∷ [])), errors))
    × (contains (keys errors) (2 ∷ [])
        ≡ fails_as synchronize identifier skips (2 ∷ []) (1 ∷ 2 ∷ 3 ∷ []))
sync_all-names_example =
    sync_all-names synchronize identifier 3 false (1 ∷ 2 ∷ 3 ∷ []) (2 ∷ []) synchronize_errors
