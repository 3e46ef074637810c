-- ===== src/Controller/Imports.antt =====
-- Objects from JSON: `objectFromJSONDictionary:isExisting:error:` and
-- `objectsFromJSONEncodableObjectArray:error:`. A dictionary is known by a number, and so is an object.
pub mod Everything
use Prim.Native.String.{String}
use feather.Common.{
  length, contains, ltb, if◌then◌else◌, nat_eq, list_eq, string_eq, ℕ, Bool, true, false, ◌&&◌,
  ◌||◌, not, Option, none, some, List, [], ◌∷◌, map, all, ◌==◌,
}
use feather.Foundation.{Exception, Outcome, returned, raised, ◌>>=◌, ◌>>◌, assert}

-- What the code asks of dictionaries and of the database: whether a dictionary is that of a managed
-- object, its document's identifier, the object of the document with it, if there is one, what setting the
-- dictionary's values on an object comes to (ManagedObject.Write models a single value), whether the object
-- then needs saving, whether the dictionary's class is concrete and one of the controller, the new object of
-- a dictionary, the controller of an object, and what `saveModels:error:` comes to behind its assertions: the
-- timestamps and the method of CBLModel.
pub record Import : Type 0 where
  pub is_valid : ℕ → Bool
  pub document_id : ℕ → String
  pub existing : ℕ → Option ℕ
  pub sets : ℕ → Outcome (Unit {0})
  pub changes : ℕ → Bool
  pub is_concrete : ℕ → Bool
  pub is_managed : ℕ → Bool
  pub make : ℕ → ℕ
  pub controller_of : ℕ → ℕ
  pub saves : List ℕ → Outcome Bool

-- An object from a dictionary, whether it needs saving, and what `isExisting` was set to. A new object
-- needs saving.
pub record Loaded : Type 0 where
  pub object : ℕ
  pub id : String
  pub needs_save : Bool
  pub is_existing : Bool

-- `initWithNewDocumentForController:properties:documentID:`
pub new_object : Import → ℕ → Outcome ℕ
new_object db d =
    if db.is_concrete d
    then (do assert (db.is_managed d); db.sets d; returned (db.make d))
    else raised Exception.abstract_class

load_object : Import → ℕ → Option ℕ → Outcome Loaded
unfolding new_object
load_object db d (some o) = do
  db.sets d
  returned (record {
    object = o;
    id = db.document_id d;
    needs_save = db.changes d;
    is_existing = db.changes d;
  })
load_object db d none = do
  o ← new_object db d
  returned (record { object = o; id = db.document_id d; needs_save = true; is_existing = false })

pub object_from_json : Import → ℕ → Outcome (Option Loaded)
unfolding load_object
object_from_json db d =
    let loading = (do loaded ← load_object db d (db.existing d); returned (some loaded)) in
    if db.is_valid d then loading else returned none

-- An object that needs saving, or that was not reported as existing, is put before those after it.
keep_object : Loaded → Option (List Loaded) → Option (List Loaded)
keep_object loaded none = none
keep_object loaded (some others) =
    some (if loaded.needs_save || not loaded.is_existing then loaded ∷ others else others)

-- What an iteration leads to: the return of nil where no object was made, or the rest of the loop.
go_on : Option Loaded → Outcome (Option (List Loaded)) → Outcome (Option (List Loaded))
unfolding keep_object
go_on none later = returned none
go_on (some loaded) later = do others ← later; returned (keep_object loaded others)

-- The loop: the objects to save, or `none` where one could not be made.
pub collect_objects : Import → List ℕ → Outcome (Option (List Loaded))
unfolding object_from_json go_on
collect_objects db [] = returned (some [])
collect_objects db (d ∷ ds) =
    let later = collect_objects db ds in object_from_json db d >>= λ loaded. go_on loaded later

-- Whether no identifier stands twice.
unfoldable pub all_different : List String → Bool
all_different [] = true
all_different (id ∷ ids) = not (contains ids id) && all_different ids

-- The assertion of `saveModels:error:` for each model.
unfoldable pub same_controller : Import → List ℕ → Bool
same_controller db [] = true
same_controller db (o ∷ os) = all (λ p. db.controller_of p == db.controller_of o) (o ∷ os)

-- `saveModels:error:`
pub save_models : Import → List ℕ → Outcome Bool
unfolding same_controller
save_models db objects = do assert (same_controller db objects); db.saves objects

-- What follows the loop.
pub save_objects : Import → List Loaded → Outcome (Option (List ℕ))
unfolding all_different save_models
save_objects db loaded =
    let objects = map (λ l. l.object) loaded in
    let saving = (do
      assert (all_different (map (λ l. l.id) loaded))
      saved ← save_models db objects
      returned (if saved then some objects else none)) in
    if ltb 0 (length loaded) then saving else returned (some [])

pub finish_import : Import → Option (List Loaded) → Outcome (Option (List ℕ))
unfolding save_objects
finish_import db none = returned none
finish_import db (some loaded) = save_objects db loaded

pub objects_from_json : Import → List ℕ → Outcome (Option (List ℕ))
unfolding collect_objects finish_import
objects_from_json db ds = collect_objects db ds >>= finish_import db
