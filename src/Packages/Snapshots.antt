-- ===== src/Packages/Snapshots.antt =====
-- Snapshots of a package: `newSnapshotWithName:error:` and `restoreFromSnapshotWithName:error:` of
-- Feather/Sources/Database Packages/MPDatabasePackageController.m, with `newSnapshotWithName:snapshotHandler:`
-- and `snapshottedObjectsForSnapshot:` of Feather/Sources/Model Controllers/MPSnapshotsController.m and the
-- initializer of MPSnapshottedObject in Feather/Sources/Model/MPSnapshot.m. Documents, revisions, the
-- contents of a document and errors are known by numbers. What Couchbase Lite answers is a parameter.
pub mod Restored
pub mod Taking
mod Tests
use feather.Common.{
  ℕ, Bool, true, false, not, ◌||◌, ◌&&◌, ◌≡◌, refl, Option, none, some, List, [], ◌∷◌, ◌++◌, map,
  all, if◌then◌else◌, ◌==◌, nat_eq, arith, Bool-cases, inl, inr, ap, ◌∙◌,
}
use feather.Foundation.{Exception, Outcome, returned, raised, ◌>>=◌, ◌>>◌, assert}

-- What the messages to a class may be sent to: a class, or a string such as its name.
pub data Receiver : Type 0 where
  class_object : List ℕ → Receiver
  string_object : List ℕ → Receiver

-- `isSubclassOfClass:`, which a string does not respond to; `is_subclass` is what it answers for a class.
unfoldable pub is_subclass_of_class : (is_subclass : List ℕ → Bool) → Receiver → Outcome Bool
is_subclass_of_class is_subclass (class_object c) = returned (is_subclass c)
is_subclass_of_class is_subclass (string_object s) = raised Exception.invalid_argument

-- A managed object as it is in its database, and MPSnapshottedObject with what is stored for its class.
pub record Managed : Type 0 where
  pub class_name : List ℕ
  pub document : ℕ
  pub revision : ℕ
  pub properties : ℕ

pub record Snapshotted : Type 0 where
  pub snapshot : List ℕ
  pub snapshotted_object : ℕ
  pub stored_class : Receiver
  pub snapshotted_revision : ℕ
  pub snapshotted_properties : ℕ

unfoldable pub new_snapshotted : List ℕ → Managed → Snapshotted
new_snapshotted name object = record {
  snapshot = name;
  snapshotted_object = object.document;
  stored_class = string_object object.class_name;
  snapshotted_revision = object.revision;
  snapshotted_properties = object.properties;
}

-- The snapshot that is returned, the error that the caller gets, and what was saved of the objects.
pub record Taken : Type 0 where
  pub snapshot : Option (List ℕ)
  pub problem : Option ℕ
  pub saved : List Snapshotted

-- What a save leads to: the rest of the loop, or the return with its error.
pub after_save : Option ℕ → List Snapshotted → Taken → Taken
after_save none done later = later
after_save (some e) done later = record { snapshot = none; problem = some e; saved = done }

-- `save` answers `none` where a save succeeds, else its error.
module _ (save : Snapshotted → Option ℕ) where
  pub save_snapshotted : List ℕ → List Snapshotted → List Managed → Taken
  unfolding after_save
  save_snapshotted name done [] = record { snapshot = some name; problem = none; saved = done }
  save_snapshotted name done (o ∷ objects) =
      let so = new_snapshotted name o in
      after_save (save so) done (save_snapshotted name (done ++ so ∷ []) objects)

  -- The objects are those of every controller but that of snapshots.
  -- The handler is given an error where the snapshot itself is not saved, and only returns then.
  unfoldable pub new_snapshot : (failure : Option ℕ) → List ℕ → List Managed → Taken
  unfolding save_snapshotted
  new_snapshot none name objects = save_snapshotted name [] objects
  new_snapshot (some e) name objects = record { snapshot = none; problem = none; saved = [] }

-- The documents, whether the object of one needs saving, what was set in objects, the newest first, and
-- which objects were saved.
pub record Documents : Type 0 where
  pub revision_of : ℕ → ℕ
  pub contents : ℕ → ℕ
  pub needs_save : ℕ → Bool
  pub written : List (ℕ × ℕ)
  pub saveable : List ℕ
  pub saved : List ℕ

-- The query has no keys: it finds what was snapshotted for any snapshot.
unfoldable pub snapshotted_objects_for_snapshot : List ℕ → List Snapshotted → List Snapshotted
snapshotted_objects_for_snapshot name shots = shots

-- What is set in the object of a document, unless it stands as it was snapshotted.
unfoldable pub restore_object : Snapshotted → Documents → Outcome Documents
restore_object so d =
    let i = so.snapshotted_object in
    if d.revision_of i == so.snapshotted_revision && not (d.needs_save i)
    then (do assert (d.contents i == so.snapshotted_properties); returned d)
    else returned (record d {
      needs_save = λ j. if j == i then true else d.needs_save j;
      written = (i, so.snapshotted_properties) ∷ d.written;
    })

-- `snapshottedObjectClass` gives what is stored.
unfoldable pub snapshotted_object_class : Snapshotted → Receiver
snapshotted_object_class so = so.stored_class

-- `is_managed` and `is_snapshotted` are whether a class is one of MPManagedObject and of
-- MPSnapshottedObject; `is_found` whether the class has a controller and the document a model.
module _ (is_managed is_snapshotted : List ℕ → Bool) (is_found : Snapshotted → Bool) where
  unfoldable pub restore_one : Snapshotted → Documents → Outcome Documents
  unfolding restore_object is_subclass_of_class snapshotted_object_class
  restore_one so d = do
    managed ← is_subclass_of_class is_managed (snapshotted_object_class so)
    assert managed
    snapshotted ← is_subclass_of_class is_snapshotted (snapshotted_object_class so)
    assert (not snapshotted)
    assert (is_found so)
    restore_object so d

  unfoldable pub restore_all : List Snapshotted → Documents → Outcome Documents
  unfolding restore_one
  restore_all [] d = returned d
  restore_all (so ∷ shots) d = restore_one so d >>= restore_all shots

-- `saveModels:error:` of the objects that are to be saved, where there are any.
unfoldable pub save_restored : (List ℕ → Bool) → Documents → Bool × Documents
save_restored save_models d = elim d.saveable [
  | [] ↦ (true, d)
  | i ∷ is ↦
      if save_models d.saveable
      then (true, record d { saved = d.saveable ++ d.saved })
      else (false, d)
]

-- `has_model` is whether Couchbase Lite makes a model of the document that has the name as its identifier.
unfoldable pub restore_from_snapshot :
    (is_managed is_snapshotted : List ℕ → Bool)
    → (is_found : Snapshotted → Bool) → (has_model : List ℕ → Bool) → (List ℕ → Bool)
    → List ℕ
    → List Snapshotted
    → Documents
    → Outcome (Bool × Documents)
unfolding restore_all save_restored snapshotted_objects_for_snapshot
restore_from_snapshot is_managed is_snapshotted is_found has_model save_models name shots d =
    if has_model name
    then (do
      d' ←
          restore_all is_managed is_snapshotted is_found
            (snapshotted_objects_for_snapshot name shots) (record d { saveable = [] })
      returned (save_restored save_models d'))
    else returned (false, d)
