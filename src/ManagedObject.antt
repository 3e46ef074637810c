-- ===== src/ManagedObject.antt =====
-- MPManagedObject: Feather/Sources/Model/MPManagedObject.m, with the notifications that
-- MPManagedObjectsController posts for an object. The superclass is the parameter `Couch`.
pub mod Write
pub mod Save
pub mod Share
pub mod Samples
use Prim.Native.String.{String}
use feather.Common.{
  if◌then◌else◌, nat_eq, string_eq, list_eq, ℕ, ◌+◌, Bool, Option, none, some, List, ◌∷◌,
}
use feather.Json.{Value, Fields}

-- MPChangeType and MPManagedObjectChangeSource.
pub data Change : Type 0 where
  add remove update : Change

pub data Source : Type 0 where
  internal external api : Source

-- A notification about the object: of a recent change (`has…`), of a past change (`did…`), each with
-- the source of its `userInfo` if there is one, or of the object's being shared.
pub data Posting : Type 0 where
  recent past : Change → Option Source → Posting
  shared : Posting

-- The state of one object: that of the superclass, the fields of MPManagedObject, the flag
-- `needsSave` of the embedded object under each key, the notifications posted about the object, the
-- newest first, and how often the delegate was told of a change. In `cached_tag`, nil is `none` and
-- NSNull is `some null`.
pub record Object (M : Type 0) : Type 0 where
  pub model : M
  pub is_new : Bool
  pub deleted_document_id : Option String
  pub cached_tag : Option Value
  pub embedded_needs_save : String → Bool
  pub posted : List Posting
  pub changes_counted : ℕ

-- What the runtime knows of the object's class, and of classes by name.
pub record Class : Type 0 where
  pub embedded_properties : List String
  pub tracks_session_id : Bool
  pub is_embedded_class : String → Bool

-- The surroundings of a call: the time, the package's session, whether the package controller's
-- delegate counts changes, the identifier of the next NSUUID, and the JSON parser.
pub record Surroundings : Type 0 where
  pub now : ℕ
  pub session_id : String
  pub delegate_counts : Bool
  pub uuid : String
  pub parse : String → Option Fields

-- MPManagedObjectsController's `didSaveObject:`, `didUpdateObject:` and `didDeleteObject:`.
unfoldable pub post_change :
    {M : Type 0} → Surroundings → Change → Option Source → Object M → Object M
post_change env change source o = record o {
  posted = past change source ∷ recent change source ∷ o.posted;
  changes_counted = o.changes_counted + (if env.delegate_counts then 1 else 0);
}

unfoldable pub did_save_object : {M : Type 0} → Surroundings → Object M → Object M
unfolding post_change
did_save_object env o = post_change env add (some internal) o

unfoldable pub did_update_object : {M : Type 0} → Surroundings → Object M → Object M
unfolding post_change
did_update_object env o = post_change env update none o

unfoldable pub did_delete_object : {M : Type 0} → Surroundings → Object M → Object M
unfolding post_change
did_delete_object env o = post_change env remove none o
