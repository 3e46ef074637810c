-- ===== src/ManagedObject/Save.antt =====
-- Saving and deleting: `updateTimestamps`, `cloudKitChangeTag`, `save:`, `saveCompleted`,
-- `deleteDocument:`, `_deleteDocument:` and `documentID` of Feather/Sources/Model/MPManagedObject.m.
-- `self.document.modelObject` is taken to be the object itself, as the code asserts.
pub mod Stamps
pub mod Lifecycle
pub mod Tag
pub mod History
mod Tests
use Prim.Native.String.{String}
use feather.Common.{
  contains, if◌then◌else◌, nat_eq, list_eq, string_eq, is_some, Bool, true, false, ◌&&◌, not,
  Option, none, some,
}
use feather.Couch.{Couch}
use feather.Foundation.{Exception, Outcome, returned, raised, ◌>>=◌, ◌>>◌, assert}
use feather.Json.{Value, null, text, number, is_equal}
use feather.ManagedObject.{
  Object, Class, Surroundings, did_save_object, did_update_object, did_delete_object,
}
use feather.ManagedObject.Write.{set_value}

module _ (couch : Couch) (class : Class) (env : Surroundings) where
  open couch use {Model, document_id, has_revision, value, needs_save, has_changes, save, delete}

  -- Whether `createdAt` is there: a value that is no number and no text has no `doubleValue`.
  pub has_time : Option Value → Outcome Bool
  has_time none = returned false
  has_time (some (number n)) = returned true
  has_time (some (text s)) = returned true
  has_time (some _) = raised Exception.invalid_argument

  -- `[self setValue:@(…) ofProperty:…]`, for its effect.
  unfoldable pub write : String → Value → Object Model → Outcome (Object Model)
  write property v o = do (o', _) ← set_value couch class env property (some v) o; returned o'

  pub update_timestamps : Object Model → Outcome (Object Model)
  unfolding has_time
  update_timestamps o = do
    exists ← has_time (value o.model "createdAt")
    o₁ ← if exists then returned o else write "createdAt" (number env.now) o
    if needs_save o₁.model then write "updatedAt" (number env.now) o₁ else returned o₁

  -- The getter of `cloudKitChangeTag`, which fills the cache, and the setter. The result of the getter
  -- is nil unless the cached value is NSNull.
  pub cloud_kit_change_tag : Object Model → Option Value × Object Model
  cloud_kit_change_tag o =
      let cached : Value = elim o.cached_tag [
        | some tag ↦ tag
        | none ↦ elim (value o.model "cloudKitChangeTag") [ none ↦ null | some tag ↦ tag ]
      ] in
      (if is_equal cached null then some cached else none, record o { cached_tag = some cached })

  pub set_cloud_kit_change_tag : Option Value → Object Model → Object Model
  set_cloud_kit_change_tag tag o = record o { cached_tag = tag }

  pub is_clean : Object Model → Bool
  is_clean o = not (needs_save o.model) && not (has_changes o.model)

  pub save_completed : Object Model → Object Model
  unfolding did_save_object did_update_object
  save_completed o =
      if o.is_new
      then did_save_object env (record o { is_new = false })
      else did_update_object env o

  -- The loop over `embeddedProperties` after a success.
  pub clear_embedded : Object Model → Object Model
  clear_embedded o = record o {
    embedded_needs_save =
        λ key. not (contains class.embedded_properties key) && o.embedded_needs_save key;
  }

  -- The change tag is written over a saved one.
  pub store_tag : Object Model → Outcome (Object Model)
  unfolding write cloud_kit_change_tag
  store_tag o =
      let (current, o') = cloud_kit_change_tag o in
      elim current [
        | none ↦ returned o'
        | some tag ↦
            if is_some (value o'.model "cloudKitChangeTag")
            then write "cloudKitChangeTag" tag o'
            else returned o'
      ]

  -- What is written before the superclass saves.
  pub prepare : Object Model → Outcome (Object Model)
  unfolding update_timestamps write store_tag
  prepare o = do
    assert (is_some (document_id o.model))
    o₁ ← update_timestamps o
    o₂ ← if class.tracks_session_id then write "sessionID" (text env.session_id) o₁ else returned o₁
    store_tag o₂

  -- What follows the superclass's `save:`.
  pub finish : Bool × Model → Object Model → Object Model × Bool
  unfolding save_completed clear_embedded
  finish (true, m) o = (save_completed (clear_embedded (record o { model = m })), true)
  finish (false, m) o = (record o { model = m }, false)

  pub save_object : Object Model → Outcome (Object Model × Bool)
  unfolding is_clean prepare finish
  save_object o =
      let saved = (do o₁ ← prepare o; returned (finish (save o₁.model) o₁)) in
      if is_clean o then returned (o, true) else saved

  -- `_deleteDocument:`
  pub delete_saved : Object Model → Outcome (Object Model × Bool)
  unfolding did_delete_object
  delete_saved o = elim (document_id o.model) [
    | none ↦ raised Exception.assertion
    | some id ↦
        let (success, m) = delete o.model in
        returned (
          if success
          then (did_delete_object env (record o { model = m; deleted_document_id = some id }), true)
          else (record o { model = m }, false))
  ]

  -- `deleteDocument:`, which clears the cached properties in the end.
  pub delete_document : Object Model → Outcome (Object Model × Bool)
  unfolding delete_saved
  delete_document o = do
    (o', success) ← if has_revision o.model then delete_saved o else returned (o, true)
    returned (record o' { cached_tag = none }, success)

  -- `deleteDocument` and `deleteObject`: the result, and whether an error is posted.
  pub delete_object : Object Model → Outcome (Object Model × Bool × Bool)
  unfolding delete_document
  delete_object o = do
    (o', success) ← delete_document o
    returned (record o' { cached_tag = none }, success, not success)

  -- `documentID`
  pub object_id : Object Model → Outcome String
  object_id o = elim (document_id o.model) [
    | some id ↦ returned id
    | none ↦ elim o.deleted_document_id [
      | some id ↦ returned id
      | none ↦ raised Exception.assertion
    ]
  ]
