-- ===== src/ManagedObject/Save/Tag.antt =====
-- The CloudKit change tag of an object: the getter, the setter and a save.
use Prim.Native.String.{String}
use feather.Common.{
  if◌then◌else◌, ◌==◌, nat_eq, string_eq, list_eq, is_some, ◌≡◌, refl, ◌∙◌, inl, inr, Bool, true,
  false, not, none, some, arith,
}
use feather.Couch.{Couch}
use feather.Foundation.{returned, assert, >>=-eq-returned}
use feather.Json.{Value, text, number, is_equal}
use feather.ManagedObject.{Object, Class, Surroundings}
use feather.ManagedObject.Save.{
  has_time, write, update_timestamps, cloud_kit_change_tag, set_cloud_kit_change_tag, is_clean,
  store_tag, prepare, save_object,
}
use feather.ManagedObject.Save.Stamps.{write_if_frame, save_object_values}
use feather.ManagedObject.Write.{set_value}
use feather.ManagedObject.Write.Once.{set_value_cases}

module _ (couch : Couch) (class : Class) (env : Surroundings) where
  open couch use {Model, value, document_id, needs_save}

  no_tag :
      (s : String) (o : Object Model)
      → o.cached_tag ≡ some (text s)
      → (cloud_kit_change_tag couch class env o).0 ≡ none
  unfolding cloud_kit_change_tag is_equal
  no_tag s o cached = ground (arith, cached)

  store_tag_none :
      (s : String) (o o' : Object Model)
      → o.cached_tag ≡ some (text s)
      → store_tag couch class env o ≡ returned o'
      → o'.model ≡ o.model
  unfolding store_tag cloud_kit_change_tag is_equal
  store_tag_none s o o' cached h = ground (arith, cached)

  -- A write of another property keeps the tag, the cached one and the saved one.
  write_if_tag :
      (b : Bool) (p : String) (v : Value) (o o' : Object Model)
      → (p == "cloudKitChangeTag") ≡ false
      → (if b then write couch class env p v o else returned o) ≡ returned o'
      → (o'.cached_tag ≡ o.cached_tag)
        × (value o'.model "cloudKitChangeTag" ≡ value o.model "cloudKitChangeTag")
  unfolding write
  write_if_tag false p v o o' other h = ground arith
  write_if_tag true p v o o' other h =
      let ((o₁, done), written, e) = >>=-eq-returned (set_value couch class env p (some v) o) _ h in
      let kept : o'.cached_tag ≡ o.cached_tag =
        elim (set_value_cases couch class env p (some v) o o₁ done written) [
          | inl same ↦ ground arith
          | inr (w, same, _) ↦ ground arith
        ] in
      (kept, write_if_frame couch class env true p "cloudKitChangeTag" v o o' other h)

  prepare_tag :
      (s : String) (o o' : Object Model)
      → o.cached_tag ≡ some (text s)
      → prepare couch class env o ≡ returned o'
      → value o'.model "cloudKitChangeTag" ≡ value o.model "cloudKitChangeTag"
  unfolding prepare update_timestamps
  prepare_tag s o o' cached h =
      let (_, _, rest) = >>=-eq-returned (assert (is_some (document_id o.model))) _ h in
      let (o₂, stamped, rest₂) = >>=-eq-returned (update_timestamps couch class env o) _ rest in
      let (exists, _, rest') =
        >>=-eq-returned (has_time couch class env (value o.model "createdAt")) _ stamped in
      let (o₁, created, updated) =
        >>=-eq-returned
          (if exists then returned o else write couch class env "createdAt" (number env.now) o) _
          rest' in
      let (o₃, session, tagged) =
        >>=-eq-returned
          (if class.tracks_session_id
            then write couch class env "sessionID" (text env.session_id) o₂
            else returned o₂)
          _ rest₂ in
      let (c₁, v₁) =
        write_if_tag (not exists) "createdAt" (number env.now) o o₁ refl (ground arith) in
      let (c₂, v₂) =
        write_if_tag (needs_save o₁.model) "updatedAt" (number env.now) o₁ o₂ refl updated in
      let (c₃, v₃) =
        write_if_tag class.tracks_session_id "sessionID" (text env.session_id) o₂ o₃ refl session in
      let last = store_tag_none s o₃ o' (c₃ ∙ c₂ ∙ c₁ ∙ cached) tagged in rw last (v₃ ∙ v₂ ∙ v₁)

  -- A change tag that was set is not read back, and a save with something to save, where it raises no
  -- exception, leaves the saved change tag as it was.
  pub set_tag_lost :
      (s : String) (o o' : Object Model) (done : Bool)
      → is_clean couch class env o ≡ false
      → save_object couch class env (set_cloud_kit_change_tag couch class env (some (text s)) o)
        ≡ returned (o', done)
      → ((cloud_kit_change_tag couch class env
            (set_cloud_kit_change_tag couch class env (some (text s)) o)).0
          ≡ none)
        × (value o'.model "cloudKitChangeTag" ≡ value o.model "cloudKitChangeTag")
  unfolding set_cloud_kit_change_tag is_clean
  set_tag_lost s o o' done dirty h =
      let set : Object Model = set_cloud_kit_change_tag couch class env (some (text s)) o in
      let (o₁, prepared, same) = save_object_values couch class env set o' done dirty h in
      (no_tag s set refl, same "cloudKitChangeTag" ∙ prepare_tag s set o₁ refl prepared)
