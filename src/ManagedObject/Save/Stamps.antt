-- ===== src/ManagedObject/Save/Stamps.antt =====
-- What a save does to the properties: the timestamps, the session and the change tag.
use Prim.Native.String.{String}
use feather.Common.{
  if◌then◌else◌, ◌==◌, nat_eq, string_eq, list_eq, is_some, ℕ, ◌≡◌, refl, ◌∙◌, inl, inr, Bool, true,
  false, Option, none, some, eq_iff, arith,
}
use feather.Couch.{Couch}
use feather.Foundation.{returned, assert, >>=-eq-returned}
use feather.Json.{Value, text, number}
use feather.ManagedObject.{Object, Class, Surroundings, did_save_object, did_update_object}
use feather.ManagedObject.Save.{
  has_time, write, update_timestamps, cloud_kit_change_tag, is_clean, save_completed,
  clear_embedded, store_tag, prepare, finish, save_object,
}
use feather.ManagedObject.Write.{stored_value, is_deleted, store_value, checked, set_value}
use feather.ManagedObject.Write.Once.{set_value_frame}

module _ (couch : Couch) (class : Class) (env : Surroundings) where
  open couch use {
    Model, document_id, value, put, needs_save, value-put, value-save, needs_save-put,
    document_id-put, document_deleted-put, save, document_deleted,
  }

  write_frame :
      (p q : String) (v : Value) (o o' : Object Model)
      → (p == q) ≡ false
      → write couch class env p v o ≡ returned o'
      → value o'.model q ≡ value o.model q
  unfolding write
  write_frame p q v o o' other h =
      let ((o₁, done), written, e) = >>=-eq-returned (set_value couch class env p (some v) o) _ h in
      let same : o₁ ≡ o' = ground arith in
      rw (← same) (
        set_value_frame couch class env p q (some v) o o₁ done written
          (inl (λ e. ground (arith, other, eq_iff p q))))

  -- A write behind a test.
  pub write_if_frame :
      (b : Bool) (p q : String) (v : Value) (o o' : Object Model)
      → (p == q) ≡ false
      → (if b then write couch class env p v o else returned o) ≡ returned o'
      → value o'.model q ≡ value o.model q
  write_if_frame true p q v o o' other h = write_frame p q v o o' other h
  write_if_frame false p q v o o' other h = ground arith

  -- A write of a number or a text to a property that is not written once.
  write_put :
      (p : String) (n : ℕ) (o o' : Object Model)
      → (p == "objectType") ≡ false
      → (p == "_id") ≡ false
      → is_deleted couch o ≡ false
      → write couch class env p (number n) o ≡ returned o'
      → o' ≡ record o { model = put p (some (number n)) o.model }
  unfolding write set_value checked store_value stored_value is_deleted
  write_put p n o o' typed identified here h = ground (arith, typed, identified, here)

  -- `createdAt` where it was there or has been written.
  created :
      (exists : Bool) (o o₁ : Object Model)
      → is_deleted couch o ≡ false
      → exists ≡ is_some (value o.model "createdAt")
      → needs_save o.model ≡ true
      → (if exists then returned o else write couch class env "createdAt" (number env.now) o)
        ≡ returned o₁
      → (value o₁.model "createdAt" ≡ (
          if is_some (value o.model "createdAt")
          then value o.model "createdAt"
          else some (number env.now)))
        × (needs_save o₁.model ≡ true)
        × (is_deleted couch o₁ ≡ false)
  unfolding is_deleted
  created true o o₁ here exists dirty h = ground (arith, here, exists, dirty)
  created false o o₁ here exists dirty h =
      let e = write_put "createdAt" env.now o o₁ refl refl here h in
      let now : Option Value = some (number env.now) in
      ground (
        arith,
        e,
        here,
        exists,
        value-put "createdAt" "createdAt" now o.model,
        document_id-put "createdAt" now o.model,
        document_deleted-put "createdAt" now o.model,
        needs_save-put "createdAt" now o.model (inr dirty),
      )

  -- What `updateTimestamps` leaves.
  update_timestamps_values :
      (o o' : Object Model)
      → is_deleted couch o ≡ false
      → needs_save o.model ≡ true
      → update_timestamps couch class env o ≡ returned o'
      → (value o'.model "createdAt" ≡ (
          if is_some (value o.model "createdAt")
          then value o.model "createdAt"
          else some (number env.now)))
        × (value o'.model "updatedAt" ≡ some (number env.now))
  unfolding update_timestamps has_time
  update_timestamps_values o o' here dirty h =
      let (exists, timed, rest) =
        >>=-eq-returned (has_time couch class env (value o.model "createdAt")) _ h in
      let (o₁, first, rest') =
        >>=-eq-returned
          (if exists then returned o else write couch class env "createdAt" (number env.now) o) _
          rest in
      let (c, d, here₁) = created exists o o₁ here (ground arith) dirty first in
      let e = write_put "updatedAt" env.now o₁ o' refl refl here₁ (ground (arith, d)) in
      let now : Option Value = some (number env.now) in
      ground (
        arith,
        e,
        c,
        value-put "updatedAt" "createdAt" now o₁.model,
        value-put "updatedAt" "updatedAt" now o₁.model,
      )

  write_tag_frame :
      (current : Option Value) (q : String) (o o' : Object Model)
      → ("cloudKitChangeTag" == q) ≡ false
      → (elim current [
        | none ↦ returned o
        | some tag ↦
            if is_some (value o.model "cloudKitChangeTag")
            then write couch class env "cloudKitChangeTag" tag o
            else returned o
      ])
        ≡ returned o'
      → value o'.model q ≡ value o.model q
  write_tag_frame none q o o' other h = ground arith
  write_tag_frame (some tag) q o o' other h =
      write_if_frame (is_some (value o.model "cloudKitChangeTag")) "cloudKitChangeTag" q tag o o'
        other h

  -- What comes after the timestamps leaves the other properties alone.
  pub prepare_values :
      (q : String) (o o' : Object Model)
      → ("sessionID" == q) ≡ false
      → ("cloudKitChangeTag" == q) ≡ false
      → prepare couch class env o ≡ returned o'
      → (o₁ : Object Model) × (update_timestamps couch class env o ≡ returned o₁)
        × (value o'.model q ≡ value o₁.model q)
  unfolding prepare store_tag cloud_kit_change_tag
  prepare_values q o o' s c h =
      let (_, _, rest) = >>=-eq-returned (assert (is_some (document_id o.model))) _ h in
      let (o₁, stamped, rest₁) = >>=-eq-returned (update_timestamps couch class env o) _ rest in
      let (o₂, session, rest₂) =
        >>=-eq-returned
          (if class.tracks_session_id
            then write couch class env "sessionID" (text env.session_id) o₁
            else returned o₁)
          _ rest₁ in
      let (current, o₃) = cloud_kit_change_tag couch class env o₂ in
      (
        o₁,
        stamped,
        write_tag_frame current q o₃ o' c rest₂
            ∙ write_if_frame class.tracks_session_id "sessionID" q (text env.session_id) o₁ o₂ s
                session,
      )

  -- A save with something to save, where it raises no exception, comes from what `prepare` has left.
  pub save_object_values :
      (o o' : Object Model) (done : Bool)
      → is_clean couch class env o ≡ false
      → save_object couch class env o ≡ returned (o', done)
      → (o₁ : Object Model) × (prepare couch class env o ≡ returned o₁)
        × ((q : String) → value o'.model q ≡ value o₁.model q)
  unfolding save_object finish save_completed clear_embedded did_save_object did_update_object
  save_object_values o o' done dirty h =
      let (o₁, prepared, rest) =
        >>=-eq-returned (prepare couch class env o) _ (rw (dirty, save_object) at h) in
      let model : o'.model ≡ (save o₁.model).1 = ground arith in
      (o₁, prepared, λ q. rw model (value-save o₁.model q))

  -- A save of an object that has changed properties and is not deleted, where it raises no exception:
  -- `createdAt` keeps its value, or is the time of the save where it had none, and `updatedAt` is the
  -- time of the save.
  pub save_object_stamps :
      (o o' : Object Model) (done : Bool)
      → is_deleted couch o ≡ false
      → needs_save o.model ≡ true
      → save_object couch class env o ≡ returned (o', done)
      → (value o'.model "createdAt" ≡ (
          if is_some (value o.model "createdAt")
          then value o.model "createdAt"
          else some (number env.now)))
        × (value o'.model "updatedAt" ≡ some (number env.now))
  unfolding is_clean
  save_object_stamps o o' done here dirty h =
      let (o₁, prepared, same) = save_object_values o o' done (ground (arith, dirty)) h in
      let (o₂, stamped, created_at) = prepare_values "createdAt" o o₁ refl refl prepared in
      let (o₃, stamped', updated_at) = prepare_values "updatedAt" o o₁ refl refl prepared in
      let one : o₃ ≡ o₂ = ground arith in
      let (c, u) = update_timestamps_values o o₂ here dirty stamped in
      (same "createdAt" ∙ created_at ∙ c, same "updatedAt" ∙ updated_at ∙ rw one u)
