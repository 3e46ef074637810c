-- ===== src/ManagedObject/Save/Lifecycle.antt =====
-- What saving and deleting post, and when an object stops being new.
use Prim.Native.String.{String}
use feather.Common.{
  if◌then◌else◌, nat_eq, string_eq, list_eq, Bool-cases, is_some, ◌≡◌, refl, ◌∙◌, ◌⊎◌, inl, inr,
  Bool, true, false, ◌&&◌, not, Option, none, some, List, [], ◌∷◌, ◌++◌, arith,
}
use feather.Couch.{Couch}
use feather.Foundation.{returned, assert, >>=-eq-returned}
use feather.Json.{Value, text, number}
use feather.ManagedObject.{
  add, remove, update, internal, Posting, recent, past, Object, Class, Surroundings,
  did_save_object, did_update_object, did_delete_object,
}
use feather.ManagedObject.Save.{
  has_time, write, update_timestamps, cloud_kit_change_tag, is_clean, save_completed,
  clear_embedded, store_tag, prepare, finish, save_object, delete_saved, delete_document, object_id,
}
use feather.ManagedObject.Write.{is_deleted, set_value}
use feather.ManagedObject.Write.Once.{set_value_cases}

-- The notifications of a save that succeeds, the newest first, where the object is new or not.
abbrev pub saved_postings : Bool → List Posting
saved_postings true = past add (some internal) ∷ recent add (some internal) ∷ []
saved_postings false = past update none ∷ recent update none ∷ []

-- The fields that only the end of a save or a deletion changes.
pub record Keeps {M : Type 0} (o o' : Object M) : Type 0 where
  pub is_new : o'.is_new ≡ o.is_new
  pub posted : o'.posted ≡ o.posted
  pub counted : o'.changes_counted ≡ o.changes_counted
  pub deleted_id : o'.deleted_document_id ≡ o.deleted_document_id

Keeps-refl : {M : Type 0} (o : Object M) → Keeps o o
Keeps-refl o = record { is_new = refl; posted = refl; counted = refl; deleted_id = refl }

Keeps-trans : {M : Type 0} {o₁ o₂ o₃ : Object M} → Keeps o₁ o₂ → Keeps o₂ o₃ → Keeps o₁ o₃
Keeps-trans h k = record {
  is_new = k.is_new ∙ h.is_new;
  posted = k.posted ∙ h.posted;
  counted = k.counted ∙ h.counted;
  deleted_id = k.deleted_id ∙ h.deleted_id;
}

module _ (couch : Couch) (class : Class) (env : Surroundings) where
  open couch use {
    Model, document_id, has_revision, value, put, needs_save, save, delete, document_id-delete,
    delete_deleted, save_clean, document_deleted,
  }

  write-Keeps :
      (p : String) (v : Value) (o o' : Object Model)
      → write couch class env p v o ≡ returned o'
      → Keeps o o'
  unfolding write
  write-Keeps p v o o' h =
      let ((o₁, done), written, e) = >>=-eq-returned (set_value couch class env p (some v) o) _ h in
      elim (set_value_cases couch class env p (some v) o o₁ done written) [
        | inl same ↦ ground arith
        | inr (w, same, _) ↦ ground arith
      ]

  -- A write behind a test.
  write_if_Keeps :
      (b : Bool) (p : String) (v : Value) (o o' : Object Model)
      → (if b then write couch class env p v o else returned o) ≡ returned o'
      → Keeps o o'
  write_if_Keeps true p v o o' h = write-Keeps p v o o' h
  write_if_Keeps false p v o o' h = ground (arith, Keeps-refl o)

  update_timestamps-Keeps :
      (o o' : Object Model) → update_timestamps couch class env o ≡ returned o' → Keeps o o'
  unfolding update_timestamps
  update_timestamps-Keeps o o' h =
      let (exists, _, rest) =
        >>=-eq-returned (has_time couch class env (value o.model "createdAt")) _ h in
      let (o₁, created, rest') =
        >>=-eq-returned
          (if exists then returned o else write couch class env "createdAt" (number env.now) o) _
          rest in
      let first : Keeps o o₁ =
        write_if_Keeps (not exists) "createdAt" (number env.now) o o₁ (ground arith) in
      Keeps-trans first
        (write_if_Keeps (needs_save o₁.model) "updatedAt" (number env.now) o₁ o' rest')

  tag-Keeps : (o : Object Model) → Keeps o (cloud_kit_change_tag couch class env o).1
  unfolding cloud_kit_change_tag
  tag-Keeps o = record { is_new = refl; posted = refl; counted = refl; deleted_id = refl }

  write_tag-Keeps :
      (current : Option Value) (o o' : Object Model)
      → (elim current [
        | none ↦ returned o
        | some tag ↦
            if is_some (value o.model "cloudKitChangeTag")
            then write couch class env "cloudKitChangeTag" tag o
            else returned o
      ])
        ≡ returned o'
      → Keeps o o'
  write_tag-Keeps none o o' h = ground (arith, Keeps-refl o)
  write_tag-Keeps (some tag) o o' h =
      write_if_Keeps (is_some (value o.model "cloudKitChangeTag")) "cloudKitChangeTag" tag o o' h

  store_tag-Keeps : (o o' : Object Model) → store_tag couch class env o ≡ returned o' → Keeps o o'
  unfolding store_tag cloud_kit_change_tag
  store_tag-Keeps o o' h =
      let (current, o₁) = cloud_kit_change_tag couch class env o in
      Keeps-trans (tag-Keeps o) (write_tag-Keeps current o₁ o' h)

  prepare-Keeps : (o o' : Object Model) → prepare couch class env o ≡ returned o' → Keeps o o'
  unfolding prepare
  prepare-Keeps o o' h =
      let (_, _, rest) = >>=-eq-returned (assert (is_some (document_id o.model))) _ h in
      let (o₁, stamped, rest₁) = >>=-eq-returned (update_timestamps couch class env o) _ rest in
      let (o₂, session, rest₂) =
        >>=-eq-returned
          (if class.tracks_session_id
            then write couch class env "sessionID" (text env.session_id) o₁
            else returned o₁)
          _ rest₁ in
      Keeps-trans (update_timestamps-Keeps o o₁ stamped) (
        Keeps-trans
          (write_if_Keeps class.tracks_session_id "sessionID" (text env.session_id) o₁ o₂ session)
          (store_tag-Keeps o₂ o' rest₂))

  -- What a save that has something to save comes to, from the result of the superclass's `save:`.
  finish_posts :
      (done : Bool) (m : Model) (o : Object Model)
      → (finish couch class env (done, m) o).0.posted
        ≡ (if done then saved_postings o.is_new ++ o.posted else o.posted)
  unfolding finish save_completed clear_embedded did_save_object did_update_object
  finish_posts true m o = elim (Bool-cases o.is_new) [
    | inl new ↦ ground (arith, new)
    | inr old ↦ ground (arith, old)
  ]
  finish_posts false m o = refl

  finish_is_new :
      (done : Bool) (m : Model) (o : Object Model)
      → (finish couch class env (done, m) o).0.is_new ≡ (not done && o.is_new)
  unfolding finish save_completed clear_embedded did_save_object did_update_object
  finish_is_new done m o = ground arith

  finish_model :
      (done : Bool) (m : Model) (o : Object Model)
      → ((finish couch class env (done, m) o).0.model ≡ m)
        × ((finish couch class env (done, m) o).1 ≡ done)
  unfolding finish save_completed clear_embedded did_save_object did_update_object
  finish_model done m o = ground arith

  finished_posts :
      (r : Bool × Model) (o o₁ o' : Object Model) (done : Bool)
      → Keeps o o₁
      → finish couch class env r o₁ ≡ (o', done)
      → (r.0 ≡ true → needs_save r.1 ≡ false)
      → ((done ≡ true)
          × (o'.posted ≡ saved_postings o.is_new ++ o.posted)
          × (o'.is_new ≡ false)
          × (needs_save o'.model ≡ false))
        ⊎ ((done ≡ false) × (o'.posted ≡ o.posted) × (o'.is_new ≡ o.is_new))
  finished_posts (true, m) o o₁ o' done k e clean =
      let (model, success) = finish_model true m o₁ in
      let now : o'.model ≡ m = ground (arith, model) in
      inl (
        ground (arith, success),
        ground (arith, k.posted, k.is_new, finish_posts true m o₁),
        ground (arith, finish_is_new true m o₁),
        rw now (clean refl),
      )
  finished_posts (false, m) o o₁ o' done k e clean = inr (
    ground (arith, finish_model false m o₁),
    ground (arith, k.posted, finish_posts false m o₁),
    ground (arith, k.is_new, finish_is_new false m o₁),
  )

  -- A save of an object that has something to save, where no exception is raised: either it succeeds,
  -- and then it has posted that the object was added, where the object was new, or that it was updated,
  -- where it was not, and the object is not new any more and has nothing left to save; or it fails, and
  -- then nothing is posted and a new object stays new.
  pub save_object_posts :
      (o o' : Object Model) (done : Bool)
      → is_clean couch class env o ≡ false
      → save_object couch class env o ≡ returned (o', done)
      → ((done ≡ true)
          × (o'.posted ≡ saved_postings o.is_new ++ o.posted)
          × (o'.is_new ≡ false)
          × (needs_save o'.model ≡ false))
        ⊎ ((done ≡ false) × (o'.posted ≡ o.posted) × (o'.is_new ≡ o.is_new))
  unfolding save_object
  save_object_posts o o' done dirty h =
      let (o₁, prepared, rest) =
        >>=-eq-returned (prepare couch class env o) _ (rw (dirty, save_object) at h) in
      let k : Keeps o o₁ = prepare-Keeps o o₁ prepared in
      finished_posts (save o₁.model) o o₁ o' done k (ground arith) (save_clean o₁.model)

  -- A deletion of an object that has a revision: it raises no exception, and either it succeeds, and
  -- then it has posted that the object was removed, the object is deleted, and its identifier is the
  -- one that it had; or it fails, and then nothing is posted.
  pub delete_document_posts :
      (o : Object Model) (id : String)
      → has_revision o.model ≡ true
      → document_id o.model ≡ some id
      → (o' : Object Model) × (((delete_document couch class env o ≡ returned (o', true))
            × (o'.posted ≡ past remove none ∷ recent remove none ∷ o.posted)
            × (is_deleted couch o' ≡ true)
            × (object_id couch class env o' ≡ returned id))
          ⊎ ((delete_document couch class env o ≡ returned (o', false)) × (o'.posted ≡ o.posted)))
  unfolding delete_document delete_saved did_delete_object object_id is_deleted
  delete_document_posts o id rev has = elim (Bool-cases (delete o.model).0) [
    | inl success ↦
        let kept = document_id-delete o.model in
        let gone = delete_deleted o.model success in
        (
          did_delete_object env (record o {
            model = (delete o.model).1;
            deleted_document_id = some id;
            cached_tag = none;
          }),
          inl (
            ground (arith, rev, has, success),
            refl,
            ground (arith, has, kept, gone),
            ground (arith, has, kept, gone),
          ),
        )
    | inr failure ↦ (
      record o { model = (delete o.model).1; cached_tag = none },
      inr (ground (arith, rev, has, failure), refl),
    )
  ]
