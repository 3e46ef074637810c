-- ===== src/Couch.antt =====
-- What Feather relies on of Couchbase Lite's CBLModel and CBLDocument, which are not in the
-- repository: the state of one model object with its document, and the calls that the sources make
-- of the superclass. `value` is `getValueOfProperty:`, `put` is `[super setValue:ofProperty:]`,
-- `save` and `delete` are `[super save:]` and `[super deleteDocument:]` with their result.
pub mod Store
use Prim.Native.String.{String}
use feather.Common.{
  if◌then◌else◌, ◌==◌, nat_eq, string_eq, list_eq, ◌≡◌, ◌≢◌, ◌⊎◌, Bool, true, false, Option, none,
}
use feather.Json.{Value}

pub record Couch : Type 1 where
  pub Model : Type 0
  pub document_id : Model → Option String
  pub document_deleted : Model → Bool
  pub has_revision : Model → Bool
  pub value : Model → String → Option Value
  pub put : String → Option Value → Model → Model
  pub needs_save : Model → Bool
  pub has_changes : Model → Bool
  pub save : Model → Bool × Model
  pub delete : Model → Bool × Model
  pub value-put :
      (p q : String) (v : Option Value) (m : Model)
      → value (put p v m) q ≡ (if p == q then v else value m q)
  pub document_id-put :
      (p : String) (v : Option Value) (m : Model) → document_id (put p v m) ≡ document_id m
  pub document_deleted-put :
      (p : String) (v : Option Value) (m : Model)
      → document_deleted (put p v m) ≡ document_deleted m
  -- A property that gets another value marks the object.
  pub needs_save-put :
      (p : String) (v : Option Value) (m : Model)
      → (value m p ≢ v) ⊎ (needs_save m ≡ true)
      → needs_save (put p v m) ≡ true
  -- Saving keeps the properties and the identifier; after a success nothing is left to save.
  pub value-save : (m : Model) (q : String) → value (save m).1 q ≡ value m q
  pub document_id-save : (m : Model) → document_id (save m).1 ≡ document_id m
  pub document_deleted-save : (m : Model) → document_deleted (save m).1 ≡ document_deleted m
  pub save_clean : (m : Model) → (save m).0 ≡ true → needs_save (save m).1 ≡ false
  -- A deletion keeps the document of the object, or takes it away.
  pub document_id-delete :
      (m : Model) → (document_id (delete m).1 ≡ document_id m) ⊎ (document_id (delete m).1 ≡ none)
  -- A deletion that succeeds leaves a deleted document, or none.
  pub delete_deleted :
      (m : Model)
      → (delete m).0 ≡ true
      → (document_deleted (delete m).1 ≡ true) ⊎ (document_id (delete m).1 ≡ none)
