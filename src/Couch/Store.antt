-- ===== src/Couch/Store.antt =====
-- A Couch of plain records, at which theorems about every Couch are tried out.
use Prim.Native.String.{String}
use feather.Common.{
  if◌then◌else◌, ◌==◌, nat_eq, string_eq, list_eq, refl, inl, Bool, true, false, Option, none, some,
}
use feather.Couch.{Couch}
use feather.Json.{Value, text}

pub record Stored : Type 0 where
  pub id : Option String
  pub is_gone : Bool
  pub revision : Bool
  pub properties : String → Option Value
  pub is_dirty : Bool

abbrev pub put_property : String → Option Value → Stored → Stored
put_property p v m = record m {
  properties = λ q. if p == q then v else m.properties q;
  is_dirty = true;
}

abbrev pub save_stored : Stored → Bool × Stored
save_stored m = (true, record m { is_dirty = false; revision = true })

abbrev pub delete_stored : Stored → Bool × Stored
delete_stored m = (true, record m { is_gone = true })

abbrev pub store : Couch
store = record {
  Model = Stored;
  document_id = λ m. m.id;
  document_deleted = λ m. m.is_gone;
  has_revision = λ m. m.revision;
  value = λ m q. m.properties q;
  put = put_property;
  needs_save = λ m. m.is_dirty;
  has_changes = λ m. false;
  save = save_stored;
  delete = delete_stored;
  value-put = λ p q v m. refl;
  document_id-put = λ p v m. refl;
  document_deleted-put = λ p v m. refl;
  needs_save-put = λ p v m h. refl;
  value-save = λ m q. refl;
  document_id-save = λ m. refl;
  document_deleted-save = λ m. refl;
  save_clean = λ m h. refl;
  document_id-delete = λ m. inl refl;
  delete_deleted = λ m h. inl refl;
}

-- An object that was made and not saved yet, and the surroundings of a call.
abbrev pub new_model : Stored
new_model = record {
  id = some "MPContributor:1";
  is_gone = false;
  revision = false;
  properties = λ q.
      if q == "objectType"
      then some (text "MPContributor")
      else if q == "_id"
      then some (text "MPContributor:1")
      else none;
  is_dirty = true;
}
