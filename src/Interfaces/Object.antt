-- ===== src/Interfaces/Object.antt =====
-- MPManagedObject: Feather/Sources/Model/MPManagedObject.h.
use Prim.Native.String.{String}
use feather.Common.{ℕ, Bool, Option, List}
use feather.Interfaces.Base.{Platform, Getter, Effect, Action, Attempt, Dictionary}

-- MPManagedObjectErrorCode.
pub data ObjectError : Type 0 where
  unknown_error : ObjectError
  type_missing : ObjectError
  user_not_creator : ObjectError
  missing_bundled_data : ObjectError
  missing_attachment : ObjectError
  missing_controller : ObjectError
  missing_database : ObjectError

pub object_error_code : ObjectError → ℕ
object_error_code unknown_error = 0
object_error_code type_missing = 1
object_error_code user_not_creator = 2
object_error_code missing_bundled_data = 3
object_error_code missing_attachment = 4
object_error_code missing_controller = 5
object_error_code missing_database = 6

-- MPManagedObjectModerationState.
pub data ModerationState : Type 0 where
  unmoderated : ModerationState
  accepted : ModerationState
  rejected : ModerationState

unfoldable pub moderation_code : ModerationState → ℕ
moderation_code unmoderated = 0
moderation_code accepted = 1
moderation_code rejected = 2

module _ (p : Platform) where
  open p use {
    Any, Class, Url, Date, Bytes, CouchDatabase, CouchRevision, ManagedObject,
    ManagedObjectsController, Contributor,
  }

  -- What every object has: its controller, its document, its dates, its editors.
  pub record ObjectProperties : Type 0 where
    pub controller : ManagedObject → Getter p (Option ManagedObjectsController)
    pub document_id : ManagedObject → Getter p (Option String)
    pub prefixless_document_id : ManagedObject → Getter p (Option String)
    pub created_at : ManagedObject → Getter p (Option Date)
    pub updated_at : ManagedObject → Getter p (Option Date)
    pub session_id : ManagedObject → Getter p (Option String)
    pub cloud_kit_change_tag : ManagedObject → Getter p (Option String)
    pub creator : ManagedObject → Getter p (Option Contributor)
    pub editors : ManagedObject → Getter p (Option (List Any))
    pub scripting_properties : ManagedObject → Getter p (Dictionary String Any)
    pub set_scripting_properties : ManagedObject → Dictionary String Any → Effect p
    pub set_scripting_derived_properties : ManagedObject → Dictionary String Any → Effect p

  -- Sharing and moderation, prototypes, and locking.
  pub record ObjectStanding : Type 0 where
    pub is_shared : ManagedObject → Getter p Bool
    pub share_with_error : ManagedObject → Attempt p Bool
    pub moderation_state : ManagedObject → Getter p ModerationState
    pub is_moderated : ManagedObject → Getter p Bool
    pub is_accepted : ManagedObject → Getter p Bool
    pub accept : ManagedObject → Effect p
    pub is_rejected : ManagedObject → Getter p Bool
    pub reject : ManagedObject → Effect p
    pub prototype_transformed_value :
        ManagedObject
        → (key : String) → (for_copy_of_prototype : ManagedObject) → Getter p (Option Any)
    pub human_readable_name_for_property_key : ManagedObject → String → Getter p String
    pub prototype_id : ManagedObject → Getter p (Option String)
    pub prototype : ManagedObject → Getter p (Option ManagedObject)
    pub has_prototype : ManagedObject → Getter p Bool
    pub can_form_prototype : ManagedObject → Getter p Bool
    pub forms_prototype_when_shared : ManagedObject → Getter p Bool
    pub is_locked : ManagedObject → Getter p Bool
    pub is_user_contributed : ManagedObject → Getter p Bool
    pub set_user_contributed : ManagedObject → Bool → Effect p
    pub cloud_kit_ignored_keys : (receiver : Class) → Getter p (List String)
    pub value_coding_key_for_persisted_property_key : ManagedObject → String → Getter p String
    pub persisted_property_key_for_value_coding_key : ManagedObject → String → Getter p String
    pub lock : ManagedObject → Effect p
    pub unlock : ManagedObject → Effect p

  -- Saving, deletion, the full-text index, and what a class says of its documents.
  pub record ObjectStorage : Type 0 where
    pub save : ManagedObject → Action p Bool
    pub deep_save_with_error : ManagedObject → Attempt p Bool
    pub deep_save : ManagedObject → Action p Bool
    pub save_models : (receiver : Class) → List ManagedObject → Action p Bool
    pub is_deleted : ManagedObject → Getter p Bool
    pub delete_document : ManagedObject → Action p Bool
    pub delete_object : ManagedObject → Action p Bool
    pub indexable_property_keys : (receiver : Class) → Getter p (Option (List String))
    pub indexable_string_for_property_key : ManagedObject → String → Getter p (Option String)
    pub tokenized_full_text_string : ManagedObject → Getter p String
    pub id_for_new_document_in_database : (receiver : Class) → CouchDatabase → Action p String
    pub validate_revision : (receiver : Class) → CouchRevision → Getter p Bool
    pub requires_property : (receiver : Class) → String → Getter p Bool
    pub should_track_session_id : (receiver : Class) → Getter p Bool
    pub managed_object_class_from_document_id : (receiver : Class) → String → Getter p Class
    pub canonicalized_identifier_string : (receiver : Class) → String → Getter p String
    pub human_readable_name : (receiver : Class) → Getter p String

  -- Representations as dictionaries, JSON and pasteboard items, and the initializers.
  pub record ObjectRepresentation : Type 0 where
    pub non_identifiable_properties : ManagedObject → Getter p (Dictionary String Any)
    pub referable_dictionary_representation :
        ManagedObject → Getter p (Option (Dictionary String Any))
    pub object_with_referable_dictionary_representation :
        (receiver : Class) → Dictionary String Any → Action p ManagedObject
    pub pasteboard_object_id_property_list : (receiver : Class) → List Any → Attempt p Bytes
    pub promised_pasteboard_types : (receiver : Class) → Getter p (List String)
    pub json_string_representation : ManagedObject → Attempt p String
    pub json_encodable_dictionary_representation : ManagedObject → Getter p (Dictionary String Any)
    pub is_concrete : (receiver : Class) → Getter p Bool
    pub init_with_new_document : ManagedObjectsController → Action p ManagedObject
    pub init_with_properties :
        ManagedObjectsController
        → Option (Dictionary String Any)
        → (document_id : Option String) → Action p ManagedObject
    pub init_with_prototype :
        ManagedObjectsController
        → (prototype : Option ManagedObject) → (document_id : Option String)
        → Action p ManagedObject
    pub init_copy_of_managed_object :
        ManagedObject → ManagedObjectsController → Action p ManagedObject

  -- Properties that hold the identifiers of objects or a dictionary, attachments, and scripting.
  pub record ObjectParts : Type 0 where
    pub set_object_identifier_array :
        ManagedObject → Option (List ManagedObject) → (property_key : String) → Effect p
    pub get_object_identifier_array : ManagedObject → String → Getter p (List ManagedObject)
    pub set_object_identifier_set :
        ManagedObject → Option (List ManagedObject) → (property_key : String) → Effect p
    pub get_object_identifier_set : ManagedObject → Option String → Getter p (List ManagedObject)
    pub set_dictionary_embedded_value :
        ManagedObject → Any → (embedded_key dictionary_property_key : String) → Effect p
    pub get_dictionary_embedded_value :
        ManagedObject → (embedded_key dictionary_property_key : String) → Getter p (Option Any)
    pub attach_contents_of_url : ManagedObject → Url → (name content_type : String) → Attempt p Bool
    pub create_attachment_with_string : ManagedObject → (name string type : String) → Attempt p Bool
    pub create_attachment_with_contents_of_url :
        ManagedObject → (name : String) → Url → (type : String) → Attempt p Bool
    pub did_initialize : ManagedObject → Effect p
    pub object_specifier_key_of_class : (receiver : Class) → Getter p String
    pub object_specifier_key : ManagedObject → Getter p String
    pub singular : (receiver : Class) → Getter p String
    pub plural : (receiver : Class) → Getter p String
    pub clear_model_object_map : (receiver : Class) → Effect p
