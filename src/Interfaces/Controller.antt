-- ===== src/Interfaces/Controller.antt =====
-- MPManagedObjectsController: Feather/Sources/Model Controllers/MPManagedObjectsController.h.
use Prim.Native.String.{String}
use feather.Common.{ℕ, Bool, Option, List}
use feather.Interfaces.Base.{Platform, Getter, Effect, Action, Attempt, Dictionary}

-- MPManagedObjectsControllerErrorCode.
pub data ControllerError : Type 0 where
  unknown_error : ControllerError
  invalid_json : ControllerError
  failed_temp_file_creation : ControllerError

pub controller_error_code : ControllerError → ℕ
controller_error_code unknown_error = 0
controller_error_code invalid_json = 1
controller_error_code failed_temp_file_creation = 2

module _ (p : Platform) where
  open p use {
    Any, Class, Url, Bytes, Bundle, CouchDocument, CouchQuery, QueryEnumerator, MapBlock,
    ReduceBlock, Database, PackageController, ManagedObject, ManagedObjectsController,
  }

  -- The database and the classes that a controller manages, and the resolution of conflicts.
  pub record ControllerProperties : Type 0 where
    pub db : ManagedObjectsController → Getter p Database
    pub package_controller : ManagedObjectsController → Getter p (Option PackageController)
    pub autosaves_objects : ManagedObjectsController → Getter p Bool
    pub observes_managed_object_changes : ManagedObjectsController → Getter p Bool
    pub managed_object_class_of_class : (receiver : Class) → Getter p Class
    pub managed_object_class_name_of_class : (receiver : Class) → Getter p String
    pub managed_object_singular : (receiver : Class) → Getter p String
    pub managed_object_plural : (receiver : Class) → Getter p String
    pub managed_object_class : ManagedObjectsController → Getter p Class
    pub managed_object_subclasses : ManagedObjectsController → Getter p (List String)
    pub manages_document_with_dictionary :
        ManagedObjectsController → Dictionary String Any → Getter p Bool
    pub manages_document_with_identifier : ManagedObjectsController → String → Getter p Bool
    pub manages_objects_of_class : ManagedObjectsController → Class → Getter p Bool
    pub all_objects_block : ManagedObjectsController → Getter p MapBlock
    pub bundled_objects_block : ManagedObjectsController → Getter p MapBlock
    pub managed_object_class_name : ManagedObjectsController → Getter p String
    pub managed_object_classes : (receiver : Class) → Getter p (List Class)
    pub managed_object_class_names : (receiver : Class) → Getter p (List String)
    pub managed_object_class_by_controller_class_name :
        (receiver : Class) → Getter p (Dictionary String Class)
    pub equivalence_class_for_managed_object_class : (receiver cls : Class) → Getter p Class
    pub resolve_conflicting_revisions : ManagedObjectsController → Attempt p Bool
    pub resolve_conflicting_revisions_for_object :
        ManagedObjectsController → ManagedObject → Attempt p Bool
    pub prototype_class : ManagedObjectsController → Getter p Class

  -- Creation of objects and of the controller, its views and queries, and all of its objects.
  pub record ControllerObjects : Type 0 where
    pub new_object : ManagedObjectsController → Action p ManagedObject
    pub new_object_of_class : ManagedObjectsController → Option Class → Action p ManagedObject
    pub new_object_with_prototype :
        ManagedObjectsController
        → (prototype : ManagedObject) → (document_id : Option String) → Action p ManagedObject
    pub objects_with_prototype_id :
        ManagedObjectsController → String → Action p (List ManagedObject)
    pub init_with_package_controller :
        PackageController → Database → Attempt p ManagedObjectsController
    pub did_initialize : ManagedObjectsController → Attempt p Bool
    pub configure_views : ManagedObjectsController → Effect p
    pub user_contributed_objects : ManagedObjectsController → Getter p (List ManagedObject)
    pub all_objects_view_name : ManagedObjectsController → Getter p String
    pub all_objects_query : ManagedObjectsController → Action p CouchQuery
    pub managed_object_by_key_map :
        ManagedObjectsController → QueryEnumerator → Action p (Dictionary Any ManagedObject)
    pub managed_objects_for_query_enumerator :
        ManagedObjectsController → QueryEnumerator → Action p (List Any)
    pub view_named_with_reduce_block :
        ManagedObjectsController
        → (name : String) → MapBlock
        → Option ReduceBlock
        → (version : String) → Effect p
    pub view_named :
        ManagedObjectsController → (name : String) → MapBlock → (version : String) → Effect p
    pub all_objects : ManagedObjectsController → Getter p (List ManagedObject)
    pub all_objects_with_error : ManagedObjectsController → Attempt p (Option (List ManagedObject))
    pub objects : ManagedObjectsController → Getter p (List ManagedObject)

  -- Bundled data, lookups, and objects read from JSON. An `is_existing` that is wanted is filled.
  pub record ControllerData : Type 0 where
    pub bundled_resource_database_name : ManagedObjectsController → Getter p String
    pub has_bundled_resource_database : ManagedObjectsController → Getter p Bool
    pub has_bundled_json_data : ManagedObjectsController → Getter p Bool
    pub bundled_json_data_checksum_key : ManagedObjectsController → Getter p (Option String)
    pub requires_bundled_data_loading : ManagedObjectsController → Getter p Bool
    pub bundled_json_data_query : ManagedObjectsController → Getter p (Option CouchQuery)
    pub bundled_json_data_filename : ManagedObjectsController → Getter p (Option String)
    pub bundled_resource_extension : ManagedObjectsController → Getter p (Option String)
    pub bundled_json_derived_data :
        ManagedObjectsController → Getter p (Option (List ManagedObject))
    pub object_with_identifier : ManagedObjectsController → String → Action p (Option ManagedObject)
    pub document_with_identifier :
        ManagedObjectsController → String → (all_docs_mode : ℕ) → Action p (Option CouchDocument)
    pub relays_fetching_by_identifier : ManagedObjectsController → Getter p Bool
    pub resources_bundle : ManagedObjectsController → Getter p Bundle
    pub objects_with_title : ManagedObjectsController → String → Action p (List ManagedObject)
    pub objects_from_contents_of_array_json_at_url :
        ManagedObjectsController → Url → Attempt p (Option (List ManagedObject))
    pub objects_from_array_json_data :
        ManagedObjectsController → Bytes → Attempt p (Option (List ManagedObject))
    pub objects_from_json_encodable_object_array :
        ManagedObjectsController → List Any → Attempt p (Option (List ManagedObject))
    pub object_from_json_dictionary :
        ManagedObjectsController → Dictionary String Any → Attempt p (Option ManagedObject × Bool)
    pub load_bundled_objects_from_resource :
        ManagedObjectsController
        → (resource_name extension : String) → (preloaded_objects : List Any)
        → (data_checksum_key : String) → Attempt p (Option (List ManagedObject))
    pub objects_matching_queried_view :
        ManagedObjectsController
        → (view : String) → (keys : Option (List Any)) → Action p (List ManagedObject)

  -- The category MPManagedObjectExtensions on CBLDocument.
  pub record DocumentExtensions : Type 0 where
    pub managed_object_class : CouchDocument → Getter p Class
    pub url : CouchDocument → Getter p (Option Url)
