-- ===== src/Interfaces/Database.antt =====
-- MPDatabase and its metadata: Feather/Sources/Database Packages/MPDatabase.h.
use Prim.Native.String.{String}
use feather.Common.{ℕ, Bool, Option, List}
use feather.Interfaces.Base.{Platform, Getter, Effect, Action, Attempt, Dictionary}

-- MPDatabaseErrorCode.
pub data DatabaseError : Type 0 where
  unknown_error : DatabaseError
  remote_unconfigured : DatabaseError
  remote_invalid : DatabaseError
  push_already_in_progress : DatabaseError
  pull_already_in_progress : DatabaseError

pub database_error_code : DatabaseError → ℕ
database_error_code unknown_error = 0
database_error_code remote_unconfigured = 1
database_error_code remote_invalid = 2
database_error_code push_already_in_progress = 3
database_error_code pull_already_in_progress = 4

module _ (p : Platform) where
  open p use {
    Any, Class, Url, Credential, CouchDatabase, CouchManager, CouchQuery, QueryEnumerator, QueryRow,
    Replication, FilterBlock, Database, PackageController, ManagedObject, Metadata, LocalMetadata,
  }

  -- What a database is made of, and its initializers.
  pub record DatabaseProperties : Type 0 where
    pub name : Database → Getter p String
    pub server : Database → Getter p (Option CouchManager)
    pub database : Database → Getter p CouchDatabase
    pub metadata : Database → Getter p Metadata
    pub identifier : Database → Getter p String
    pub local_metadata : Database → Getter p Metadata
    pub package_controller : Database → Getter p (Option PackageController)
    pub init_with_server :
        CouchManager
        → PackageController
        → (name : String) → (ensure_created : Bool) → Attempt p Database
    pub init_with_filters :
        CouchManager
        → PackageController
        → (name : String) → (ensure_created : Bool)
        → (push_filter_name pull_filter_name : Option String) → Attempt p Database
    pub sanitized_database_id : (receiver : Class) → String → Getter p String

  -- Replication, filled in through an out parameter, and the filters that it uses.
  pub record DatabaseReplication : Type 0 where
    pub push_to_remote : Database → Attempt p (Bool × Option Replication)
    pub pull_from_remote : Database → Attempt p (Bool × Option Replication)
    pub pull_from_database_at_url : Database → Url → Attempt p (Bool × Option Replication)
    pub push_to_database_at_url : Database → Url → Attempt p (Bool × Option Replication)
    pub pull_from_database_at_path : Database → String → Attempt p (Bool × Option Replication)
    pub sync_with_remote : Database → Attempt p Bool
    pub pull_filter_name : Database → Getter p String
    pub push_filter_name : Database → Getter p String
    pub qualified_pull_filter_name : Database → Getter p String
    pub qualified_push_filter_name : Database → Getter p String
    pub define_filter_named : Database → String → FilterBlock → Effect p
    pub filter_with_qualified_name : Database → String → Getter p FilterBlock
    pub remote_database_url : Database → Getter p (Option Url)
    pub remote_service_url : Database → Getter p (Option Url)
    pub remote_database_exists : Database → Getter p Bool
    pub remote_database_credentials : Database → Getter p (Option Credential)

  -- The categories on MYDynamicObject, CBLDatabase, CBLManager and CBLQuery, and the two classes of
  -- metadata documents.
  pub record DatabaseExtensions : Type 0 where
    pub set_values_for_properties_with_dictionary : Any → Dictionary String Any → Effect p
    pub package_controller_of_database : CouchDatabase → Getter p (Option Any)
    pub is_open : CouchDatabase → Getter p Bool
    pub get_managed_objects_with_ids : CouchDatabase → List Any → Action p (List ManagedObject)
    pub get_documents_with_ids : CouchDatabase → List Any → Action p (Option QueryEnumerator)
    pub plain_objects_from_query_enumerator_keys :
        CouchDatabase → QueryEnumerator → Action p (List QueryRow)
    pub package_controller_of_manager : CouchManager → Getter p (Option Any)
    pub run : CouchQuery → Action p (Option QueryEnumerator)
    pub save_metadata : Metadata → Action p Bool
    pub metadata_of_local_metadata : LocalMetadata → Metadata
