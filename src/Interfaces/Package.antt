-- ===== src/Interfaces/Package.antt =====
-- MPDatabasePackageController: Feather/Sources/Database Packages/MPDatabasePackageController.h.
use Prim.Native.String.{String}
use feather.Common.{ℕ, Bool, Option, List}
use feather.Interfaces.Base.{Platform, Getter, Effect, Action, Attempt, Dictionary}

-- MPDatabasePackageControllerErrorCode.
pub data PackageError : Type 0 where
  unknown_error : PackageError
  no_such_snapshot : PackageError
  unexpected_response : PackageError
  file_not_directory : PackageError
  directory_already_exists : PackageError
  cannot_initialize_shared_databases : PackageError
  dictionary_representation_invalid : PackageError
  no_databases : PackageError
  ongoing_transaction : PackageError
  root_url_missing : PackageError
  bundled_data_initialization_failed : PackageError
  mismatching_package_identifier : PackageError

pub package_error_code : PackageError → ℕ
package_error_code unknown_error = 0
package_error_code no_such_snapshot = 1
package_error_code unexpected_response = 2
package_error_code file_not_directory = 3
package_error_code directory_already_exists = 4
package_error_code cannot_initialize_shared_databases = 5
package_error_code dictionary_representation_invalid = 6
package_error_code no_databases = 7
package_error_code ongoing_transaction = 8
package_error_code root_url_missing = 9
package_error_code bundled_data_initialization_failed = 10
package_error_code mismatching_package_identifier = 11

module _ (p : Platform) where
  open p use {
    Any, Class, Error, Url, NotificationCenter, Credential, CouchManager, CouchDocument,
    FilterBlock, Database, PackageController, PackageDelegate, ManagedObject,
    ManagedObjectsController, Snapshot, SnapshotsController, RootSection, TreeItemPool, Draft,
  }

  -- The protocol MPDatabasePackageControllerDelegate; an optional method that the delegate lacks is
  -- `none`. The argument of `update_change_count` is an NSDocumentChangeType.
  pub record PackageDelegateProtocol : Type 0 where
    pub package_root_url : PackageDelegate → Getter p (Option Url)
    pub update_change_count : PackageDelegate → Option (ℕ → Effect p)
    pub package_controller_requires_listener :
        PackageDelegate → Option (PackageController → Action p Bool)
    pub package_controller_requires_placeholder_content :
        PackageDelegate → Option (PackageController → Action p Bool)

  -- The properties that say where the package is and how it is synchronized, and the temporary copy.
  pub record PackageProperties : Type 0 where
    pub path : PackageController → Getter p String
    pub path_for_database : PackageController → Database → Getter p String
    pub url : PackageController → Getter p Url
    pub session_id : PackageController → Getter p String
    pub server : PackageController → Getter p CouchManager
    pub all_objects : PackageController → Action p (List Any)
    pub server_queue_token : PackageController → Getter p ℕ
    pub remote_url : PackageController → Getter p (Option Url)
    pub remote_service_url : PackageController → Getter p (Option Url)
    pub synchronizes_with_remote : PackageController → Getter p Bool
    pub synchronizes_snapshots : PackageController → Getter p Bool
    pub synchronizes_using_cloud_kit : PackageController → Getter p Bool
    pub synchronizes_peerlessly : PackageController → Getter p Bool
    pub database_listener_url : PackageController → Getter p (Option Url)
    pub database_listener_port : PackageController → Getter p ℕ
    pub tree_item_pool : PackageController → Getter p TreeItemPool
    pub indexes_object_full_text_contents : PackageController → Getter p Bool
    pub databases_reset_during_initialization :
        PackageController → Getter p (Option (List Database))
    pub make_temporary_copy_into_root_directory :
        PackageController → Url → (overwrite_if_exists fail_if_exists : Bool) → Attempt p Bool

  -- Opening and closing, and the controllers that the package has for classes of managed objects.
  pub record PackageControllers : Type 0 where
    pub init_with_path :
        String → (read_only : Bool) → Option PackageDelegate → Attempt p (Option PackageController)
    pub init_with_file_url :
        Url → (read_only : Bool) → Option PackageDelegate → Attempt p (Option PackageController)
    pub close : PackageController → Attempt p Bool
    pub controller_for_managed_object_class :
        PackageController → Class → Getter p (Option ManagedObjectsController)
    pub controller_class_for_managed_object_class : (receiver cls : Class) → Getter p (Option Class)
    pub controller_property_name_for_managed_object_class :
        (receiver cls : Class) → Getter p (Option String)
    pub controller_exists_for_managed_object_class : PackageController → Class → Getter p Bool
    pub controller_property_name_for_managed_object_controller_class :
        (receiver cls : Class) → Getter p (Option String)
    pub controller_for_document :
        PackageController → CouchDocument → Getter p ManagedObjectsController

  -- Replication with the remote package. A dictionary of errors has the names of databases as keys.
  pub record PackageReplication : Type 0 where
    pub remote_database_url_for_local_database : PackageController → Database → Getter p Url
    pub remote_service_url_for_local_database : PackageController → Database → Getter p Url
    pub remote_database_credentials_for_local_database :
        PackageController → Database → Getter p Credential
    pub database_urls_for_base_uri : (receiver : Class) → Url → Getter p (List Url)
    pub push_to_remote : PackageController → Action p (Bool × Option (Dictionary String Error))
    pub pull_from_remote : PackageController → Action p (Option (Dictionary String Error))
    pub sync_with_remote : PackageController → Action p (Bool × Option (Dictionary String Error))
    pub compact : PackageController → Attempt p Bool
    pub push_filter_name_for_database_named : PackageController → String → Getter p (Option String)
    pub apply_filter_when_pulling :
        PackageController → Url → (to_database : Database) → Getter p Bool
    pub apply_filter_when_pushing :
        PackageController → Url → (from_database : Database) → Getter p Bool
    pub create_push_filter_block :
        PackageController → (filter_name : String) → Database → Action p FilterBlock
    pub create_pull_filter_block :
        PackageController → (filter_name : String) → Database → Action p FilterBlock
    pub pull_filter_name_for_database_named : PackageController → String → Getter p (Option String)
    pub sync_timer_period : PackageController → Getter p Any

  -- The databases, the controllers of contributors, the identity of the package, and snapshots.
  pub record PackageContents : Type 0 where
    pub managed_objects_controllers : PackageController → Getter p (List ManagedObjectsController)
    pub databases : PackageController → Getter p (List Database)
    pub ordered_databases : PackageController → Getter p (List Database)
    pub replicated_databases : PackageController → Getter p (List Database)
    pub database_names : PackageController → Getter p (List String)
    pub databases_by_name : PackageController → Getter p (Dictionary String Database)
    pub contributors_controller : PackageController → Getter p ManagedObjectsController
    pub contributor_identities_controller : PackageController → Getter p ManagedObjectsController
    pub database_names_of_class : (receiver : Class) → Getter p (List String)
    pub primary_database_name : (receiver : Class) → Getter p (Option String)
    pub database_with_name : PackageController → String → Getter p Database
    pub bootstrap_database_url : PackageController → (db_name : String) → Getter p (Option Url)
    pub identifier : PackageController → Getter p String
    pub title : PackageController → Getter p (Option String)
    pub is_identifiable : PackageController → Getter p Bool
    pub fully_qualified_identifier : PackageController → Getter p String
    pub delegate : PackageController → Getter p (Option PackageDelegate)
    pub notification_center : PackageController → Getter p NotificationCenter
    pub snapshots_controller : PackageController → Getter p SnapshotsController
    pub new_snapshot_with_name : PackageController → String → Attempt p (Option Snapshot)
    pub restore_from_snapshot_with_name : PackageController → String → Attempt p Bool
    pub with_fully_qualified_identifier :
        (receiver : Class) → String → Getter p (Option PackageController)

  -- Root sections, the draft, lookup of objects, the listener, initial content and the saved files. A
  -- completion handler is given the error, if there is one.
  pub record PackageDocument : Type 0 where
    pub root_sections : PackageController → Getter p (List RootSection)
    pub active_draft : PackageController → Getter p (Option Draft)
    pub set_active_draft : PackageController → Option Draft → Effect p
    pub object_with_identifier : PackageController → String → Action p (Option ManagedObject)
    pub checkpoint_databases : PackageController → List Database → Attempt p Bool
    pub ordered_root_section_class_names : (receiver : Class) → Getter p (List String)
    pub start_listener :
        PackageController → (completion_handler : Option Error → Effect p) → Effect p
    pub stop_listener : PackageController → Effect p
    pub ensure_initial_state_initialized : PackageController → Action p (Option Any)
    pub ensure_placeholder_initialized : PackageController → Action p (Option Any)
    pub save_to_url : PackageController → Url → Attempt p Bool
    pub relative_preview_url : PackageController → Getter p Url
    pub relative_thumbnail_url : PackageController → Getter p Url
    pub absolute_preview_url : PackageController → Getter p Url
    pub absolute_thumbnail_url : PackageController → Getter p Url
    pub manifest_dictionary_url : PackageController → Getter p Url
    pub dictionary_representation_url : PackageController → Getter p Url
    pub manifest_dictionary : PackageController → Getter p (Dictionary String Any)
    pub dictionary_representation : PackageController → Getter p (Dictionary String Any)

  -- MPDatabasePackageControllerBlockBasedDelegate, which is a delegate made of two blocks.
  pub record BlockBasedDelegate : Type 0 where
    pub package_controller : Option PackageController
    pub root_url_handler : Action p (Option Url)
    pub update_change_count_handler : ℕ → Effect p

  pub init_with_package_controller :
      Option PackageController → Action p (Option Url) → (ℕ → Effect p) → BlockBasedDelegate
  init_with_package_controller pkgc handler change_type = record {
    package_controller = pkgc;
    root_url_handler = handler;
    update_change_count_handler = change_type;
  }
