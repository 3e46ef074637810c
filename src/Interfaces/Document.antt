-- ===== src/Interfaces/Document.antt =====
-- MPDatabasePackageBackedDocument and MPSharedPackageControllerAdapter:
-- Feather/Sources/Model Controllers/MPDatabasePackageBackedDocument.h. MPShoeboxPackageController:
-- Feather/Sources/Database Packages/MPShoeboxPackageController.h.
use Prim.Native.String.{String}
use feather.Common.{ℕ, Bool, Option}
use feather.Interfaces.Base.{Platform, Getter, Effect, Action, Attempt}

-- MPDatabasePackageBackedDocumentErrorCode.
pub data DocumentError : Type 0 where
  unknown_error : DocumentError
  working_path_missing : DocumentError
  package_access_failed : DocumentError

pub document_error_code : DocumentError → ℕ
document_error_code unknown_error = 0
document_error_code working_path_missing = 1
document_error_code package_access_failed = 2

module _ (p : Platform) where
  open p use {
    Class, Error, Url, PackageController, Document, WindowController, SharedPackageAdapter,
  }

  -- The class MPDatabasePackageBackedDocument.
  pub record DocumentClass : Type 0 where
    pub initialize_state_creating_directory_tree : Document → (create : Bool) → Attempt p Bool
    pub initialize_manuscript_metadata_directory : Document → (create : Bool) → Attempt p Bool
    pub initialize_package_controller : Document → PackageController → Attempt p Bool
    pub package_access_denied : Document → Getter p Bool
    pub set_package_access_denied : Document → Bool → Effect p
    pub package_access_error : Document → Getter p (Option Error)
    pub temporary_manuscript_path : Document → Getter p (Option String)
    pub temporary_manuscript_metadata_directory_path : Document → Getter p (Option String)
    pub set_temporary_manuscript_metadata_directory_path : Document → Option String → Effect p
    pub package_controller : Document → Getter p (Option PackageController)
    pub package_controller_exists : Document → Getter p Bool
    pub package_controller_class : Document → Getter p Class
    pub bundle_initialized : Document → Getter p Bool
    pub bundle_requires_initialization : Document → Getter p Bool
    pub set_bundle_requires_initialization : Document → Bool → Effect p
    pub requires_copying_document :
        (receiver : Class) → (type : String) → (original_url : Url) → Getter p Bool
    pub original_bundle_file_url : Document → Getter p (Option Url)
    pub set_original_bundle_file_url : Document → Option Url → Effect p
    pub original_type : Document → Getter p (Option String)
    pub set_original_type : Document → Option String → Effect p
    pub reverted : Document → Getter p Bool
    pub should_reopen_on_revert : Document → Getter p Bool
    pub main_window_controller : Document → Getter p (Option WindowController)

  -- The class MPSharedPackageControllerAdapter.
  pub record SharedPackageAdapterClass : Type 0 where
    pub shared_package_controller : SharedPackageAdapter → Getter p PackageController
    pub document : SharedPackageAdapter → Getter p (Option Document)
    pub init_with_container : Document → PackageController → Action p SharedPackageAdapter

  -- The class MPShoeboxPackageController; an object of it is a package controller.
  pub record ShoeboxClass : Type 0 where
    pub shared_controller_failed_to_initialize : (receiver : Class) → Effect p
    pub shared_controller_initialized : (receiver : Class) → Getter p Bool
    pub finalize_shared_controller : (receiver : Class) → Effect p
    pub create_shared_databases_path : (receiver : Class) → Attempt p Bool
    pub init_with_error : Attempt p (Option PackageController)
    pub synchronizes_user_data : PackageController → Getter p Bool
    pub shares_user_data : PackageController → Getter p Bool
    pub udid : (receiver : Class) → Getter p String
    pub initialize_bundled_data : PackageController → Effect p
    pub remote_global_shared_database_name : PackageController → Getter p String
    pub remote_global_shared_database_url : PackageController → Getter p Url
    pub register_package_controller_class : (receiver cls : Class) → Effect p
    pub deregister_package_controller_class : (receiver : Class) → Effect p
    pub shared_package_controller_class : (receiver : Class) → Getter p (Option Class)
    pub name : (receiver : Class) → Getter p String
    pub shared_databases_path : (receiver : Class) → Getter p String
    pub shared_controller : (receiver : Class) → Getter p (Option PackageController)
