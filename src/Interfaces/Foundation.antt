-- ===== src/Interfaces/Foundation.antt =====
-- Categories on classes of Foundation, in Feather/Sources/Categories: NSFileManager+MPExtensions.h,
-- NSArray+MPExtensions.h, NSDictionary+MPExtensions.h, NSString+MPExtensions.h and
-- NSObject+MPExtensions.h. A class with type arguments takes their types.
use Prim.Native.String.{String}
use feather.Common.{ℕ, Bool, Option, List}
use feather.Interfaces.Base.{ℤ, Platform, Getter, Effect, Action, Attempt, Dictionary}

-- MPFileTargetErrorCode and MPFeatherNSFileManagerExtensionsErrorCode.
pub data FileTargetError : Type 0 where
  unknown_error : FileTargetError
  failed_to_determine_mime_type : FileTargetError

pub file_target_error_code : FileTargetError → ℕ
file_target_error_code unknown_error = 0
file_target_error_code failed_to_determine_mime_type = 1

pub data FileManagerError : Type 0 where
  unknown_error : FileManagerError
  cannot_determine_caches_directory : FileManagerError
  caches_exists_but_not_directory : FileManagerError
  failed_to_create_caches_directory : FileManagerError
  failed_to_create_temp_directory : FileManagerError
  x_attr_removal_failed : FileManagerError

pub file_manager_error_code : FileManagerError → ℕ
file_manager_error_code unknown_error = 0
file_manager_error_code cannot_determine_caches_directory = 1
file_manager_error_code caches_exists_but_not_directory = 2
file_manager_error_code failed_to_create_caches_directory = 3
file_manager_error_code failed_to_create_temp_directory = 4
file_manager_error_code x_attr_removal_failed = 5

module _ (p : Platform) where
  open p use {Any, Class, Selector, Url, Queue, Implementation}

  -- The category MPExtensions on NSFileManager. A permission mask is an int.
  pub record FileManagerExtensions : Type 0 where
    pub application_support_folder : Getter p (Option String)
    pub md5_digest_string_at_path : String → Action p (Option String)
    pub mime_type_for_file_at_url : Url → Attempt p (Option String)
    pub temporary_directory_url_in_application_caches :
        (subdirectory_name : Option String) → Attempt p (Option Url)
    pub temporary_file_url_in_application_caches :
        (subdirectory_name : Option String) → (path_extension : String) → Attempt p (Option Url)
    pub temporary_directory_url_in_group_caches :
        (subdirectory_name : String) → Attempt p (Option Url)
    pub temporary_file_url_in_group_caches :
        (subdirectory_name path_extension : String) → Attempt p (Option Url)
    pub temporary_url_in_subdirectory_named :
        (subdirectory_name : String)
        → (at_url : Url) → (create_directory create_intermediates : Bool)
        → (path_extension : String) → Attempt p (Option Url)
    pub shared_application_group_caches_directory_url : Getter p (Option Url)
    pub shared_application_group_support_directory_url : Getter p (Option Url)
    pub url_for_application_support_directory_named : String → Getter p (Option Url)
    pub recursive_paths_for_resources :
        (type : Option String) → (in_directory : String) → Getter p (List Any)
    pub ensure_permission_mask_in_directory : ℤ → (directory_path : String) → Attempt p Bool
    pub ensure_permission_mask_for_file : ℤ → (path : String) → Attempt p Bool
    pub release_from_quarantine : (root : String) → Attempt p Bool
    pub path_is_equal_to_path : (path_a path_b : String) → Attempt p Bool
    pub begin_security_scoped_access :
        (path bookmark_user_default_key : String) → Attempt p (Option Url)
    pub uti_for_path_extension : String → Getter p (Option String)
    pub canonical_path_extension_for_mime_type : String → Getter p (Option String)
    pub file_size_at_path : String → Getter p (Option Any)

  -- The category FeatherTypeParameterized on NSArray.
  pub record ArrayExtensions (T : Type 0) : Type 0 where
    pub reversed_array : List T → Getter p (List T)
    pub array_by_randomizing_order : List T → Action p (List T)
    pub map_objects_using_block : List T → (T → ℕ → Action p Any) → Action p (List Any)
    pub nil_filtered_map_using_block :
        List T → (Any → ℕ → Action p (Option Any)) → Action p (List Any)
    pub first_object_matching : List T → (T → Action p Bool) → Action p (Option T)
    pub first_object_matching_with_index : List T → (T → Action p Bool) → Action p (Option T × ℕ)
    pub filtered_array_matching : List T → (T → Action p Bool) → Action p (List T)
    pub array_by_removing_object : List T → T → Getter p (List T)
    pub array_by_removing_last_object : List T → Getter p (List T)
    pub subarray_up_to_including_index : List T → ℕ → Getter p (List T)
    pub subarray_from_index : List T → ℕ → Getter p (List T)

  -- The category Feather on NSArray. The copy is of mutable arrays; the block of a match is given
  -- whether the value matches, and the value.
  pub record MoreArrayExtensions (T : Type 0) : Type 0 where
    pub mutable_deep_container_copy : List T → Action p (List T)
    pub all_object_subclasses : List T → Getter p (List Any)
    pub all_objects_are_subclasses_of_classes : List T → List Class → Getter p Bool
    pub all_objects_are_subclasses_of : List T → Class → Getter p Bool
    pub array_by_flattening_array : List T → Getter p (List Any)
    pub matching_value_for_key : List T → (key : String) → (Bool → Option Any → Effect p) → Effect p
    pub json_string_representation : List T → Attempt p (Option String)
    pub decode_from_json_string : String → Attempt p (Option (List Any))
    pub all_permutations : List T → Getter p (List Any)

  -- The category Feather on NSDictionary.
  pub record DictionaryExtensions (K V : Type 0) : Type 0 where
    pub mutable_deep_container_copy : Dictionary K V → Action p (Dictionary K V)
    pub dictionary_of_sets : Dictionary K V → Action p (Dictionary Any Any)
    pub contains_object : Dictionary K V → Any → Getter p Bool
    pub contains_object_for_key : Dictionary K V → Any → Getter p Bool
    pub any_object_matching :
        Dictionary K V → (Any → Option Any → Action p Bool) → Action p (Option Any)
    pub dictionary_with_objects_matching :
        Dictionary K V → (Any → Any → Action p Bool) → Action p (Dictionary Any Any)
    pub decode_from_json_string : String → Attempt p (Option (Dictionary Any Any))
    pub json_string_representation : Dictionary K V → Attempt p (Option String)

  -- The category Feather on NSString. An OSType and a unichar are numbers.
  pub record StringExtensions : Type 0 where
    pub contains_substring : (self substring : String) → Getter p Bool
    pub substring_after : (self s : String) → Getter p String
    pub substring_before : (self s : String) → Getter p String
    pub by_trimming_whitespace : String → Getter p String
    pub by_normalizing_whitespace : String → Getter p String
    pub by_normalizing_whitespace_allowing : String → (leading trailing : Bool) → Getter p String
    pub substring_up_to_end_of_first_occurrence : (self s : String) → Getter p (Option String)
    pub by_removing_whitespace : String → Getter p String
    pub sentence_cased_string : String → Getter p String
    pub is_all_upper_case : String → Getter p Bool
    pub by_escaping_non_printable_and_invisible_characters : String → Getter p String
    pub by_unescaping_xml_entities : String → Getter p String
    pub by_escaping_xml_entities : String → Getter p String
    pub by_trimming_leading_whitespace : String → Getter p String
    pub by_trimming_trailing_whitespace : String → Getter p String
    pub html_string_cleaned_from_web_kit_artefacts : String → Getter p String
    pub by_removing_html_tags : String → Getter p String
    pub slug_string : String → Getter p String
    pub root_domain_for_host_name : String → Getter p (Option String)
    pub by_trimming_to_length : String → ℕ → (truncate : Bool) → Getter p String
    pub string_with_os_type : ℕ → Getter p String
    pub is_valid_email_address : String → Getter p Bool
    pub os_type : String → Getter p ℕ
    pub enumerate_characters : String → (ℕ → ℕ → Effect p) → Effect p

  -- The category Feather on NSObject. A delay is an NSTimeInterval; a block that is to call another
  -- takes it as an argument.
  pub record ObjectExtensions : Type 0 where
    pub subclasses : (receiver : Class) → Getter p (List Class)
    pub descending_classes : (receiver : Class) → Getter p (List Class)
    pub property_with_key_is_read_write : (receiver : Class) → String → Getter p Bool
    pub common_ancestor : (receiver a b : Class) → Getter p Class
    pub properties_of_subclasses :
        (receiver cls : Class)
        → (pattern : Class → String → Action p Bool) → Action p (Dictionary String (List String))
    pub property_keys : (receiver : Class) → Getter p (List String)
    pub perform_non_leaking_selector : Any → Selector → Action p Any
    pub perform_non_leaking_selector_with_object : Any → Selector → Option Any → Action p Any
    pub class_of_property : (receiver : Class) → String → Getter p (Option Class)
    pub classes_matching_pattern :
        (receiver : Class) → (pattern : Class → Action p Bool) → Action p (List Class)
    pub matching_value_for_key : Any → (key : String) → (Bool → Option Any → Effect p) → Effect p
    pub perform_in_queue : (receiver : Class) → Queue → (delay : Any) → Effect p → Effect p
    pub perform_in_main_queue : (receiver : Class) → (delay : Any) → Effect p → Effect p
    pub replace_instance_method :
        (receiver : Class)
        → Selector
        → (provider : Implementation → Action p Implementation) → Effect p
    pub replace_instance_method_with_block :
        (receiver : Class) → Selector → (provider : Implementation → Action p Any) → Effect p
    pub replace_class_method :
        (receiver : Class)
        → Selector
        → (provider : Implementation → Action p Implementation) → Effect p
    pub replace_class_method_with_block :
        (receiver : Class) → Selector → (provider : Implementation → Action p Any) → Effect p
    pub run_until_done : (receiver : Class) → (block : Effect p → Effect p) → Effect p
    pub run_until_done_with_timeout :
        (receiver : Class)
        → (block : Effect p → Effect p) → (timeout : Any) → (timeout_block : Effect p) → Effect p
