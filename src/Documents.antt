-- ===== src/Documents.antt =====
-- Dictionaries of documents: Feather/Sources/Categories/NSDictionary+MPManagedObjectExtensions.m. A
-- string is the list of its characters' codes; a colon is 58. Which strings name a subclass of
-- MPManagedObject is a parameter.
pub mod Identifiers
mod Tests
use feather.Common.{
  if◌then◌else◌, ◌==◌, nat_eq, list_eq, string_eq, ℕ, Bool, Option, none, some, List, [], ◌∷◌,
}
use feather.Texts.{components}

-- MPManagedObjectDictionaryValidationErrorCode, as far as it is used.
pub data ValidationError : Type 0 where
  document_id_missing object_type_invalid unexpected_document_id : ValidationError

pub is_colon : ℕ → Bool
is_colon c = c == 58

-- The checks of the document's identifier.
pub check_identifier : List ℕ → List (List ℕ) → Option ValidationError
check_identifier object_type (first ∷ second ∷ []) =
    if first == object_type then none else some unexpected_document_id
check_identifier object_type _ = some unexpected_document_id

-- `isManagedObjectDictionary:`, by the dictionary's objectType and _id: `none` is YES.
pub is_managed_object_dictionary :
    (List ℕ → Bool) → Option (List ℕ) → Option (List ℕ) → Option ValidationError
unfolding check_identifier components is_colon
is_managed_object_dictionary is_class none document_id = some document_id_missing
is_managed_object_dictionary is_class (some object_type) none =
    if is_class object_type then some document_id_missing else some object_type_invalid
is_managed_object_dictionary is_class (some object_type) (some document_id) =
    if is_class object_type
    then check_identifier object_type (components is_colon document_id)
    else some object_type_invalid
