-- ===== src/Controller/Views.antt =====
-- Which documents a controller manages, and the map blocks of its views: `managesDocumentWithDictionary:`,
-- `managesDocumentWithIdentifier:`, `managesObjectsOfClass:`, `allObjectsBlock` and `bundledObjectsBlock`.
-- `subclasses` are the names of the controller's class and its subclasses.
pub mod Bundles
use Prim.Native.String.{String}
use feather.Common.{
  contains, if◌then◌else◌, nat_eq, list_eq, string_eq, Bool, false, not, Option, none, some, List,
  [], ◌∷◌,
}
use feather.Foundation.{Outcome, returned, ◌>>=◌, ◌>>◌}
use feather.Json.{Value, text, Fields, get_field, bool_value}

-- What is emitted: a key and, if there is one, a value.
pub record Emission : Type 0 where
  pub key : Option Value
  pub emitted : Option Fields

module _ (subclasses : List String) where
  -- An objectType that is no string is no member.
  unfoldable pub manages_document : Fields → Bool
  unfolding get_field
  manages_document doc = elim (get_field "objectType" doc) [
    | some (text s) ↦ contains subclasses s
    | _ ↦ false
  ]

  -- The name of the class of an identifier is that of no class where it has none.
  pub manages_identifier : (String → Option String) → String → Bool
  manages_identifier class_of id = elim (class_of id) [
    | none ↦ false
    | some name ↦ contains subclasses name
  ]

  pub manages_class : String → Bool
  manages_class name = contains subclasses name

  pub all_objects_block : Fields → List Emission
  unfolding manages_document get_field
  all_objects_block doc =
      if not (manages_document doc)
      then []
      else record { key = get_field "_id" doc; emitted = some doc } ∷ []

  unfoldable pub bundled_objects_block : Fields → Outcome (List Emission)
  unfolding manages_document get_field bool_value
  bundled_objects_block doc =
      let emission : List Emission = record { key = get_field "_id" doc; emitted = none } ∷ [] in
      let tested = (do
        bundled ← bool_value (get_field "bundled" doc)
        returned (if not bundled then [] else emission)) in
      if not (manages_document doc) then returned [] else tested
