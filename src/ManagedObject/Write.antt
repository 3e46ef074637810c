-- ===== src/ManagedObject/Write.antt =====
-- Writing a property: `setValue:ofProperty:` of Feather/Sources/Model/MPManagedObject.m, with what it
-- uses of MPEmbeddedObject.m. The identity of embedded objects and the cache of them by identifier
-- are left out.
pub mod Once
mod Tests
use Prim.Native.String.{◌++◌ as str_append}
use Prim.Native.String.{String}
use feather.Common.{
  contains, if◌then◌else◌, ◌==◌, nat_eq, string_eq, list_eq, is_some, Bool, true, false, ◌||◌, not,
  Option, none, some,
}
use feather.Couch.{Couch}
use feather.Foundation.{Exception, Outcome, returned, raised, ◌>>=◌, ◌>>◌, assert}
use feather.Json.{
  Value, text, object, embedded, Fields, get_field, remove_field, set_field, is_equal,
}
use feather.ManagedObject.{Object, Class, Surroundings}

-- The checks of `setValue:ofProperty:` for `objectType` and `_id`: whether the value is there already.
unfoldable pub write_once : Option Value → Option Value → Outcome Bool
unfolding is_equal
write_once none existing = raised Exception.assertion
write_once (some v) none = returned false
write_once (some v) (some w) =
    if is_equal v w then returned true else raised Exception.mp_invalid_argument

-- `[self valueForKey:]` of an embedded property, as far as `setValue:ofProperty:` needs it: the class
-- of the embedded object. A value from the document is decoded first (`getEmbeddedObjectProperty:`,
-- `decodeEmbeddedObject:embeddingKey:`); a decoding that fails ends in the assertion of
-- `cacheEmbeddedObjectByIdentifier:`.
class_of_fields : Class → Fields → Outcome (Option String)
class_of_fields class fs = elim (get_field "objectType" fs) [
  | some (text c) ↦
      if class.is_embedded_class c then returned (some c) else raised Exception.assertion
  | _ ↦ raised Exception.assertion
]

unfoldable pub embedded_class : Class → Surroundings → Option Value → Outcome (Option String)
unfolding class_of_fields get_field
embedded_class class env (some (embedded c fs)) = returned (some c)
embedded_class class env (some (object fs)) = class_of_fields class fs
embedded_class class env (some (text s)) = elim (env.parse s) [
  | some fs ↦ class_of_fields class fs
  | none ↦ raised Exception.assertion
]
embedded_class class env _ = returned none

-- A new embedded object from a dictionary, without its `_id` and its `objectType`: it gets its own.
unfoldable pub new_embedded : Surroundings → String → Fields → Value
unfolding remove_field set_field
new_embedded env c fs =
    let left = remove_field "objectType" (remove_field "_id" fs) in
    embedded c (
      set_field "objectType" (text c)
        (set_field "_id" (text (str_append c (str_append ":" env.uuid))) left))

-- The value that `[super setValue:ofProperty:]` is called with.
unfoldable pub stored_value :
    Class → Surroundings → String → Option Value → Option Value → Outcome (Option Value)
unfolding embedded_class new_embedded
stored_value class env property (some (object fs)) existing =
    let converted = (do
      found ← embedded_class class env existing
      returned (elim found [ none ↦ some (object fs) | some c ↦ some (new_embedded env c fs) ])) in
    if contains class.embedded_properties property then converted else returned (some (object fs))
stored_value class env property v existing = returned v

module _ (couch : Couch) where
  open couch use {Model, document_id, document_deleted, value, put}

  unfoldable pub is_deleted : Object Model → Bool
  is_deleted o = not (is_some (document_id o.model)) || document_deleted o.model

  -- What `setValue:ofProperty:` does behind its checks.
  unfoldable pub store_value :
      Class → Surroundings → String → Option Value → Object Model → Outcome (Object Model × Bool)
  unfolding stored_value
  store_value class env property v o = do
    assert (is_some (document_id o.model))
    w ← stored_value class env property v (value o.model property)
    returned (record o { model = put property w o.model }, true)

  -- The check for one of the two properties that are written once.
  unfoldable pub checked : String → String → Option Value → Object Model → Outcome Bool
  unfolding write_once
  checked guarded property v o =
      if property == guarded then write_once v (value o.model property) else returned false

  unfoldable pub set_value :
      Class → Surroundings → String → Option Value → Object Model → Outcome (Object Model × Bool)
  unfolding is_deleted store_value checked
  set_value class env property v o =
      let written = (do
        typed ← checked "objectType" property v o
        identified ← if typed then returned true else checked "_id" property v o
        if identified then returned (o, true) else store_value class env property v o) in
      if is_deleted o then returned (o, true) else written
