-- ===== src/Controller/Lookup.antt =====
-- The cache of objects: `registerObject:`, `deregisterObject:`, `objectWithIdentifier:` and
-- `managedObjectsForQueryEnumerator:`. An object is the number of its pointer.
pub mod Found
use Prim.Native.String.{String}
use feather.Common.{
  if◌then◌else◌, ◌==◌, nat_eq, list_eq, string_eq, ℕ, Bool, true, ◌||◌, not, Option, none, some,
  List, [], ◌∷◌,
}
use feather.Foundation.{Exception, Outcome, returned, raised, ◌>>=◌, ◌>>◌, assert}

-- What Couchbase Lite knows of a document: its model object, whether it is deleted, and the object that
-- `modelForDocument:` makes of it.
pub record Document : Type 0 where
  pub model_object : Option ℕ
  pub is_gone : Bool
  pub made : Option ℕ

-- A controller: its cache, the documents of its database, whether it relays to the shoebox, whether its
-- package is the shoebox, the objects that are of its class, those of them that have it as their
-- controller, and the identifiers that name a class of its.
pub record Controller : Type 0 where
  pub cache : String → Option ℕ
  pub documents : String → Option Document
  pub relays : Bool
  pub in_shoebox : Bool
  pub manages : ℕ → Bool
  pub owns : ℕ → Bool
  pub names_class : String → Bool

-- `registerObject:`, of an object with the identifier of its document.
pub register_object : ℕ → Option String → Controller → Outcome Controller
register_object o document_id self = do
  assert (self.manages o)
  elim document_id [
    | none ↦ raised Exception.assertion
    | some id ↦
        returned (record self { cache = λ other. if id == other then some o else self.cache other })
  ]

-- `deregisterObject:`
pub deregister_object : ℕ → Option String → Controller → Outcome Controller
deregister_object o document_id self = do
  assert (self.manages o)
  elim document_id [
    | none ↦ returned self
    | some id ↦ elim (self.cache id) [
      | none ↦ returned self
      | some cached ↦ returned (
          if cached == o
          then record self { cache = λ other. if id == other then none else self.cache other }
          else self)
    ]
  ]

-- The object of a document that is there.
unfoldable pub model_of_document : Document → Outcome (Option ℕ)
model_of_document doc = elim doc.model_object [
  | some o ↦ returned (some o)
  | none ↦
      if doc.is_gone
      then returned none
      else elim doc.made [ none ↦ raised Exception.assertion | some o ↦ returned (some o) ]
]

-- `objectWithIdentifier:` up to the relay, with what the relay gives.
unfoldable pub lookup : Controller → String → Outcome (Option ℕ) → Outcome (Option ℕ)
unfolding model_of_document
lookup self id relayed = do
  assert (self.names_class id)
  elim (self.cache id) [
    | some o ↦ (do assert (self.owns o); returned (some o))
    | none ↦ elim (self.documents id) [
      | none ↦ relayed
      | some doc ↦ (do
        found ← model_of_document doc
        assert (elim found [ none ↦ true | some o ↦ self.owns o ])
        returned found)
    ]
  ]

-- `objectWithIdentifier:`, with the shoebox's controller of the same class, which does not relay.
unfoldable pub object_with_identifier : Controller → Controller → String → Outcome (Option ℕ)
unfolding lookup
object_with_identifier shoebox self id = lookup self id (
    if not self.relays || self.in_shoebox then returned none else lookup shoebox id (returned none))

-- A row of a query: its document's identifier and its document.
pub record Row : Type 0 where
  pub document_id : String
  pub document : Document

-- The object of a row, if it has one. The assertion that a model object's document is the row's, and
-- the setting of the document of a cached object, are left out.
pub row_object : Controller → Row → Option ℕ
row_object self row = elim row.document.model_object [
  | some o ↦ some o
  | none ↦ elim (self.cache row.document_id) [
    | some o ↦ some o
    | none ↦ if row.document.is_gone then none else row.document.made
  ]
]

pub managed_objects_for_rows : Controller → List Row → List ℕ
unfolding row_object
managed_objects_for_rows self [] = []
managed_objects_for_rows self (row ∷ rows) = elim (row_object self row) [
  | none ↦ managed_objects_for_rows self rows
  | some o ↦ o ∷ managed_objects_for_rows self rows
]
