-- ===== src/Packages/Revisions.antt =====
-- Which revisions a database takes: `validateRevision:validationContext:` of
-- Feather/Sources/Database Packages/MPDatabase.m and the validation block that calls it. Couchbase Lite does
-- not save a revision that the context rejects; it does not read the method's answer.
use feather.Common.{
  ℕ, Bool, true, false, not, ◌||◌, ◌≡◌, refl, ◌↔◌, Option, none, some, List, if◌then◌else◌, ◌==◌,
  list_eq, nat_eq, arith, Bool-cases, inl, inr, is_some,
}
use feather.Foundation.{Outcome, returned, ◌>>◌, assert}
use feather.Json.{codes}
use feather.Texts.{strip_prefix}

-- The properties of a revision that are read: the identifier of its document, its own `_id` and its type.
pub record Revision : Type 0 where
  pub is_deletion : Bool
  pub document_id : Option (List ℕ)
  pub id : Option (List ℕ)
  pub object_type : Option (List ℕ)

-- The answer, and whether the context was told to reject the revision.
pub record Verdict : Type 0 where
  pub answer : Bool
  pub is_rejected : Bool

abbrev accept : Verdict
accept = record { answer = true; is_rejected = false }

abbrev reject : Verdict
reject = record { answer = false; is_rejected = true }

unfoldable pub has_prefix : Option (List ℕ) → List ℕ → Bool
unfolding strip_prefix
has_prefix none prefix = false
has_prefix (some s) prefix = is_some (strip_prefix prefix s)

unfoldable pub identifier_of : Revision → Option (List ℕ)
identifier_of r = elim r.document_id [ none ↦ r.id | some i ↦ some i ]

unfoldable pub is_element : Option (List ℕ) → Bool
is_element none = false
is_element (some t) = t == codes "MPElement"

-- What the runtime knows of a name: `none` where no class has it, else what its `validateRevision:` says.
module _ (class_validates : List ℕ → Option Bool) where
  validate_class : Option Bool → Verdict
  validate_class none = reject
  validate_class (some valid) = if valid then accept else reject

  validate_typed : Option (List ℕ) → List ℕ → Verdict
  unfolding has_prefix validate_class
  validate_typed identifier object_type =
      if has_prefix identifier object_type
      then validate_class (class_validates object_type)
      else reject

  -- A revision without a type only is logged.
  validate_untyped : Option (List ℕ) → Verdict
  unfolding has_prefix
  validate_untyped identifier = record {
    answer =
        has_prefix identifier (codes "MPMetadata")
        || has_prefix identifier (codes "MPLocalMetadata");
    is_rejected = false;
  }

  validate_by_type : Option (List ℕ) → Option (List ℕ) → Verdict
  unfolding validate_typed validate_untyped
  validate_by_type identifier none = validate_untyped identifier
  validate_by_type identifier (some object_type) = validate_typed identifier object_type

  -- `fails` is whether a default of the debug build makes this save fail.
  unfoldable pub validate_revision : (fails : Bool) → Revision → Verdict
  unfolding validate_by_type identifier_of
  validate_revision fails r =
      if fails
      then reject
      else if r.is_deletion
      then accept
      else validate_by_type (identifier_of r) r.object_type

  -- The validation block: whether the revision is saved.
  unfoldable pub takes_revision : (fails : Bool) → Revision → Outcome Bool
  unfolding validate_revision
  takes_revision fails r = do
    assert (not (is_element r.object_type))
    returned (not (validate_revision fails r).is_rejected)

validate_class_iff :
    (validates : List ℕ → Option Bool) (o : Option Bool)
    → (not (validate_class validates o).is_rejected ≡ true) ↔ (o ≡ some true)
unfolding validate_class
validate_class_iff validates none = ground arith
validate_class_iff validates (some true) = ground arith
validate_class_iff validates (some false) = ground arith

validate_typed_iff :
    (validates : List ℕ → Option Bool) (identifier : Option (List ℕ)) (t : List ℕ)
    → (not (validate_typed validates identifier t).is_rejected ≡ true)
      ↔ ((has_prefix identifier t ≡ true) × (validates t ≡ some true))
unfolding validate_typed
validate_typed_iff validates identifier t =
    let by_class = validate_class_iff validates (validates t) in
    elim (Bool-cases (has_prefix identifier t)) [
      | inl named ↦ ground (arith, named, by_class)
      | inr other ↦ ground (arith, other)
    ]

takes_kept :
    (validates : List ℕ → Option Bool) (r : Revision) (is_deletion : Bool) (t : Option (List ℕ))
    → is_deletion ≡ false
    → is_element t ≡ false
    → takes_revision validates false (record r { is_deletion = is_deletion; object_type = t })
      ≡ returned (not (validate_by_type validates (identifier_of r) t).is_rejected)
unfolding takes_revision validate_revision identifier_of
takes_kept validates r is_deletion t kept plain = rw (plain, kept) refl

takes_typed :
    (validates : List ℕ → Option Bool) (r : Revision) (o : Option (List ℕ)) (t : List ℕ)
    → o ≡ some t
    → (t == codes "MPElement") ≡ false
    → r.is_deletion ≡ false
    → takes_revision validates false (record r { object_type = o })
      ≡ returned (not (validate_typed validates (identifier_of r) t).is_rejected)
unfolding is_element validate_by_type
takes_typed validates r o t typed plain kept =
    rw typed (takes_kept validates r r.is_deletion (some t) kept plain)

-- Where no default makes saves fail, a revision with an object type, other than the type that stops the
-- program, that is no deletion is saved exactly if the identifier of its document begins with the type and
-- the type is the name of a class that finds the revision valid.
pub takes_revision_iff :
    (validates : List ℕ → Option Bool) (r : Revision) (t : List ℕ)
    → r.object_type ≡ some t
    → r.is_deletion ≡ false
    → (t == codes "MPElement") ≡ false
    → (takes_revision validates false r ≡ returned true)
      ↔ ((has_prefix (identifier_of r) t ≡ true) × (validates t ≡ some true))
takes_revision_iff validates r t typed kept plain =
    let it = takes_typed validates r r.object_type t typed plain kept in
    ground (arith, it, validate_typed_iff validates (identifier_of r) t)
