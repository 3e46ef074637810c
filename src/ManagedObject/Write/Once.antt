-- ===== src/ManagedObject/Write/Once.antt =====
-- Sequences of writes, and the properties `objectType` and `_id`.
use Prim.Native.String.{String}
use feather.Common.{
  if◌then◌else◌, ◌==◌, nat_eq, string_eq, list_eq, Bool-cases, is_some, ◌≡◌, refl, ◌∙◌, ◌≢◌, ◌⊎◌,
  inl, inr, Bool, true, false, Option, none, some, List, [], ◌∷◌, ◌++◌, ap, eq_iff, arith,
}
use feather.Couch.{Couch}
use feather.Foundation.{Exception, Outcome, returned, raised, ◌>>=◌, assert, >>=-eq-returned}
use feather.Json.{Value, text}
use feather.ManagedObject.{Object, Class, Surroundings}
use feather.ManagedObject.Write.{
  write_once, stored_value, is_deleted, store_value, checked, set_value,
}

-- The two properties that are written once.
abbrev pub IsGuarded : String → Type 0
IsGuarded property = (property ≡ "objectType") ⊎ (property ≡ "_id")

-- A write by a caller: a property and its new value.
pub record Assignment : Type 0 where
  pub property : String
  pub new_value : Option Value

write_once_free :
    (v existing : Option Value) → write_once v existing ≡ returned false → existing ≡ none
unfolding write_once
write_once_free none existing h = cc
write_once_free (some v) none h = refl
write_once_free (some v) (some w) h = ground arith

module _ (couch : Couch) (class : Class) (env : Surroundings) where
  open couch use {
    Model, document_id, document_deleted, value, put, value-put, document_id-put,
    document_deleted-put,
  }

  checked_free :
      (g p : String) (v : Option Value) (o : Object Model)
      → checked couch g p v o ≡ returned false
      → p ≡ g
      → value o.model p ≡ none
  unfolding checked
  checked_free g p v o h e = write_once_free v (value o.model p) (ground (arith, eq_iff p g))

  store_value_put :
      (p : String) (v : Option Value) (o o' : Object Model) (done : Bool)
      → store_value couch class env p v o ≡ returned (o', done)
      → (w : Option Value) × (o' ≡ record o { model = put p w o.model })
  unfolding store_value
  store_value_put p v o o' done h =
      let (_, _, rest) = >>=-eq-returned (assert (is_some (document_id o.model))) _ h in
      let (w, _, e) = >>=-eq-returned (stored_value class env p v (value o.model p)) _ rest in
      (w, ground arith)

  after_checks :
      (p : String) (v : Option Value) (o o' : Object Model) (done typed identified : Bool)
      → checked couch "objectType" p v o ≡ returned typed
      → (if typed then returned true else checked couch "_id" p v o) ≡ returned identified
      → (if identified then returned (o, true) else store_value couch class env p v o)
        ≡ returned (o', done)
      → (o' ≡ o)
        ⊎ ((w : Option Value) × (o' ≡ record o { model = put p w o.model })
            × (IsGuarded p → value o.model p ≡ none))
  after_checks p v o o' done typed true t i h = inl (ground arith)
  after_checks p v o o' done true false t i h = cc
  after_checks p v o o' done false false t i h =
      let (w, e) = store_value_put p v o o' done h in
      inr (
        w,
        e,
        λ guarded. elim guarded [
          | inl typed ↦ checked_free "objectType" p v o t typed
          | inr identified ↦ checked_free "_id" p v o i identified
        ],
      )

  frame_clash :
      (p q : String) (o : Object Model)
      → p ≡ q
      → (IsGuarded p → value o.model p ≡ none)
      → (p ≢ q) ⊎ (IsGuarded q × (value o.model q ≢ none))
      → ⊥
  frame_clash p q o same free (inl other) = other same
  frame_clash p q o same free (inr (guarded, has)) = has (rw (← same) (free (rw same guarded)))

  -- A write that returns has changed nothing, or it has put one value, and then a guarded property
  -- had none before.
  pub set_value_cases :
      (p : String) (v : Option Value) (o o' : Object Model) (done : Bool)
      → set_value couch class env p v o ≡ returned (o', done)
      → (o' ≡ o)
        ⊎ ((w : Option Value) × (o' ≡ record o { model = put p w o.model })
            × (IsGuarded p → value o.model p ≡ none))
  unfolding set_value
  set_value_cases p v o o' done h = elim (Bool-cases (is_deleted couch o)) [
    | inl gone ↦ inl (ground arith)
    | inr here ↦
        let (typed, t, rest) =
          >>=-eq-returned (checked couch "objectType" p v o) _ (rw (here, set_value) at h) in
        let (identified, i, rest') =
          >>=-eq-returned (if typed then returned true else checked couch "_id" p v o) _ rest in
        after_checks p v o o' done typed identified t i rest'
  ]

  -- A property other than the one written keeps its value, and so does a guarded property that has
  -- one.
  pub set_value_frame :
      (p q : String) (v : Option Value) (o o' : Object Model) (done : Bool)
      → set_value couch class env p v o ≡ returned (o', done)
      → (p ≢ q) ⊎ (IsGuarded q × (value o.model q ≢ none))
      → value o'.model q ≡ value o.model q
  set_value_frame p q v o o' done h keeps = elim (set_value_cases p v o o' done h) [
    | inl same ↦ rw same
    | inr (w, e, free) ↦
        let q' : (p == q) ≡ false = elim (Bool-cases (p == q)) [
          | inl t ↦ absurd (frame_clash p q o ((eq_iff p q).0 t) free keeps)
          | inr f ↦ f
        ] in
        rw (e, value-put) (rw q')
  ]

  -- A sequence of writes, each from the state that the one before has left.
  unfoldable pub set_values : List Assignment → Object Model → Outcome (Object Model)
  set_values [] o = returned o
  set_values (a ∷ later) o = do
    (o', _) ← set_value couch class env a.property a.new_value o
    set_values later o'

  -- Once an object has an `objectType` or an `_id`, no sequence of writes that returns changes it.
  pub set_values_guarded :
      (writes : List Assignment) (q : String) (o o' : Object Model)
      → IsGuarded q
      → value o.model q ≢ none
      → set_values writes o ≡ returned o'
      → value o'.model q ≡ value o.model q
  unfolding set_values
  set_values_guarded [] q o o' guarded has h = ground arith
  set_values_guarded (a ∷ later) q o o' guarded has h =
      let ((o₁, done), first, rest) =
        >>=-eq-returned (set_value couch class env a.property a.new_value o) _ h in
      let same : value o₁.model q ≡ value o.model q =
        set_value_frame a.property q a.new_value o o₁ done first (inr (guarded, has)) in
      set_values_guarded later q o₁ o' guarded (rw same has) rest ∙ same

  set_value_clash :
      (q s t : String) (o : Object Model)
      → IsGuarded q
      → is_deleted couch o ≡ false
      → value o.model q ≡ some (text s)
      → s ≢ t
      → set_value couch class env q (some (text t)) o ≡ raised Exception.mp_invalid_argument
  unfolding set_value checked write_once
  set_value_clash q s t o guarded here has other =
      let differ : (t == s) ≡ false = ground (arith, eq_iff t s) in
      elim guarded [
        | inl e ↦ ground (arith, differ, eq_iff q "objectType")
        | inr e ↦ ground (arith, differ, eq_iff q "objectType", eq_iff q "_id")
      ]

  set_value_here :
      (p : String) (v : Option Value) (o o' : Object Model) (done : Bool)
      → set_value couch class env p v o ≡ returned (o', done)
      → is_deleted couch o' ≡ is_deleted couch o
  unfolding is_deleted
  set_value_here p v o o' done h = elim (set_value_cases p v o o' done h) [
    | inl same ↦ rw same
    | inr (w, e, free) ↦ rw (e, document_id-put p w o.model, document_deleted-put p w o.model) refl
  ]

  -- Where an object that is not deleted has a text as its `objectType` or its `_id`, then after any writes
  -- that return, a write of another text to that property raises MPInvalidArgumentException, whatever
  -- writes were to follow.
  pub set_values_clash :
      (before later : List Assignment) (q s t : String) (o o' : Object Model)
      → IsGuarded q
      → is_deleted couch o ≡ false
      → value o.model q ≡ some (text s)
      → s ≢ t
      → set_values before o ≡ returned o'
      → set_values (before ++ (record { property = q; new_value = some (text t) } ∷ later)) o
        ≡ raised Exception.mp_invalid_argument
  unfolding set_values
  set_values_clash [] later q s t o o' guarded here has other h =
      let clash = set_value_clash q s t o guarded here has other in
      ap (λ m. m >>= λ r. set_values later r.0) clash
  set_values_clash (a ∷ before) later q s t o o' guarded here has other h =
      let ((o₁, done), first, rest) =
        >>=-eq-returned (set_value couch class env a.property a.new_value o) _ h in
      let still = set_value_here a.property a.new_value o o₁ done first ∙ here in
      let holds : value o.model q ≢ none = λ e. ground (arith, e, has) in
      let same : value o₁.model q ≡ some (text s) =
        set_value_frame a.property q a.new_value o o₁ done first (inr (guarded, holds)) ∙ has in
      let after = before ++ (record { property = q; new_value = some (text t) } ∷ later) in
      ap (λ m. m >>= λ r. set_values after r.0) first
      ∙ set_values_clash before later q s t o₁ o' guarded still same other rest
