-- ===== src/Controller/Imports/Everything.antt =====
-- Which objects an import saves.
use feather.Common.{
  length, all, ltb, if◌then◌else◌, nat_eq, list_eq, string_eq, ℕ, Bool, ◌&&◌, ◌||◌, not, Option,
  ◌≡◌, refl, ap, ◌∙◌, true, false, none, some, List, [], ◌∷◌, map, arith,
}
use feather.Controller.Imports.{
  Import, Loaded, new_object, load_object, object_from_json, keep_object, go_on, collect_objects,
  all_different, same_controller, save_objects, finish_import, objects_from_json,
}
use feather.Foundation.{Outcome, returned, raised, ◌>>=◌}

-- The object that a dictionary stands for.
unfoldable pub object_of : Import → ℕ → ℕ
object_of db d = elim (db.existing d) [ none ↦ db.make d | some o ↦ o ]

abbrev pub returns : Outcome (Unit {0}) → Bool
returns (returned u) = true
returns (raised e) = false

-- Whether an object of a dictionary is loaded: its values can be set, and a class of which there is no
-- object yet is concrete and one of the controller.
abbrev pub is_loaded : Import → ℕ → Bool
is_loaded db d =
    returns (db.sets d)
    && elim (db.existing d) [ none ↦ db.is_concrete d && db.is_managed d | some o ↦ true ]

set_returns : (m : Outcome (Unit {0})) → returns m ≡ true → m ≡ returned tt
set_returns (returned u) h = refl
set_returns (raised e) h = cc

load_object-object :
    (db : Import) (d : ℕ) (existing : Option ℕ)
    → db.existing d ≡ existing
    → is_loaded db d ≡ true
    → (l : Loaded) × (load_object db d existing ≡ returned l)
      × (l.object ≡ object_of db d)
      × (l.id ≡ db.document_id d)
      × ((l.needs_save || not l.is_existing) ≡ true)
unfolding load_object new_object object_of
load_object-object db d none nothing h =
    let set = set_returns (db.sets d) (ground (arith, h)) in
    let concrete : db.is_concrete d ≡ true = ground (arith, h, nothing) in
    let managed : db.is_managed d ≡ true = ground (arith, h, nothing) in
    (
      record { object = db.make d; id = db.document_id d; needs_save = true; is_existing = false },
      rw (concrete, managed, set) refl,
      ground (arith, nothing),
      refl,
      refl,
    )
load_object-object db d (some o) there h =
    let set = set_returns (db.sets d) (ground (arith, h)) in
    (
      record {
        object = o;
        id = db.document_id d;
        needs_save = db.changes d;
        is_existing = db.changes d;
      },
      rw (set) refl,
      ground (arith, there),
      refl,
      ground arith,
    )

object_from_json-object :
    (db : Import) (d : ℕ)
    → db.is_valid d ≡ true
    → is_loaded db d ≡ true
    → (l : Loaded) × (object_from_json db d ≡ returned (some l))
      × (l.object ≡ object_of db d)
      × (l.id ≡ db.document_id d)
      × ((l.needs_save || not l.is_existing) ≡ true)
unfolding object_from_json
object_from_json-object db d valid h =
    let (l, e, is_it, named, kept) = load_object-object db d (db.existing d) refl h in
    (l, rw (valid, e) refl, is_it, named, kept)

collect_objects-all :
    (db : Import) (ds : List ℕ)
    → all db.is_valid ds ≡ true
    → all (is_loaded db) ds ≡ true
    → (loaded : List Loaded) × (collect_objects db ds ≡ returned (some loaded))
      × (map (λ l. l.object) loaded ≡ map (object_of db) ds)
      × (map (λ l. l.id) loaded ≡ map db.document_id ds)
unfolding collect_objects go_on keep_object
collect_objects-all db [] h k = ([], refl, refl, refl)
collect_objects-all db (d ∷ ds) h k =
    let (others, e, objects, ids) =
      collect_objects-all db ds (ground (arith, h)) (ground (arith, k)) in
    let (l, first, is_it, named, kept) =
      object_from_json-object db d (ground (arith, h)) (ground (arith, k)) in
    (
      l ∷ others,
      rw (first, e, kept) refl,
      ap (λ o. o ∷ map (λ l. l.object) others) is_it ∙ ap (λ os. object_of db d ∷ os) objects,
      ap (λ i. i ∷ map (λ l. l.id) others) named ∙ ap (λ is. db.document_id d ∷ is) ids,
    )

-- The answer of an import that saves objects.
abbrev pub saving : Import → List ℕ → Outcome (Option (List ℕ))
saving db objects = do saved ← db.saves objects; returned (if saved then some objects else none)

save_objects-all :
    (db : Import) (loaded : List Loaded) (o : ℕ) (os : List ℕ)
    → map (λ l. l.object) loaded ≡ o ∷ os
    → all_different (map (λ l. l.id) loaded) ≡ true
    → same_controller db (o ∷ os) ≡ true
    → save_objects db loaded ≡ saving db (o ∷ os)
unfolding save_objects
save_objects-all db [] o os h different same = absurd (ground arith)
save_objects-all db (l ∷ loaded) o os h different same =
    let some_there : ltb 0 (length (l ∷ loaded)) ≡ true = ground arith in
    rw (some_there, different, h, ap (same_controller db) h ∙ same) refl

-- An import of dictionaries that are all valid and have different identifiers, of which each object can be
-- loaded (setting its values raises nothing, and the class of a new object is concrete and one of the
-- controller), and whose objects have one controller, comes to saving the object of every dictionary, in
-- their order, also one that is there already and that the dictionary does not change, and gives these
-- objects where they could be saved, otherwise nil.
pub objects_from_json-all :
    (db : Import) (d : ℕ) (ds : List ℕ)
    → all db.is_valid (d ∷ ds) ≡ true
    → all (is_loaded db) (d ∷ ds) ≡ true
    → all_different (map db.document_id (d ∷ ds)) ≡ true
    → same_controller db (map (object_of db) (d ∷ ds)) ≡ true
    → objects_from_json db (d ∷ ds) ≡ saving db (map (object_of db) (d ∷ ds))
unfolding objects_from_json finish_import
objects_from_json-all db d ds valid loads different same =
    let (loaded, e, objects, ids) = collect_objects-all db (d ∷ ds) valid loads in
    ap (λ m. m >>= finish_import db) e
    ∙ save_objects-all db loaded (object_of db d) (map (object_of db) ds) objects
        (ap all_different ids ∙ different) same
