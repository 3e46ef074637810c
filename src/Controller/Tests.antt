-- ===== src/Controller/Tests.antt =====
-- Conflicts and bundled data, tried out.
use Prim.Native.String.{String}
use feather.Common.{
  if◌then◌else◌, ◌==◌, nat_eq, list_eq, string_eq, ℕ, ◌≡◌, refl, true, false, Option, none, some,
  List, [], ◌∷◌, ◌++◌, map, arith,
}
use feather.Controller.Bundled.{Resource, is_equal_to_string, load_bundled_objects}
use feather.Controller.Bundled.Again.{load_bundled_objects_again}
use feather.Controller.Conflicts.{
  ordered_same, Revision, delete_revision, create_revision, resolve_conflicting_revisions,
}
use feather.Controller.Conflicts.Oldest.{NotBefore, resolve_keeps_oldest}
use feather.Controller.Imports.{Import, all_different, same_controller, objects_from_json}
use feather.Controller.Imports.Everything.{object_of, objects_from_json-all}
use feather.Controller.Lookup.{Controller}
use feather.Controller.Views.{all_objects_block, bundled_objects_block}
use feather.Controller.Views.Bundles.{bundled_objects_block-all}
use feather.Foundation.{returned}
use feather.Json.{text, Fields, end, field, boolean}
use mathlib.Core.List.{Perm}

abbrev revisions : List (Revision ℕ)
revisions =
    record { revision_id = "2-b"; updated_at = some 8; properties = 1 }
    ∷ record { revision_id = "2-a"; updated_at = some 5; properties = 2 }
    ∷ []

timed : NotBefore 0 revisions
unfolding NotBefore
timed = ((8, refl, omega arith), ((5, refl, omega arith), tt))

resolve_keeps_oldest_example :
    (kept : Revision ℕ) × (others : List (Revision ℕ)) × (t : ℕ) × (resolve_conflicting_revisions
        (λ a b. ordered_same)
        (λ c. true)
        (some revisions)
      ≡ returned (true, map delete_revision others ++ (create_revision kept ∷ [])))
    × Perm (kept ∷ others) revisions
    × (kept.updated_at ≡ some t)
    × NotBefore t others
resolve_keeps_oldest_example =
    resolve_keeps_oldest (λ a b. ordered_same) (λ c. true) revisions (omega arith) timed (λ c. refl)

abbrev bundle : Resource ℕ
bundle = record {
  in_service = false;
  is_found = true;
  digest = some "d";
  objects = some (4 ∷ []);
  metadata_saves = false;
}

load_bundled_objects_again_example :
    (result : Option (List ℕ)) × (left : (String → Option String)) × (load_bundled_objects bundle
        none "checksum"
        (λ k. none)
      ≡ returned (result, left))
    × (result ≡ none)
    × (load_bundled_objects bundle (some (6 ∷ [])) "checksum" left ≡ returned (some (6 ∷ []), left))
unfolding is_equal_to_string
load_bundled_objects_again_example =
    load_bundled_objects_again bundle bundle none (6 ∷ []) (4 ∷ []) "checksum" "d" (λ k. none) refl
      refl refl refl refl refl refl

abbrev empty_controller : Controller
empty_controller = record {
  cache = λ id. none;
  documents = λ id. none;
  relays = true;
  in_shoebox = false;
  manages = λ o. true;
  owns = λ o. o == 5;
  names_class = λ id. true;
}

abbrev shoebox : Controller
shoebox = record empty_controller {
  documents = λ id. some (record { model_object = none; is_gone = false; made = some 8 });
  in_shoebox = true;
  owns = λ o. o == 8;
}

-- The object 20 of the first dictionary is there and not changed by it.
abbrev two_dictionaries : Import
two_dictionaries = record {
  is_valid = λ d. true;
  document_id = λ d. if d == 1 then "A:1" else "A:2";
  existing = λ d. if d == 1 then some 20 else none;
  sets = λ d. returned tt;
  changes = λ d. false;
  is_concrete = λ d. true;
  is_managed = λ d. true;
  make = λ d. 30;
  controller_of = λ o. 4;
  saves = λ objects. returned true;
}

objects_from_json-all_example :
    objects_from_json two_dictionaries (1 ∷ 2 ∷ []) ≡ returned (some (20 ∷ 30 ∷ []))
unfolding object_of all_different same_controller
objects_from_json-all_example =
    objects_from_json-all two_dictionaries 1 (2 ∷ []) refl refl refl refl

abbrev bundled_document : Fields
bundled_document =
    field "_id" (text "A:1") (field "objectType" (text "A") (field "bundled" (boolean true) end))

bundled_objects_block-all_example :
    all_objects_block ("A" ∷ []) bundled_document
    ≡ record { key = some (text "A:1"); emitted = some bundled_document } ∷ []
unfolding bundled_objects_block
bundled_objects_block-all_example =
    bundled_objects_block-all ("A" ∷ []) bundled_document
      (record { key = some (text "A:1"); emitted = none }) refl
