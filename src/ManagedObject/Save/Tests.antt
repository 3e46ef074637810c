-- ===== src/ManagedObject/Save/Tests.antt =====
-- Saves and deletions, tried out.
use feather.Common.{
  contains, nat_eq, list_eq, string_eq, ◌+◌, ◌≡◌, refl, ◌⊎◌, true, false, ◌&&◌, not, none, some, [],
  ◌∷◌, ◌++◌,
}
use feather.Couch.Store.{Stored, put_property, delete_stored, store, new_model}
use feather.Foundation.{returned}
use feather.Json.{null, text, number}
use feather.ManagedObject.{remove, recent, past, Object, did_save_object, did_delete_object}
use feather.ManagedObject.Samples.{contributor_class, at_seven, new_object}
use feather.ManagedObject.Save.{
  cloud_kit_change_tag, set_cloud_kit_change_tag, is_clean, clear_embedded, save_object,
  delete_document, object_id,
}
use feather.ManagedObject.Save.History.{
  save_changes, delete_it, additions, fresh, perform, perform_all, perform_all_adds_once,
}
use feather.ManagedObject.Save.Lifecycle.{saved_postings, save_object_posts, delete_document_posts}
use feather.ManagedObject.Save.Stamps.{save_object_stamps}
use feather.ManagedObject.Save.Tag.{set_tag_lost}
use feather.ManagedObject.Write.{is_deleted, set_value}

abbrev saved_model : Stored
saved_model =
    record (put_property "updatedAt" (some (number 7))
      (put_property "createdAt" (some (number 7)) new_model)) { is_dirty = false; revision = true }

abbrev saved_object : Object Stored
saved_object = record new_object {
  model = saved_model;
  is_new = false;
  cached_tag = some null;
  embedded_needs_save = λ key. not (contains ("address" ∷ []) key) && false;
  posted = saved_postings true;
  changes_counted = 1;
}

save_new : save_object store contributor_class at_seven new_object ≡ returned (saved_object, true)
unfolding save_object set_value did_save_object clear_embedded
save_new = refl

save_object_posts_example :
    ((true ≡ true)
      × (saved_object.posted ≡ saved_postings true ++ [])
      × (saved_object.is_new ≡ false)
      × (saved_object.model.is_dirty ≡ false))
    ⊎ ((true ≡ false) × (saved_object.posted ≡ []) × (saved_object.is_new ≡ true))
unfolding is_clean
save_object_posts_example =
    save_object_posts store contributor_class at_seven new_object saved_object true refl save_new

save_object_stamps_example :
    (saved_object.model.properties "createdAt" ≡ some (number 7))
    × (saved_object.model.properties "updatedAt" ≡ some (number 7))
unfolding is_deleted
save_object_stamps_example =
    save_object_stamps store contributor_class at_seven new_object saved_object true refl refl
      save_new

-- A change tag is set on an object whose document has another one.
abbrev tagged_object : Object Stored
tagged_object = record new_object {
  model = put_property "cloudKitChangeTag" (some (text "old")) new_model;
}

abbrev saved_tagged : Object Stored
saved_tagged = record saved_object {
  model =
      record (put_property "updatedAt" (some (number 7))
        (put_property "createdAt" (some (number 7)) tagged_object.model)) {
          is_dirty = false;
          revision = true;
        };
  cached_tag = some (text "new");
}

save_tagged :
    save_object store contributor_class at_seven
      (set_cloud_kit_change_tag store contributor_class at_seven (some (text "new")) tagged_object)
    ≡ returned (saved_tagged, true)
unfolding save_object set_value did_save_object clear_embedded set_cloud_kit_change_tag
save_tagged = refl

set_tag_lost_example :
    ((cloud_kit_change_tag store contributor_class at_seven (
        set_cloud_kit_change_tag store contributor_class at_seven
          (some (text "new"))
          tagged_object)).0
      ≡ none)
    × (saved_tagged.model.properties "cloudKitChangeTag" ≡ some (text "old"))
unfolding is_clean
set_tag_lost_example =
    set_tag_lost store contributor_class at_seven "new" tagged_object saved_tagged true refl
      save_tagged

abbrev deleted_object : Object Stored
deleted_object = record saved_object {
  model = (delete_stored saved_model).1;
  deleted_document_id = some "MPContributor:1";
  cached_tag = none;
  posted = past remove none ∷ recent remove none ∷ saved_postings true;
  changes_counted = 2;
}

delete_document_posts_example :
    (o' : Object Stored) × (((delete_document store contributor_class at_seven saved_object
          ≡ returned (o', true))
        × (o'.posted ≡ past remove none ∷ recent remove none ∷ saved_object.posted)
        × (is_deleted store o' ≡ true)
        × (object_id store contributor_class at_seven o' ≡ returned "MPContributor:1"))
      ⊎ ((delete_document store contributor_class at_seven saved_object ≡ returned (o', false))
          × (o'.posted ≡ saved_object.posted)))
delete_document_posts_example =
    delete_document_posts store contributor_class at_seven saved_object "MPContributor:1" refl refl

perform_all_adds_once_example :
    additions deleted_object.posted + fresh deleted_object.is_new
    ≡ additions new_object.posted + fresh new_object.is_new
unfolding perform_all perform save_object set_value did_save_object clear_embedded delete_document
    did_delete_object
perform_all_adds_once_example =
    perform_all_adds_once store contributor_class
      ((at_seven, save_changes) ∷ (at_seven, delete_it) ∷ []) new_object deleted_object refl
