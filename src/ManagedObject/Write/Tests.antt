-- ===== src/ManagedObject/Write/Tests.antt =====
-- Writes of properties, tried out.
use feather.Common.{
  nat_eq, string_eq, list_eq, ◌≡◌, refl, inl, inr, some, List, [], ◌∷◌, ◌++◌, eq_iff, arith,
}
use feather.Couch.Store.{Stored, put_property, store, new_model}
use feather.Foundation.{Exception, raised}
use feather.Json.{text}
use feather.ManagedObject.{Object}
use feather.ManagedObject.Samples.{contributor_class, at_seven, new_object}
use feather.ManagedObject.Write.{
  write_once, stored_value, is_deleted, store_value, checked, set_value,
}
use feather.ManagedObject.Write.Once.{Assignment, set_values, set_values_guarded, set_values_clash}

abbrev another_title : List Assignment
another_title =
    record { property = "title"; new_value = some (text "a") }
    ∷ record { property = "title"; new_value = some (text "b") }
    ∷ []

abbrev titled : Object Stored
titled = record new_object {
  model = put_property "title" (some (text "b")) (put_property "title" (some (text "a")) new_model);
}

set_values_guarded_example : titled.model.properties "_id" ≡ some (text "MPContributor:1")
unfolding set_values set_value checked write_once store_value stored_value is_deleted
set_values_guarded_example =
    set_values_guarded store contributor_class at_seven another_title "_id" new_object titled
      (inr refl) (λ e. ground (arith, e)) refl

set_values_clash_example :
    set_values store contributor_class at_seven
      (another_title
        ++ (record { property = "objectType"; new_value = some (text "MPCategory") }
            ∷ another_title))
      new_object
    ≡ raised Exception.mp_invalid_argument
unfolding set_values set_value checked write_once store_value stored_value is_deleted
set_values_clash_example =
    set_values_clash store contributor_class at_seven another_title another_title "objectType"
      "MPContributor" "MPCategory" new_object titled (inl refl) refl refl
      (λ e. ground (arith, e, eq_iff "MPContributor" "MPCategory")) refl
