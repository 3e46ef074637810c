-- ===== src/ManagedObject/Share/Once.antt =====
-- What sharing leaves.
use Prim.Native.String.{String}
use feather.Common.{
  ◌==◌, nat_eq, string_eq, list_eq, ℕ, ◌≡◌, refl, true, false, Option, some, ◌∷◌, arith,
}
use feather.Couch.{Couch}
use feather.Foundation.{Exception, returned, raised}
use feather.Json.{Value, number, bool_value, boolean}
use feather.ManagedObject.{Posting, Object, Class, Surroundings}
use feather.ManagedObject.Save.{write}
use feather.ManagedObject.Share.{is_shared, set_shared}
use feather.ManagedObject.Write.{stored_value, is_deleted, store_value, checked, set_value}

module _ (couch : Couch) (class : Class) (env : Surroundings) (int_of_text : String → ℕ)
    (properties_to_save : couch.Model → String → Option Value) where
  open couch use {Model, value, put, value-put, document_id, document_deleted}

  -- A write of a number to a property that is not written once, in full.
  pub write_result :
      (p : String) (n : ℕ) (o : Object Model)
      → (p == "objectType") ≡ false
      → (p == "_id") ≡ false
      → is_deleted couch o ≡ false
      → write couch class env p (number n) o
        ≡ returned (record o { model = put p (some (number n)) o.model })
  unfolding write set_value checked store_value stored_value is_deleted
  write_result p n o typed identified here = ground (arith, typed, identified, here)

  -- Sharing an object that is not deleted and not shared marks it as shared and posts once that it is;
  -- sharing it again changes nothing, and it cannot be un-shared: that raises an assertion.
  pub set_shared_once :
      (o : Object Model)
      → is_deleted couch o ≡ false
      → is_shared couch class env int_of_text properties_to_save o ≡ returned false
      → (o' : Object Model) × (set_shared couch class env int_of_text properties_to_save true o
          ≡ returned o')
        × (is_shared couch class env int_of_text properties_to_save o' ≡ returned true)
        × (o'.posted ≡ Posting.shared ∷ o.posted)
        × (set_shared couch class env int_of_text properties_to_save true o' ≡ returned o')
        × (set_shared couch class env int_of_text properties_to_save false o'
            ≡ raised Exception.assertion)
  unfolding set_shared is_shared bool_value
  set_shared_once o here unshared =
      let now = record o { model = put "shared" (some (boolean true)) o.model } in
      let written = write_result "shared" 1 o refl refl here in
      let there = value-put "shared" "shared" (some (boolean true)) o.model in
      (
        record now { posted = Posting.shared ∷ o.posted },
        ground (arith, unshared, written),
        ground (arith, there),
        refl,
        ground (arith, there),
        ground (arith, there),
      )
