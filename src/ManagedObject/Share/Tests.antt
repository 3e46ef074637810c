-- ===== src/ManagedObject/Share/Tests.antt =====
-- Sharing and accepting, tried out.
use Prim.Native.String.{String}
use feather.Common.{
  nat_eq, string_eq, list_eq, ◌≡◌, refl, true, false, Option, none, some, List, [], ◌∷◌,
}
use feather.Couch.Store.{Stored, store}
use feather.Foundation.{Exception, returned, raised}
use feather.Json.{Value}
use feather.ManagedObject.{Posting, Object}
use feather.ManagedObject.Samples.{contributor_class, at_seven, new_object}
use feather.ManagedObject.Share.{is_shared, set_shared, moderation_state, is_locked}
use feather.ManagedObject.Share.Standing.{
  Standing, Step, share_it, accept_it, reject_it, lock_it, advance_all, perform_all, Stands, EndsIn,
}
use feather.ManagedObject.Share.Moderation.{perform_all_refines}
use feather.Interfaces.Object.{unmoderated, rejected, moderation_code}
use feather.ManagedObject.Share.Once.{set_shared_once}
use feather.ManagedObject.Write.{is_deleted}

abbrev to_save : Stored → String → Option Value
to_save m q = none

set_shared_once_example :
    (o' : Object Stored) × (set_shared store contributor_class at_seven
        (λ s. 0)
        to_save
        true
        new_object
      ≡ returned o')
    × (is_shared store contributor_class at_seven (λ s. 0) to_save o' ≡ returned true)
    × (o'.posted ≡ Posting.shared ∷ new_object.posted)
    × (set_shared store contributor_class at_seven (λ s. 0) to_save true o' ≡ returned o')
    × (set_shared store contributor_class at_seven (λ s. 0) to_save false o'
        ≡ raised Exception.assertion)
unfolding is_deleted is_shared
set_shared_once_example =
    set_shared_once store contributor_class at_seven (λ s. 0) to_save new_object refl refl

abbrev calls : List Step
calls = accept_it ∷ share_it ∷ lock_it ∷ reject_it ∷ []

abbrev at_first : Standing
at_first = record { shared = false; state = unmoderated; locked = false }

new_object-Stands : Stands store contributor_class at_seven (λ s. 0) to_save new_object at_first
unfolding is_deleted is_shared moderation_state is_locked moderation_code
new_object-Stands = record { here = refl; shared = refl; state = refl; locked = refl }

perform_all_refines_example :
    EndsIn store contributor_class at_seven
      (λ s. 0)
      to_save
      (advance_all calls at_first)
      (perform_all store contributor_class at_seven (λ s. 0) to_save calls new_object)
perform_all_refines_example =
    perform_all_refines store contributor_class at_seven (λ s. 0) to_save calls new_object at_first
      new_object-Stands

rejected_last :
    advance_all calls at_first ≡ some (record { shared = true; state = rejected; locked = true })
unfolding advance_all
rejected_last = refl

accepted_twice : advance_all (accept_it ∷ accept_it ∷ []) at_first ≡ none
unfolding advance_all
accepted_twice = refl
