-- ===== src/Notifications/Tests.antt =====
-- Tests of the names of notifications.
use feather.Common.{ℕ, Bool, not, ◌≡◌, refl, List, ◌==◌, list_eq, nat_eq}
use feather.Foundation.{Exception, returned, raised}
use feather.Json.{codes}
use feather.ManagedObject.{add, update, remove}
use feather.Notifications.{has_happened, did_happen, change_name, unprefixed, notification_name}
use feather.Notifications.Names.{notification_name-injective}

-- The classes are proper subclasses of MPManagedObject, but for that class, and have controllers of their own.
is_managed : List ℕ → Bool
is_managed class = not (class == codes "MPManagedObject")

itself : List ℕ → List ℕ
itself class = class

updated :
    notification_name is_managed itself has_happened update (codes "MPContributor")
    ≡ returned (codes "hasUpdatedContributor")
unfolding notification_name change_name is_managed itself
updated = refl

removed : change_name did_happen remove (codes "MPContributor") ≡ codes "didRemoveContributor"
unfolding change_name
removed = refl

mixin :
    notification_name is_managed itself did_happen add (codes "MPCacheableMixin")
    ≡ raised Exception.assertion
unfolding notification_name change_name is_managed itself
mixin = refl

notification_name-injective_example :
    (has_happened ≡ has_happened)
    × (update ≡ update)
    × (unprefixed (itself (codes "MPContributor")) ≡ unprefixed (itself (codes "MPContributor")))
notification_name-injective_example =
    notification_name-injective is_managed itself has_happened has_happened update update
      (codes "MPContributor") (codes "MPContributor") updated updated
