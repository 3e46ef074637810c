-- ===== src/Notifications/Names.antt =====
-- Different changes have different notifications.
use feather.Common.{ℕ, ap, get_elem?, Option, ◌∙◌, Bool, ◌≡◌, refl, List, arith, list_eq, nat_eq}
use feather.Foundation.{returned}
use feather.ManagedObject.{Change, add, update, remove}
use feather.Notifications.{
  Moment, has_happened, did_happen, change_name, unprefixed, notification_name,
}

-- The letter at an index, which tells the moment and the kind of change.
abbrev letter : ℕ → List ℕ → Option ℕ
letter i s = get_elem? s i

change_name-injective :
    (m n : Moment) (c d : Change) (x y : List ℕ)
    → change_name m c x ≡ change_name n d y
    → (m ≡ n) × (c ≡ d) × (unprefixed x ≡ unprefixed y)
unfolding change_name
change_name-injective has_happened has_happened add add x y e = (refl, refl, cc)
change_name-injective has_happened has_happened update update x y e = (refl, refl, cc)
change_name-injective has_happened has_happened remove remove x y e = (refl, refl, cc)
change_name-injective did_happen did_happen add add x y e = (refl, refl, cc)
change_name-injective did_happen did_happen update update x y e = (refl, refl, cc)
change_name-injective did_happen did_happen remove remove x y e = (refl, refl, cc)
change_name-injective m n c d x y e = absurd (ground (arith, ap (letter 0) e, ap (letter 3) e))

-- Two calls that give the same name are about the same moment, the same kind of change and classes whose
-- closest controllers manage classes of the same name, up to the prefix MP.
pub notification_name-injective :
    (is_managed : List ℕ → Bool) (model_class : List ℕ → List ℕ) (m n : Moment) (c d : Change)
    (x y : List ℕ) {s : List ℕ}
    → notification_name is_managed model_class m c x ≡ returned s
    → notification_name is_managed model_class n d y ≡ returned s
    → (m ≡ n) × (c ≡ d) × (unprefixed (model_class x) ≡ unprefixed (model_class y))
unfolding notification_name
notification_name-injective is_managed model_class m n c d x y {s} e f =
    let first : change_name m c (model_class x) ≡ s = ground (arith, e) in
    let second : s ≡ change_name n d (model_class y) = ground (arith, f) in
    change_name-injective m n c d (model_class x) (model_class y) (first ∙ second)
