-- ===== src/Notifications.antt =====
-- The names of notifications: Feather/Sources/Categories/NSNotificationCenter+MPManagedObjectExtensions.m
-- with `stringByTranslatingPresentToPastTense` of Feather/NSString+MPExtensions.swift. A string is the
-- list of its characters' codes.
pub mod Names
mod Tests
use feather.Common.{
  ℕ, ◌-◌, Bool, true, false, ◌&&◌, not, Option, none, some, List, [], ◌∷◌, ◌++◌, length, drop,
  if◌then◌else◌, ◌==◌, list_eq, nat_eq,
}
use feather.Foundation.{Outcome, returned, ◌>>◌, assert}
use feather.Json.{codes}
use feather.ManagedObject.{Change, add, update, remove}
use feather.Texts.{strip_prefix}

-- The keys `has` and `did` of the dictionary of names: of recent and of past changes.
pub data Moment : Type 0 where
  has_happened : Moment
  did_happen : Moment

-- `managedObjectChangeTypeStrings`.
unfoldable pub change_string : Change → List ℕ
change_string add = codes "Add"
change_string update = codes "Update"
change_string remove = codes "Remove"

-- `stringByTranslatingPresentToPastTense`: an "e" at the end goes.
without_e : List ℕ → List ℕ
without_e [] = []
without_e (c ∷ []) = if c == b'e' then [] else c ∷ []
without_e (c ∷ d ∷ cs) = c ∷ without_e (d ∷ cs)

unfoldable pub past_tense : List ℕ → List ℕ
unfolding without_e
past_tense s = without_e s ++ codes "ed"

-- The prefix "MP" of a class name goes.
unfoldable pub unprefixed : List ℕ → List ℕ
unfolding strip_prefix
unprefixed s = elim (strip_prefix (codes "MP") s) [ none ↦ s | some rest ↦ rest ]

unfoldable pub change_name : Moment → Change → List ℕ → List ℕ
unfolding change_string past_tense unprefixed
change_name has_happened change model =
    codes "has" ++ (past_tense (change_string change) ++ unprefixed model)
change_name did_happen change model = codes "did" ++ (change_string change ++ unprefixed model)

has_suffix : List ℕ → List ℕ → Bool
has_suffix s suffix = drop (length s - length suffix) s == suffix

-- `notificationNameForRecentChangeOfType:forManagedObjectClass:` and its like for past changes, of a
-- class by its name. What the runtime knows of a class is `is_managed`, whether it is a proper subclass of
-- MPManagedObject, and `model_class`, the class that its closest controller manages.
unfoldable pub notification_name :
    (is_managed : List ℕ → Bool)
    → (model_class : List ℕ → List ℕ) → Moment
    → Change
    → List ℕ
    → Outcome (List ℕ)
unfolding has_suffix
notification_name is_managed model_class moment change class = do
  assert (is_managed class)
  assert (not (has_suffix class (codes "Mixin")))
  returned (change_name moment change (model_class class))
