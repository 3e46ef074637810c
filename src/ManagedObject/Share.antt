-- ===== src/ManagedObject/Share.antt =====
-- Sharing, moderation and locking: `setShared:`, `isShared`, `shareWithError:`, `moderationState`,
-- `accept`, `reject`, `lock` and `unlock` of Feather/Sources/Model/MPManagedObject.m. `int_of_text` is
-- `intValue` of a string and `properties_to_save` that property of the superclass.
pub mod Once
pub mod Standing
mod Steps
pub mod Moderation
mod Tests
use Prim.Native.String.{String}
use feather.Common.{
  if◌then◌else◌, ◌==◌, nat_eq, string_eq, list_eq, is_some, ℕ, ◌%◌, ◌^◌, Bool, true, false, ◌||◌,
  not, Option, none, some, ◌∷◌,
}
use feather.Couch.{Couch}
use feather.Foundation.{Exception, Outcome, returned, raised, ◌>>=◌, ◌>>◌, assert}
use feather.Json.{Value, text, number, bool_value, boolean}
use feather.ManagedObject.{Posting, Object, Class, Surroundings}
use feather.ManagedObject.Save.{write}

module _ (couch : Couch) (class : Class) (env : Surroundings) (int_of_text : String → ℕ)
    (properties_to_save : couch.Model → String → Option Value) where
  open couch use {Model, value}

  pub is_shared : Object Model → Outcome Bool
  unfolding bool_value
  is_shared o = bool_value (value o.model "shared")

  pub set_shared : Bool → Object Model → Outcome (Object Model)
  unfolding is_shared write
  set_shared wanted o = do
    previous ← is_shared o
    let marked = (do
      assert (if wanted then true else not previous)
      o' ← write couch class env "shared" (boolean wanted) o
      returned (if wanted then record o' { posted = Posting.shared ∷ o'.posted } else o')) in
        if (if wanted then previous else not previous) then returned o else marked

  -- `shareWithError:`, with the documents' identifiers of the creator and of the user, where there are
  -- such objects; the result is NO where the error is MPManagedObjectErrorCodeUserNotCreator.
  pub share : Option String → Option String → Object Model → Outcome (Object Model × Bool)
  unfolding set_shared is_shared
  share (some creator) (some me) o =
      let sharing = (do
        previous ← is_shared o
        assert (not previous)
        o' ← set_shared true o
        returned (o', true)) in
      if creator == me then sharing else returned (o, false)
  share _ _ o = returned (o, false)

  pub moderation_state : Object Model → Outcome ℕ
  moderation_state o = elim (value o.model "moderationState") [
    | none ↦ returned 0
    | some (number n) ↦ returned (n % 2 ^ 32)
    | some (text s) ↦ returned (int_of_text s)
    | some _ ↦ raised Exception.invalid_argument
  ]

  -- MPManagedObjectModerationStateAccepted is 1, MPManagedObjectModerationStateRejected is 2.
  pub moderate : ℕ → Object Model → Outcome (Object Model)
  unfolding moderation_state write
  moderate state o = do
    current ← moderation_state o
    assert (not (current == state))
    write couch class env "moderationState" (number state) o

  pub accept : Object Model → Outcome (Object Model)
  unfolding moderate
  accept o = moderate 1 o

  pub reject : Object Model → Outcome (Object Model)
  unfolding moderate
  reject o = moderate 2 o

  pub is_locked : Object Model → Outcome Bool
  unfolding bool_value
  is_locked o = bool_value (value o.model "locked")

  pub lock : Object Model → Outcome (Object Model)
  unfolding is_locked write
  lock o = do
    locked ← is_locked o
    if locked then returned o else write couch class env "locked" (boolean true) o

  pub unlock : Object Model → Outcome (Object Model)
  unfolding is_locked write
  unlock o = do
    locked ← is_locked o
    if locked || not (is_some (properties_to_save o.model "locked"))
        then write couch class env "locked" (boolean false) o
        else returned o
