-- ===== src/ManagedObject/Share/Standing.antt =====
-- The standing that Feather/Sources/Model/MPManagedObject.h gives an object: whether it is shared,
-- moderated and locked; and the calls of MPManagedObject.m that change it.
use Prim.Native.String.{String}
use feather.Common.{
  nat_eq, string_eq, list_eq, ℕ, Bool, true, false, ◌≡◌, Option, none, some, List, [], ◌∷◌,
}
use feather.Couch.{Couch}
use feather.Foundation.{Exception, Outcome, returned, raised, ◌>>=◌}
use feather.Interfaces.Object.{ModerationState, accepted, rejected, moderation_code}
use feather.Json.{Value}
use feather.ManagedObject.{Object, Class, Surroundings}
use feather.ManagedObject.Share.{
  is_shared, set_shared, moderation_state, accept, reject, is_locked, lock, unlock,
}
use feather.ManagedObject.Write.{is_deleted}

-- The standing of an object, as its properties `shared`, `moderationState` and `locked` tell it.
pub record Standing : Type 0 where
  pub shared : Bool
  pub state : ModerationState
  pub locked : Bool

-- `setShared:YES`, `accept`, `reject`, `lock` and `unlock`.
pub data Step : Type 0 where
  share_it : Step
  accept_it : Step
  reject_it : Step
  lock_it : Step
  unlock_it : Step

-- A state that the object already has cannot be given again.
unfoldable pub advance : Step → Standing → Option Standing
advance share_it s = some (record s { shared = true })
advance accept_it s = elim s.state [ accepted ↦ none | _ ↦ some (record s { state = accepted }) ]
advance reject_it s = elim s.state [ rejected ↦ none | _ ↦ some (record s { state = rejected }) ]
advance lock_it s = some (record s { locked = true })
advance unlock_it s = some (record s { locked = false })

abbrev pub next : Option Standing → (Standing → Option Standing) → Option Standing
next none f = none
next (some s) f = f s

unfoldable pub advance_all : List Step → Standing → Option Standing
unfolding advance
advance_all [] s = some s
advance_all (a ∷ steps) s = next (advance a s) (advance_all steps)

module _ (couch : Couch) (class : Class) (env : Surroundings) (int_of_text : String → ℕ)
    (properties_to_save : couch.Model → String → Option Value) where
  open couch use {
    Model, value, put, value-put, document_id, document_deleted, document_id-put,
    document_deleted-put,
  }

  unfoldable pub perform : Step → Object Model → Outcome (Object Model)
  unfolding set_shared accept reject lock unlock
  perform share_it o = set_shared couch class env int_of_text properties_to_save true o
  perform accept_it o = accept couch class env int_of_text properties_to_save o
  perform reject_it o = reject couch class env int_of_text properties_to_save o
  perform lock_it o = lock couch class env int_of_text properties_to_save o
  perform unlock_it o = unlock couch class env int_of_text properties_to_save o

  unfoldable pub perform_all : List Step → Object Model → Outcome (Object Model)
  unfolding perform
  perform_all [] o = returned o
  perform_all (a ∷ steps) o = perform a o >>= perform_all steps

  -- An object that is not deleted has a standing.
  pub record Stands (o : Object Model) (s : Standing) : Type 0 where
    pub here : is_deleted couch o ≡ false
    pub shared : is_shared couch class env int_of_text properties_to_save o ≡ returned s.shared
    pub state :
        moderation_state couch class env int_of_text properties_to_save o
        ≡ returned (moderation_code s.state)
    pub locked : is_locked couch class env int_of_text properties_to_save o ≡ returned s.locked

  -- What a call ends in: an object of the standing, if there is one, and an assertion if not.
  abbrev pub EndsIn : Option Standing → Outcome (Object Model) → Type 0
  EndsIn none r = r ≡ raised Exception.assertion
  EndsIn (some s) r = (o : Object Model) × (r ≡ returned o) × Stands o s
