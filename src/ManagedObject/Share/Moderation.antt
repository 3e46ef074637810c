-- ===== src/ManagedObject/Share/Moderation.antt =====
-- Sequences of calls that share, moderate and lock an object.
use Prim.Native.String.{String}
use feather.Common.{nat_eq, string_eq, list_eq, ℕ, refl, Option, none, some, List, [], ◌∷◌}
use feather.Couch.{Couch}
use feather.Foundation.{Outcome, ◌>>=◌}
use feather.Json.{Value}
use feather.ManagedObject.{Object, Class, Surroundings}
use feather.ManagedObject.Share.Standing.{
  Standing, Step, advance, advance_all, next, perform, perform_all, Stands, EndsIn,
}
use feather.ManagedObject.Share.Steps.{step_refines}

module _ (couch : Couch) (class : Class) (env : Surroundings) (int_of_text : String → ℕ)
    (properties_to_save : couch.Model → String → Option Value) where
  open couch use {
    Model, value, put, value-put, document_id, document_deleted, document_id-put,
    document_deleted-put,
  }

  next_refines :
      (x : Option Standing) (r : Outcome (Object Model)) (f : Standing → Option Standing)
      (g : Object Model → Outcome (Object Model))
      → EndsIn couch class env int_of_text properties_to_save x r
      → ((o : Object Model) (s : Standing)
          → Stands couch class env int_of_text properties_to_save o s
          → EndsIn couch class env int_of_text properties_to_save (f s) (g o))
      → EndsIn couch class env int_of_text properties_to_save (next x f) (r >>= g)
  next_refines none r f g h later = rw h refl
  next_refines (some s) r f g (o, e, h) later = rw e (later o s h)

  -- Any sequence of calls that share, accept, reject, lock and unlock an object that is not deleted does
  -- what the standing allows: it ends in an object of the standing that the calls lead to, or, where
  -- one of them gives the object the moderation state that it has, in an assertion.
  pub perform_all_refines :
      (steps : List Step) (o : Object Model) (s : Standing)
      → Stands couch class env int_of_text properties_to_save o s
      → EndsIn couch class env int_of_text properties_to_save
          (advance_all steps s)
          (perform_all couch class env int_of_text properties_to_save steps o)
  unfolding advance_all perform_all
  perform_all_refines [] o s h = (o, refl, h)
  perform_all_refines (a ∷ steps) o s h =
      next_refines (advance a s) (perform couch class env int_of_text properties_to_save a o)
        (advance_all steps) (perform_all couch class env int_of_text properties_to_save steps)
        (step_refines couch class env int_of_text properties_to_save a o s h)
        (perform_all_refines steps)
