-- ===== src/Embedding.antt =====
-- The chain of objects that embed an embedded object: Feather/Sources/Model/MPEmbeddedObject.m. What
-- CBLModel's `markNeedsSave` makes of the flag of the managed object at its end is the parameter
-- `mark_model`.
mod Chain
mod Tests
use feather.Common.{ℕ, zero, suc, Bool, true, false, Option, none, some}
use feather.Foundation.{Exception, Outcome, returned, raised, ◌>>=◌, ◌>>◌, assert}

-- What is found along `embeddingObject`: nil, a managed object, or an embedded object and what is found
-- from that. A managed object is known by a number; a Boolean is `needsSave`.
pub data Embedder : Type 0 where
  nobody : Embedder
  managed : ℕ → Bool → Embedder
  embedded_in : Bool → Embedder → Embedder

has_embedder : Embedder → Bool
has_embedder nobody = false
has_embedder (managed i needs) = true
has_embedder (embedded_in needs e) = true

-- `markNeedsSave` of an object that stands in the chain: an embedded object asserts that something
-- embeds it, sets its flag and sends the message on. A message to nil does nothing.
unfoldable pub mark_needs_save : (mark_model : Bool → Bool) → Embedder → Outcome Embedder
unfolding has_embedder
mark_needs_save mark_model nobody = returned nobody
mark_needs_save mark_model (managed i needs) = returned (managed i (mark_model needs))
mark_needs_save mark_model (embedded_in needs e) = do
  assert (has_embedder e)
  e' ← mark_needs_save mark_model e
  returned (embedded_in true e')

-- `embeddingManagedObject`, of an embedded object with the given embedding object.
unfoldable pub embedding_managed_object : Embedder → Option ℕ
embedding_managed_object nobody = none
embedding_managed_object (managed i needs) = some i
embedding_managed_object (embedded_in needs e) = embedding_managed_object e

-- The loop of `databaseForModelProperty:` that looks for the managed object, with a bound on its rounds:
-- each round reads the embedding object of the same object again. `none` where the bound is reached.
unfoldable pub find_embedder : ℕ → Embedder → Option (Outcome ℕ)
find_embedder zero e = none
find_embedder (suc fuel) nobody = some (raised Exception.assertion)
find_embedder (suc fuel) (managed i needs) = some (returned i)
find_embedder (suc fuel) (embedded_in needs e) = find_embedder fuel (embedded_in needs e)
