-- ===== src/Embedding/Chain.antt =====
-- What the walks along a chain of embedding objects do.
use feather.Common.{
  ℕ, zero, suc, ◌≡◌, refl, ap, Bool, true, Option, none, some, List, [], ◌∷◌, length, all, arith,
}
use feather.Foundation.{Exception, Outcome, returned, raised, ◌>>=◌}
use feather.Embedding.{
  Embedder, nobody, managed, embedded_in, mark_needs_save, embedding_managed_object, find_embedder,
}

-- The flags along the chain, and how many objects stand in it.
abbrev pub flags : Embedder → List Bool
flags nobody = []
flags (managed i needs) = needs ∷ []
flags (embedded_in needs e) = needs ∷ flags e

-- What marking comes to in a chain of `n` objects, by the managed object at its end: an assertion where
-- there is none, otherwise a chain of as many objects, with the same one at its end, that all need saving.
abbrev pub Marks : Option ℕ → ℕ → Outcome Embedder → Type 0
Marks none n m = m ≡ raised Exception.assertion
Marks (some i) n m =
    (e : Embedder) × (m ≡ returned e)
    × (embedding_managed_object e ≡ some i)
    × (length (flags e) ≡ n)
    × (all (λ b. b) (flags e) ≡ true)

marked_further :
    (o : Option ℕ) (n : ℕ) (m : Outcome Embedder)
    → Marks o n m
    → Marks o (suc n) (m >>= λ e. returned (embedded_in true e))
unfolding embedding_managed_object
marked_further none n m h = ap (λ r. r >>= λ e. returned (embedded_in true e)) h
marked_further (some i) n m (e, returns, ends, long, marked) = (
  embedded_in true e,
  ap (λ r. r >>= λ e. returned (embedded_in true e)) returns,
  ends,
  omega (arith, long),
  marked,
)

-- Where CBLModel's `markNeedsSave` makes a managed object need saving, marking an embedded object makes it
-- and every object up the chain need saving, the managed object included, and changes nothing else of the
-- chain, if that ends at a managed object; if it does not, an assertion stops it.
pub mark_needs_save_all :
    (mark_model : Bool → Bool) (needs : Bool) (e : Embedder)
    → ((b : Bool) → mark_model b ≡ true)
    → Marks
        (embedding_managed_object e)
        (length (flags (embedded_in needs e)))
        (mark_needs_save mark_model (embedded_in needs e))
unfolding mark_needs_save embedding_managed_object
mark_needs_save_all mark_model needs nobody sets = refl
mark_needs_save_all mark_model needs (managed i other) sets =
    (embedded_in true (managed i (mark_model other)), refl, refl, refl, ground (arith, sets other))
mark_needs_save_all mark_model needs (embedded_in other e) sets =
    marked_further (embedding_managed_object e) (length (flags (embedded_in other e)))
      (mark_needs_save mark_model (embedded_in other e))
      (mark_needs_save_all mark_model other e sets)

-- Where an embedded object is embedded in another one, the search of `databaseForModelProperty:` for the
-- managed object does not end, whatever the bound on its rounds, although `embeddingManagedObject` finds
-- the managed object at the end of the chain.
pub find_embedder_nested :
    (fuel : ℕ) (needs : Bool) (e : Embedder) {i : ℕ}
    → embedding_managed_object e ≡ some i
    → (find_embedder fuel (embedded_in needs e) ≡ none)
      × (embedding_managed_object (embedded_in needs e) ≡ some i)
unfolding find_embedder embedding_managed_object
find_embedder_nested zero needs e h = (refl, h)
find_embedder_nested (suc fuel) needs e h = find_embedder_nested fuel needs e h
