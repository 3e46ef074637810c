-- ===== src/Embedding/Tests.antt =====
-- Tests of the chain of embedding objects.
use feather.Common.{◌≡◌, refl, length, Bool, true, false, none, some}
use feather.Foundation.{Exception, returned, raised}
use feather.Embedding.{
  Embedder, nobody, managed, embedded_in, mark_needs_save, embedding_managed_object, find_embedder,
}
use feather.Embedding.Chain.{flags, Marks, mark_needs_save_all, find_embedder_nested}

-- An address in a list in the managed object 7.
abbrev nested : Embedder
nested = embedded_in false (managed 7 false)

abbrev set : Bool → Bool
set needs = true

mark_needs_save_all_example :
    Marks
      (embedding_managed_object nested)
      (length (flags (embedded_in false nested)))
      (mark_needs_save set (embedded_in false nested))
mark_needs_save_all_example = mark_needs_save_all set false nested (λ b. refl)

marked :
    mark_needs_save set (embedded_in false nested)
    ≡ returned (embedded_in true (embedded_in true (managed 7 true)))
unfolding mark_needs_save
marked = refl

orphan : mark_needs_save set (embedded_in false nobody) ≡ raised Exception.assertion
unfolding mark_needs_save
orphan = refl

found : embedding_managed_object nested ≡ some 7
unfolding embedding_managed_object
found = refl

find_embedder_nested_example :
    (find_embedder 1000 (embedded_in false nested) ≡ none)
    × (embedding_managed_object (embedded_in false nested) ≡ some 7)
find_embedder_nested_example = find_embedder_nested 1000 false nested found

at_once : find_embedder 1 (managed 7 false) ≡ some (returned 7)
unfolding find_embedder
at_once = refl
