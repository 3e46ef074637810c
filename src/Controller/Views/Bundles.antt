-- ===== src/Controller/Views/Bundles.antt =====
-- The bundled objects among all objects.
use Prim.Native.String.{String}
use feather.Common.{nat_eq, list_eq, string_eq, ◌≡◌, some, List, [], ◌∷◌, arith}
use feather.Controller.Views.{Emission, all_objects_block, bundled_objects_block}
use feather.Foundation.{returned}
use feather.Json.{Fields}

module _ (subclasses : List String) where
  -- A document for which the view of bundled objects emits something is emitted by the view of all
  -- objects under the same key.
  pub bundled_objects_block-all :
      (doc : Fields) (e : Emission)
      → bundled_objects_block subclasses doc ≡ returned (e ∷ [])
      → all_objects_block subclasses doc ≡ record { key = e.key; emitted = some doc } ∷ []
  unfolding bundled_objects_block all_objects_block
  bundled_objects_block-all doc e h = ground arith
