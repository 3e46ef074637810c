-- ===== src/Controller/Bundled/Again.antt =====
-- Loading the same data a second time.
use Prim.Native.String.{String}
use feather.Common.{
  if◌then◌else◌, nat_eq, string_eq, ==_refl, list_eq, ◌≡◌, refl, true, false, Option, none, some,
  List, arith,
}
use feather.Controller.Bundled.{
  Resource, is_equal_to_string, set_property, read_objects, load_bundled_objects,
}
use feather.Foundation.{returned}

same_string : (s : String) → is_equal_to_string (some s) (some s) ≡ true
unfolding is_equal_to_string
same_string s = ==_refl s

module _ {A : Type 0} where
  -- After data with objects were read, a load that finds data with the same digest and is given objects
  -- that were loaded before returns these and leaves the metadata alone, whatever the data now give
  -- and whether or not the metadata could be saved the first time.
  pub load_bundled_objects_again :
      (first second : Resource A) (before : Option (List A)) (preloaded objects : List A)
      (key d : String) (metadata : String → Option String)
      → first.in_service ≡ false
      → first.is_found ≡ true
      → first.digest ≡ some d
      → first.objects ≡ some objects
      → is_equal_to_string (some d) (metadata key) ≡ false
      → second.is_found ≡ true
      → second.digest ≡ some d
      → (result : Option (List A)) × (left : (String → Option String)) × (load_bundled_objects first
            before key metadata
          ≡ returned (result, left))
        × (result ≡ (if first.metadata_saves then some objects else none))
        × (load_bundled_objects second (some preloaded) key left ≡ returned (some preloaded, left))
  unfolding load_bundled_objects read_objects set_property
  load_bundled_objects_again first second before preloaded objects key d metadata here found digest
        has new there digest' =
      (
        if first.metadata_saves then some objects else none,
        set_property key (some d) metadata,
        ground (arith, here, found, digest, has, new),
        refl,
        ground (arith, there, digest', same_string d, ==_refl key),
      )
