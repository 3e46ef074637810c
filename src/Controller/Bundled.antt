-- ===== src/Controller/Bundled.antt =====
-- `loadBundledObjectsFromResource:withExtension:matchedToObjects:dataChecksumMetadataKey:error:`. The
-- metadata are the properties of the package's MPMetadata by key, as its object has them in memory.
pub mod Again
use Prim.Native.String.{String}
use feather.Common.{
  if◌then◌else◌, ◌==◌, nat_eq, string_eq, list_eq, is_some, Bool, false, Option, none, some, List,
}
use feather.Foundation.{Outcome, returned, ◌>>=◌, ◌>>◌, assert}

-- What a load finds: whether the process is a service or a command-line tool, whether the resource is
-- there, the digest of its data, the objects that its data gives (`none` after an error), and whether
-- the metadata can be saved.
pub record Resource (A : Type 0) : Type 0 where
  pub in_service : Bool
  pub is_found : Bool
  pub digest : Option String
  pub objects : Option (List A)
  pub metadata_saves : Bool

-- `isEqualToString:`: nil is equal to no string.
unfoldable pub is_equal_to_string : Option String → Option String → Bool
is_equal_to_string (some s) (some t) = s == t
is_equal_to_string _ _ = false

pub set_property : String → Option String → (String → Option String) → String → Option String
set_property key v properties = λ other. if key == other then v else properties other

module _ {A : Type 0} where
  -- What follows where the digest is another than the one in the metadata.
  pub read_objects :
      Resource A → String → (String → Option String) → Option (List A) × (String → Option String)
  unfolding set_property
  read_objects resource key metadata = elim resource.objects [
    | none ↦ (none, metadata)
    | some objects ↦ (
      if resource.metadata_saves then some objects else none,
      set_property key resource.digest metadata,
    )
  ]

  -- The result, and the metadata in memory.
  pub load_bundled_objects :
      Resource A
      → Option (List A)
      → String
      → (String → Option String)
      → Outcome (Option (List A) × (String → Option String))
  unfolding is_equal_to_string read_objects
  load_bundled_objects resource preloaded key metadata =
      let found = (do
        assert resource.is_found
        let loaded = (do assert (is_some preloaded); returned (preloaded, metadata)) in
            if is_equal_to_string resource.digest (metadata key)
            then loaded
            else returned (read_objects resource key metadata)) in
      if resource.in_service then returned (preloaded, metadata) else found
