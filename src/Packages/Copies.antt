-- ===== src/Packages/Copies.antt =====
-- The temporary copy of a package: `makeTemporaryCopyIntoRootDirectoryWithURL:overwriteIfExists:` with
-- `failIfExists:error:`.
use mathlib.Core.List.{append_assoc, append-nil}
use feather.Common.{
  ℕ, is_some, filter, Bool, true, false, not, ◌&&◌, ◌≡◌, refl, inl, inr, Option, none, some, List,
  [], ◌∷◌, ◌++◌, map, if◌then◌else◌, arith, sym, ap, ◌∙◌, Bool-cases,
}
use feather.Json.{codes}
use feather.Texts.{strip_prefix}
use feather.Interfaces.Package.{
  PackageError, root_url_missing, file_not_directory, directory_already_exists,
}

-- What NSFileManager answers: what is at the root, whether each call succeeds, and the names of the files
-- in the package, or nil.
pub record Files : Type 0 where
  pub exists : Bool
  pub is_directory : Bool
  pub removes : Bool
  pub creates : Bool
  pub contents : Option (List (List ℕ))
  pub copies : List ℕ → Bool

-- A call of NSFileManager that changes files.
pub data Call : Type 0 where
  remove_root : Call
  create_root : Call
  copy_item : List ℕ → Call

-- The result, the error of this class where it sets one, and the calls made.
pub record Copy : Type 0 where
  pub succeeded : Bool
  pub problem : Option PackageError
  pub calls : List Call

-- The delegate of the file manager, which skips a snapshot; a string is the list of its codes.
unfoldable pub should_copy : List ℕ → Bool
unfolding strip_prefix
should_copy filename = not (is_some (strip_prefix (codes "snapshot") filename))

-- A call for an item that the delegate skips succeeds and does nothing.
copy_items : (List ℕ → Bool) → List Call → List (List ℕ) → Copy
copy_items copies done [] = record { succeeded = true; problem = none; calls = done }
copy_items copies done (f ∷ fs) =
    let skipped = copy_items copies done fs in
    let copied = copy_items copies (done ++ copy_item f ∷ []) fs in
    if not (should_copy f)
    then skipped
    else if copies f
    then copied
    else record { succeeded = false; problem = none; calls = done ++ copy_item f ∷ [] }

copy_contents : (List ℕ → Bool) → List Call → Option (List (List ℕ)) → Copy
unfolding copy_items
copy_contents copies done none = record { succeeded = false; problem = none; calls = done }
copy_contents copies done (some names) = copy_items copies done names

create_and_copy : Files → List Call → Copy
unfolding copy_contents
create_and_copy files done =
    if files.creates
    then copy_contents files.copies (done ++ create_root ∷ []) files.contents
    else record { succeeded = false; problem = none; calls = done ++ create_root ∷ [] }

-- `wants_error` is whether the caller gives a pointer for the error.
unfoldable pub make_temporary_copy :
    Files → (root_given overwrite fail_if_exists wants_error : Bool) → Copy
unfolding create_and_copy
make_temporary_copy files root_given overwrite fail_if_exists wants_error =
    if not root_given
    then record {
      succeeded = false;
      problem = if wants_error then some root_url_missing else none;
      calls = [];
    }
    else if files.exists && not overwrite
    then (if wants_error && fail_if_exists
        then record {
          succeeded = false;
          problem =
              some (if files.is_directory then directory_already_exists else file_not_directory);
          calls = [];
        }
        else record { succeeded = true; problem = none; calls = [] })
    else if files.exists
    then (if files.removes
        then create_and_copy files (remove_root ∷ [])
        else record { succeeded = false; problem = none; calls = remove_root ∷ [] })
    else create_and_copy files []

-- Where something is at the root and is not to be overwritten, no file is touched, and the method fails
-- exactly when it is told to and the caller gives a pointer for the error; without one it reports success.
pub make_temporary_copy_existing :
    (files : Files) (fail_if_exists wants_error : Bool)
    → files.exists ≡ true
    → ((make_temporary_copy files true false fail_if_exists wants_error).calls ≡ [])
      × ((make_temporary_copy files true false fail_if_exists wants_error).succeeded
          ≡ not (fail_if_exists && wants_error))
unfolding make_temporary_copy
make_temporary_copy_existing files fail_if_exists wants_error there = ground (arith, there)

copy_items_all :
    (copies : List ℕ → Bool) (done : List Call) (fs : List (List ℕ))
    → (copy_items copies done fs).succeeded ≡ true
    → (copy_items copies done fs).calls ≡ done ++ map copy_item (filter should_copy fs)
unfolding copy_items
copy_items_all copies done [] h = sym (append-nil done)
copy_items_all copies done (f ∷ fs) h = elim (Bool-cases (should_copy f)) [
  | inl wanted ↦ elim (Bool-cases (copies f)) [
    | inl copied ↦
        let so_far = done ++ copy_item f ∷ [] in
        let later = copy_items_all copies so_far fs (ground (arith, wanted, copied, h)) in
        let joined = append_assoc done (copy_item f ∷ []) (map copy_item (filter should_copy fs)) in
        rw (wanted, copied) (later ∙ joined)
    | inr failed ↦ absurd (ground (arith, wanted, failed, h))
  ]
  | inr unwanted ↦ rw (unwanted) (copy_items_all copies done fs (ground (arith, unwanted, h)))
]

copy_contents_all :
    (copies : List ℕ → Bool) (done : List Call) (contents : Option (List (List ℕ)))
    → (copy_contents copies done contents).succeeded ≡ true
    → (names : List (List ℕ)) × (contents ≡ some names)
      × ((copy_contents copies done contents).calls
          ≡ done ++ map copy_item (filter should_copy names))
unfolding copy_contents
copy_contents_all copies done none h = cc
copy_contents_all copies done (some names) h = (names, refl, copy_items_all copies done names h)

create_and_copy-created :
    (files : Files) (done : List Call)
    → (create_and_copy files done).succeeded ≡ true
    → create_and_copy files done
      ≡ copy_contents files.copies (done ++ create_root ∷ []) files.contents
unfolding create_and_copy
create_and_copy-created files done h = elim (Bool-cases files.creates) [
  | inl created ↦ rw (created)
  | inr failed ↦ absurd (ground (arith, failed, h))
]

create_and_copy_all :
    (files : Files) (done : List Call)
    → (create_and_copy files done).succeeded ≡ true
    → (names : List (List ℕ)) × (files.contents ≡ some names)
      × ((create_and_copy files done).calls
          ≡ done ++ (create_root ∷ map copy_item (filter should_copy names)))
create_and_copy_all files done h =
    let it = create_and_copy-created files done h in
    let so_far = done ++ create_root ∷ [] in
    let copied = ap (λ c. c.succeeded) (sym it) ∙ h in
    let (names, found, calls) = copy_contents_all files.copies so_far files.contents copied in
    (
      names,
      found,
      ap (λ c. c.calls) it
          ∙ (calls
              ∙ append_assoc done (create_root ∷ []) (map copy_item (filter should_copy names))),
    )

make_temporary_copy_is :
    (files : Files) (fail_if_exists wants_error : Bool)
    → (make_temporary_copy files true true fail_if_exists wants_error).succeeded ≡ true
    → make_temporary_copy files true true fail_if_exists wants_error
      ≡ create_and_copy files (if files.exists then remove_root ∷ [] else [])
unfolding make_temporary_copy
make_temporary_copy_is files fail_if_exists wants_error h = elim (Bool-cases files.exists) [
  | inl there ↦ elim (Bool-cases files.removes) [
    | inl removed ↦ rw (there, removed)
    | inr kept ↦ absurd (ground (arith, there, kept, h))
  ]
  | inr free ↦ rw (free)
]

-- With a URL and told to overwrite, a copy that is said to have succeeded has removed what was at the root,
-- made the root directory and then copied each item of the package that is no snapshot, in order, and done
-- nothing else.
pub make_temporary_copy_all :
    (files : Files) (fail_if_exists wants_error : Bool)
    → (make_temporary_copy files true true fail_if_exists wants_error).succeeded ≡ true
    → (names : List (List ℕ)) × (files.contents ≡ some names)
      × ((make_temporary_copy files true true fail_if_exists wants_error).calls
          ≡ (if files.exists then remove_root ∷ [] else [])
            ++ (create_root ∷ map copy_item (filter should_copy names)))
make_temporary_copy_all files fail_if_exists wants_error h =
    let it = make_temporary_copy_is files fail_if_exists wants_error h in
    let before = if files.exists then remove_root ∷ [] else [] in
    let copied = ap (λ c. c.succeeded) (sym it) ∙ h in
    let (names, found, calls) = create_and_copy_all files before copied in
    (names, found, ap (λ c. c.calls) it ∙ calls)
