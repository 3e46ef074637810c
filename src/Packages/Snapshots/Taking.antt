-- ===== src/Packages/Snapshots/Taking.antt =====
-- Which objects a new snapshot holds.
use feather.Common.{ℕ, Bool, not, ◌≡◌, Option, List, [], ◌∷◌, if◌then◌else◌, is_some}
use feather.Packages.Snapshots.{Managed, Snapshotted, new_snapshotted, Taken}

-- Whether the snapshotted object of an object is saved.
abbrev pub is_saved : (Snapshotted → Option ℕ) → List ℕ → Managed → Bool
is_saved save name o = not (is_some (save (new_snapshotted name o)))

-- The objects up to the first that is not saved.
abbrev pub up_to_failure : (Snapshotted → Option ℕ) → List ℕ → List Managed → List Managed
up_to_failure save name [] = []
up_to_failure save name (o ∷ objects) =
    if is_saved save name o then o ∷ up_to_failure save name objects else []

-- A snapshot that goes as the objects are saved.
abbrev pub Goes : Bool → List Snapshotted → Taken → Type 0
Goes complete shots taken =
    (is_some taken.snapshot ≡ complete)
    × (is_some taken.problem ≡ not complete)
    × (taken.saved ≡ shots)
