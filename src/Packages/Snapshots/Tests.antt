-- ===== src/Packages/Snapshots/Tests.antt =====
-- Tests of snapshots.
use feather.Common.{
  ℕ, false, ◌≡◌, refl, Option, none, some, List, [], ◌∷◌, if◌then◌else◌, ◌==◌, nat_eq, list_eq,
}
use feather.Json.{codes}
use feather.Packages.Snapshots.{
  Managed, Snapshotted, new_snapshotted, after_save, save_snapshotted, new_snapshot, Documents,
}

-- The objects 1 and 2; that of 2 is not saved.
abbrev objects : List Managed
objects =
    record { class_name = codes "MPNote"; document = 1; revision = 10; properties = 100 }
    ∷ record { class_name = codes "MPNote"; document = 2; revision = 20; properties = 200 }
    ∷ []

abbrev save : Snapshotted → Option ℕ
save so = if so.snapshotted_object == 2 then some 7 else none

failed : (new_snapshot save none (codes "s") objects).problem ≡ some 7
unfolding new_snapshot save_snapshotted after_save new_snapshotted
failed = refl

abbrev documents : Documents
documents = record {
  revision_of = λ i. 10;
  contents = λ i. 100;
  needs_save = λ i. false;
  written = [];
  saveable = [];
  saved = [];
}
