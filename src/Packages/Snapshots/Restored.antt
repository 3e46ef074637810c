-- ===== src/Packages/Snapshots/Restored.antt =====
-- What becomes of a snapshot that is restored.
use feather.Common.{Bool, true, List, [], ◌∷◌}
use feather.Foundation.{Exception, Outcome, returned, raised}
use feather.Packages.Snapshots.{Managed, Documents}

-- What restoring comes to, by the objects of which the snapshot has something.
abbrev pub outcome_for : List Managed → Documents → Outcome (Bool × Documents)
outcome_for [] d = returned (true, record d { saveable = [] })
outcome_for (o ∷ objects) d = raised Exception.invalid_argument
