-- ===== src/Packages.antt =====
-- Packages of databases: Feather/Sources/Database Packages. Of MPDatabasePackageController.m, Registry is
-- the registry of open packages, Lookup the search for the controller of a class, Copies the temporary copy
-- of a package, Databases what it does with all its databases, and Snapshots its snapshots; of MPDatabase.m,
-- Revisions is the validation of revisions, and Replications the pushes and pulls of a database.
pub mod Registry
pub mod Lookup
pub mod Copies
pub mod Revisions
pub mod Replications
pub mod Databases
pub mod Snapshots
mod Tests
