-- ===== src/Controller.antt =====
-- MPManagedObjectsController: Feather/Sources/Model Controllers/MPManagedObjectsController.m, as far as
-- it works for a whole class of objects: conflicts between revisions, bundled data, changed documents,
-- the cache of objects, objects from JSON, and the search command.
pub mod Conflicts
pub mod Bundled
pub mod Changes
pub mod Lookup
pub mod Imports
pub mod Search
pub mod Views
mod Tests
use feather.Common.{nat_eq, list_eq, string_eq}
