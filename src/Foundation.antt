-- ===== src/Foundation.antt =====
-- What the Objective-C sources use of the Foundation library: exceptions, and operations of arrays
-- and dictionaries. An array is a list; equality of objects is an instance of `Eq`.
mod Outcomes
mod Arrays
pub use Outcomes.*
pub use Arrays.*
unfoldable pub use Arrays.{index_of, remove_object, insert_object}
