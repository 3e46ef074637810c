-- ===== src/Json.antt =====
-- JSON values and dictionaries.
mod Defs
mod Laws
pub use Defs.*
unfoldable pub use Defs.{get_field, remove_field, set_field, filter_fields, bool_value, is_equal}
pub use Laws.*
use feather.Common.{nat_eq, string_eq, list_eq}
