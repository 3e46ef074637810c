-- ===== src/Json/Laws.antt =====
-- What is read from a dictionary after a write, a removal or a filter.
use Prim.Native.String.{String}
use feather.Common.{if◌then◌else◌, ◌==◌, nat_eq, string_eq, list_eq, ◌≡◌, Bool, none, some, arith}
use feather.Json.Defs.{Value, Fields, end, field, get_field, remove_field, set_field, filter_fields}
use text.Mathlib.TextEquality.{eq_iff}

pub get_field-remove_field :
    (j k : String) (fs : Fields)
    → get_field j (remove_field k fs) ≡ (if k == j then none else get_field j fs)
unfolding get_field remove_field
get_field-remove_field j k end = ground arith
get_field-remove_field j k (field i v fs) =
    ground (arith, eq_iff k j, eq_iff i k, eq_iff i j, get_field-remove_field j k fs)

pub get_field-set_field :
    (j k : String) (v : Value) (fs : Fields)
    → get_field j (set_field k v fs) ≡ (if k == j then some v else get_field j fs)
unfolding get_field set_field
get_field-set_field j k v fs = ground (arith, eq_iff k j, get_field-remove_field j k fs)

pub get_field-filter_fields :
    (j : String) (p : String → Bool) (fs : Fields)
    → get_field j (filter_fields p fs) ≡ (if p j then get_field j fs else none)
unfolding get_field filter_fields
get_field-filter_fields j p end = ground arith
get_field-filter_fields j p (field i v fs) =
    ground (arith, eq_iff i j, get_field-filter_fields j p fs)
