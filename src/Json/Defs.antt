-- ===== src/Json/Defs.antt =====
-- The values of a document's properties: what NSJSONSerialization yields, and the embedded objects
-- (MPEmbeddedObject) that stand in their place in memory. A BOOL is the NSNumber 0 or 1; a time is
-- a number. An embedded object is its class name and its properties.
use Prim.Native.Char.{code}
use Prim.Native.String.{String}
use feather.Common.{
  leb, if◌then◌else◌, ◌==◌, nat_eq, string_eq, list_eq, ℕ, suc, Bool, true, false, ◌&&◌, ◌||◌, not,
  Option, none, some, List, [], ◌∷◌,
}
use feather.Foundation.{Exception, Outcome, returned, raised}

mutual
  pub data Value : Type 0 where
    null : Value
    text : String → Value
    number : ℕ → Value
    array : Items → Value
    object : Fields → Value
    embedded : String → Fields → Value

  pub data Items : Type 0 where
    nil : Items
    cons : Value → Items → Items

  pub data Fields : Type 0 where
    end : Fields
    field : String → Value → Fields → Fields

-- `d[key]`, `d[key] = v` (nil removes), over an NSMutableDictionary.
unfoldable pub get_field : String → Fields → Option Value
get_field key end = none
get_field key (field k v fs) = if k == key then some v else get_field key fs

unfoldable pub remove_field : String → Fields → Fields
remove_field key end = end
remove_field key (field k v fs) =
    let rest = remove_field key fs in if k == key then rest else field k v rest

unfoldable pub set_field : String → Value → Fields → Fields
unfolding remove_field
set_field key v fs = field key v (remove_field key fs)

-- The entries whose key passes a test.
unfoldable pub filter_fields : (String → Bool) → Fields → Fields
filter_fields p end = end
filter_fields p (field k v fs) =
    let rest = filter_fields p fs in if p k then field k v rest else rest

-- `-[NSString boolValue]`, over its characters: white space, a sign and zeros are skipped, and Y, y,
-- T, t or a digit from 1 to 9 gives YES.
pub bool_of_codes : List ℕ → Bool
bool_of_codes [] = false
bool_of_codes (c ∷ cs) =
    let rest = bool_of_codes cs in
    if c == b' ' || c == b'+' || c == b'-' || c == b'0'
    then rest
    else c == b'Y' || c == b'y' || c == b'T' || c == b't' || leb b'1' c && leb c b'9'

abbrev pub codes : String → List ℕ
codes String.[] = []
codes (String.◌∷◌ c s) = code c ∷ codes s

-- `[value boolValue]`. Nil gives NO; a value that is no number and no text has no such method.
unfoldable pub bool_value : Option Value → Outcome Bool
unfolding bool_of_codes
bool_value none = returned false
bool_value (some (number n)) = returned (not (n == 0))
bool_value (some (text s)) = returned (bool_of_codes (codes s))
bool_value (some _) = raised Exception.invalid_argument

abbrev pub boolean : Bool → Value
boolean b = number (if b then 1 else 0)

count_fields : Fields → ℕ
count_fields end = 0
count_fields (field k v fs) = suc (count_fields fs)

-- `isEqual:`. Dictionaries are equal whatever the order of their entries.
unfoldable mutual
  unfolding count_fields get_field

  pub is_equal : Value → Value → Bool
  is_equal null null = true
  is_equal (text s) (text t) = s == t
  is_equal (number m) (number n) = m == n
  is_equal (array xs) (array ys) = items_equal xs ys
  is_equal (object fs) (object gs) = count_fields fs == count_fields gs && fields_within fs gs
  is_equal (embedded c fs) (embedded d gs) =
      c == d && count_fields fs == count_fields gs && fields_within fs gs
  is_equal _ _ = false

  pub items_equal : Items → Items → Bool
  items_equal nil nil = true
  items_equal nil (cons y ys) = false
  items_equal (cons x xs) nil = false
  items_equal (cons x xs) (cons y ys) = is_equal x y && items_equal xs ys

  -- Each entry of the first dictionary is one of the second.
  pub fields_within : Fields → Fields → Bool
  fields_within end gs = true
  fields_within (field k v fs) gs =
      elim (get_field k gs) [ none ↦ false | some w ↦ is_equal v w ] && fields_within fs gs
