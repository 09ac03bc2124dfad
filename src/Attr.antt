-- ===== src/Attr.antt =====
-- lib/inc/libral/attr/spec.hpp and lib/src/attr/spec.cc: the kind and the type of an attribute, and
-- the reading of values by type.
pub mod Create
pub mod Json
pub mod Reads
pub mod RoundTrip
pub mod WellFormed
use libral.Base.{
  String, Bool, true, false, not, ◌&&◌, ◌||◌, List, [], ◌∷◌, ◌==◌, if◌then◌else◌, contains,
  traverse, Result, ok, err, ◌>>=◌, ◌≡◌, refl,
}
use libral.Base.Text.{◌<>◌, empty, iequals, split, trim, join}
use libral.Value.{Value, text, boolean, array}

-- `kind::tag`: r, w, rw
pub data Kind : Type 0 where
  read write read_write : Kind

-- `kind::create`
unfoldable pub create_kind : String → Result Kind
create_kind s =
    if s == "r"
    then ok read
    else if s == "w"
    then ok write
    else if s == "rw"
    then ok read_write
    else err ("unknown kind " <> s)

-- `operator<<` on kinds
unfoldable pub show_kind : Kind → String
show_kind read = "r"
show_kind write = "w"
show_kind read_write = "rw"

-- `data_type`
pub data DataType : Type 0 where
  string_type boolean_type array_type : DataType
  enum_type : List String → DataType

-- `operator<<` on data types
unfoldable pub show_type : DataType → String
unfolding join
show_type string_type = "string"
show_type boolean_type = "boolean"
show_type array_type = "array[string]"
show_type (enum_type options) = "enum[" <> join ", " options <> "]"

-- `boolean_type::read_string`
unfoldable pub read_boolean : String → Result Value
unfolding iequals
read_boolean s =
    let t = iequals s "true" in
    let f = iequals s "false" in
    if not t && not f
    then err "invalid boolean: must be either 'true' or 'false'"
    else ok (boolean t)

-- one round of the loop over the entries of an array
unfoldable pub read_entry : String → String → Result String
unfolding trim
read_entry s elt =
    let e = trim elt in
    if empty e then err ("bad array: entries in '" <> s <> "' can not be blank") else ok e

-- `array_type::read_string`
unfoldable pub read_array : String → Result Value
unfolding split read_entry
read_array s =
    if empty s
    then ok (array [])
    else (do ary ← traverse (read_entry s) (split b',' s); ok (array ary))

-- `enum_type::read_string`
unfoldable pub read_enum : List String → String → Result Value
read_enum options s =
    if contains options s
    then ok (text s)
    else err ("value '" <> s <> "' is not a legal value for this enum")

-- `read_string_visitor`, and `string_type::read_string` in its first clause
unfoldable pub read_string : DataType → String → Result Value
read_string string_type s = ok (text s)
read_string boolean_type s = read_boolean s
read_string array_type s = read_array s
read_string (enum_type options) s = read_enum options s

-- `attr::spec`
pub record Spec : Type 0 where
  pub name : String
  pub desc : String
  pub data_type : DataType
  pub kind : Kind

read_array_test : read_string array_type "a, b" ≡ ok (array ("a" ∷ "b" ∷ []))
unfolding read_string read_array
read_array_test = refl
