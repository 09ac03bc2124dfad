-- ===== src/Attr/Json.antt =====
-- `attr::spec::from_json`. The JSON documents are leatherman's: their operations are a parameter.
use libral.Base.{String, Bool, List, Result, ok, err, ◌>>=◌}
use libral.Base.Text.{◌<>◌, join}
use libral.Value.{Value, nothing, text, boolean, array}

-- the `json::DataType` of an entry
pub data JsonType : Type 0 where
  null_type array_of bool_type int_type string_type object_type double_type : JsonType

-- What is read of a `leatherman::json_container::JsonContainer`; an entry that is missing or has
-- another type is a `data_error`, which is thrown. `of_int` is the conversion that the constructor
-- of `boost::variant` picks for an `int`.
pub record Container : Type 1 where
  pub Doc : Type 0
  pub Int : Type 0
  pub type_of : Doc → List String → Result JsonType
  pub get_array : Doc → List String → Result (List String)
  pub get_string : Doc → List String → Result String
  pub get_int : Doc → List String → Result Int
  pub get_bool : Doc → List String → Result Bool
  pub of_int : Int → Value

module _ (json : Container) where
  open json use {Doc, type_of, get_array, get_string, get_int, get_bool, of_int}

  -- one case of the switch
  unfoldable pub from_entry : JsonType → Doc → List String → Result Value
  from_entry null_type doc key = ok nothing
  from_entry array_of doc key = do a ← get_array doc key; ok (array a)
  from_entry string_type doc key = do s ← get_string doc key; ok (text s)
  from_entry int_type doc key = do i ← get_int doc key; ok (of_int i)
  from_entry bool_type doc key = do b ← get_bool doc key; ok (boolean b)
  from_entry _ doc key = err ("can not convert data type for " <> join "." key)

  -- The type of the attribute plays no part.
  unfoldable pub from_json : Doc → List String → Result Value
  unfolding from_entry
  from_json doc key = do t ← type_of doc key; from_entry t doc key
