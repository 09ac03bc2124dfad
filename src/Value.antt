-- ===== src/Value.antt =====
-- lib/inc/libral/value.hpp and lib/src/value.cc: the runtime values and their visitors.
pub mod Laws
use libral.Base.{
  String, Bool, true, false, ◌&&◌, Option, none, some, List, [], ◌∷◌, ◌==◌, if◌then◌else◌, ◌≡◌,
  refl, map,
}
use libral.Base.Text.{◌<>◌, join}

-- `boost::variant<boost::none_t, bool, std::string, array>`
pub data Value : Type 0 where
  nothing : Value
  boolean : Bool → Value
  text : String → Value
  array : List String → Value

-- `is_present` and `operator bool`
unfoldable pub is_present : Value → Bool
is_present nothing = false
is_present _ = true

-- `as<bool>()`, `as<std::string>()`, `as<array>()`
unfoldable pub as_bool : Value → Option Bool
as_bool (boolean b) = some b
as_bool _ = none

unfoldable pub as_text : Value → Option String
as_text (text s) = some s
as_text _ = none

unfoldable pub as_array : Value → Option (List String)
as_array (array ss) = some ss
as_array _ = none

abbrev pub quote : String → String
quote s = "'" <> s <> "'"

-- the loop of both visitors over an array
unfoldable pub array_to_string : List String → String
unfolding join
array_to_string ss = "[" <> join ", " (map quote ss) <> "]"

-- `to_string_visitor`
unfoldable pub to_string : Value → String
unfolding array_to_string
to_string nothing = "(none)"
to_string (boolean b) = if b then "true" else "false"
to_string (text s) = s
to_string (array ss) = array_to_string ss

-- `to_quoted_string_visitor`, which `operator<<` applies
unfoldable pub to_quoted_string : Value → String
unfolding array_to_string
to_quoted_string nothing = "(none)"
to_quoted_string (boolean b) = if b then "true" else "false"
to_quoted_string (text s) = quote s
to_quoted_string (array ss) = array_to_string ss

pub bool_eq : Bool → Bool → Bool
bool_eq true b = b
bool_eq false true = false
bool_eq false false = true

pub array_eq : List String → List String → Bool
array_eq [] [] = true
array_eq (x ∷ xs) (y ∷ ys) = x == y && array_eq xs ys
array_eq _ _ = false

-- `equality_visitor`: values of two types are never equal.
unfoldable pub value_eq : Value → Value → Bool
unfolding bool_eq array_eq
value_eq nothing nothing = true
value_eq (boolean a) (boolean b) = bool_eq a b
value_eq (text a) (text b) = a == b
value_eq (array a) (array b) = array_eq a b
value_eq _ _ = false

to_string_test : to_string (array ("a" ∷ "b" ∷ [])) ≡ "['a', 'b']"
unfolding to_string
to_string_test = refl
