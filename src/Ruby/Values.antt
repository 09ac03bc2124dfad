-- ===== src/Ruby/Values.antt =====
-- The conversions between values and resources of libral and those of Ruby.
use libral.Base.{
  String, Bool, not, List, [], ◌∷◌, ◌==◌, nat_eq, if◌then◌else◌, Result, ok, err, throws, Exception,
}
use libral.Base.Text.{◌<>◌, all_chars, c_str}
use libral.Base.Dict.{Dict}
use libral.Value.{Value, nothing, boolean, text, array}
use libral.Resource.{Resource, new, assign}

-- An entry of an array: a string or not.
pub data Entry : Type 0 where
  string other : String → Entry

-- A value of Ruby, as far as the binding tells them apart; the text of one that is not known and of
-- an array is what `inspect` shows.
pub data RubyValue : Type 0 where
  nil : RubyValue
  truth : Bool → RubyValue
  string_value unknown : String → RubyValue
  list : List Entry → RubyValue

-- What `inspect` shows of a value.
abbrev Inspect : Type 0
Inspect = RubyValue → String

-- How a method ends: with a value, an error that it raises, or an exception of C++.
pub data ErrorClass : Type 0 where
  provider_error type_error argument_error : ErrorClass

pub data Ending (A : Type 0) : Type 0 where
  escapes : Exception → Ending A
  raises : ErrorClass → String → Ending A
  value : A → Ending A

infixl 5 ◌>>=◌
abbrev pub ◌>>=◌ : {A B : Type 0} → Ending A → (A → Ending B) → Ending B
escapes x >>= next = escapes x
raises c e >>= next = raises c e
value a >>= next = next a

abbrev pub ending_of : {A : Type 0} → String → Result A → Ending A
ending_of words (ok a) = value a
ending_of words (err e) = raises provider_error (words <> c_str e)
ending_of words (throws x) = escapes x

-- `StringValueCStr` on a string, which may have a NUL in it
unfoldable pub string_value_cstr : String → Ending String
string_value_cstr s =
    if all_chars (λ c. not (nat_eq c 0)) s
    then value s
    else raises argument_error "string contains null byte"

-- the strings that `rb_str_new_cstr(s.c_str())` makes of an array
unfoldable pub entries : List String → List Entry
entries [] = []
entries (s ∷ ss) = string (c_str s) ∷ entries ss

-- `value_to_ruby`
unfoldable pub value_to_ruby : Value → RubyValue
value_to_ruby nothing = nil
value_to_ruby (boolean b) = truth b
value_to_ruby (text s) = string_value (c_str s)
value_to_ruby (array ss) = list (entries ss)

module _ (inspect : RubyValue → String) where
  -- the loop over an array; `whole` is the array
  unfoldable pub read_entries : RubyValue → List Entry → Ending (List String)
  read_entries whole [] = value []
  read_entries whole (string s ∷ es) = do
    s' ← string_value_cstr s
    ss ← read_entries whole es
    value (s' ∷ ss)
  read_entries whole (other o ∷ es) =
      raises provider_error
        ("only array[string], but not " <> inspect whole <> " can be converted to a libral::value")

  -- `value_from_ruby`
  unfoldable pub value_from_ruby : RubyValue → Ending Value
  value_from_ruby (string_value s) = do s' ← string_value_cstr s; value (text s')
  value_from_ruby (list es) = do ss ← read_entries (list es) es; value (array ss)
  value_from_ruby v =
      raises provider_error ("cannot convert " <> inspect v <> " to a libral::value")

-- An instance of Resource, whose attributes are a hash.
pub record RubyResource : Type 0 where
  pub name : String
  pub attrs : List (String × RubyValue)

-- `rb_hash_aset`: a key that is there keeps its place.
unfoldable pub aset : String → RubyValue → List (String × RubyValue) → List (String × RubyValue)
aset k v [] = (k, v) ∷ []
aset k v ((j, w) ∷ h) = let rest = aset k v h in if j == k then (j, v) ∷ h else (j, w) ∷ rest

-- the loop of `resource_to_ruby`, from the hash so far
unfoldable pub hash_of : Dict Value → List (String × RubyValue) → List (String × RubyValue)
hash_of [] h = h
hash_of ((k, v) ∷ m) h = hash_of m (aset (c_str k) (value_to_ruby v) h)

-- `resource_to_ruby`
unfoldable pub resource_to_ruby : Resource → RubyResource
resource_to_ruby r = record { name = c_str r.name; attrs = hash_of r.attrs [] }

module _ (inspect : RubyValue → String) where
  -- the inner loop of `libral_prov_set`; whether the value or the key is converted first is not
  -- specified
  unfoldable pub assign_all : List (String × RubyValue) → Resource → Ending Resource
  assign_all [] r = value r
  assign_all ((k, v) ∷ rest) r = do
    v' ← value_from_ruby inspect v
    k' ← string_value_cstr k
    r' ← ending_of "" (assign r k' v')
    assign_all rest r'

  -- one resource of the argument of `libral_prov_set`
  unfoldable pub resource_from_ruby : RubyResource → Ending Resource
  resource_from_ruby r = do n ← string_value_cstr r.name; assign_all r.attrs (new n)
