-- ===== src/Attr/Create.antt =====
-- `attr::spec::create`: the parser of the textual descriptions of types.
use libral.Base.{
  ℕ, String, Bool, ◌||◌, none, some, [], ◌∷◌, ◌==◌, if◌then◌else◌, traverse, is_empty, Result, ok,
  err, throws, undefined, ◌>>=◌, ◌≡◌, refl,
}
use text.Mathlib.Text.{starts_with}
use libral.Base.Text.{
  ◌<>◌, empty, split, split_at, trim, erase_spaces, all_chars, is_lower, is_digit,
}
use libral.Attr.{
  read_write, DataType, string_type, boolean_type, array_type, enum_type, Spec, create_kind,
}

abbrev pub option_char : ℕ → Bool
option_char c = is_lower c || is_digit c

-- the body of the loop over the options
unfoldable pub check_option : String → Result String
check_option o =
    let t = trim o in
    if empty t
    then err "bad enum type: one option is the empty string"
    else if all_chars option_char t
    then ok t
    else err
        ("bad option '" <> t <> "' in enum type: options must be lower case characters or digits")

-- the options between the brackets
unfoldable pub read_options : String → String → Result DataType
read_options type_str s =
    let options = split b',' s in
    if is_empty options
    then err (
        "bad enum type: must be 'enum[<option> (,<option>)*]' but " <> type_str
        <> " lists no options")
    else (do os ← traverse check_option options; ok (enum_type os))

abbrev pub bad_enum {ℓ} : {A : Type ℓ} → String → Result A
bad_enum type_str = err ("bad enum type: must be 'enum[<option> (,<option>)*]' but is " <> type_str)

-- What follows the first '['.
unfoldable pub read_brackets : String → String → Result DataType
read_brackets type_str rest = if empty rest then bad_enum type_str else elim (split_at b']' rest) [
  | none ↦ bad_enum type_str
  | some (options, _) ↦ read_options type_str options
]

-- Without a '[' the search for ']' starts behind the end of the text, which is undefined.
unfoldable pub read_enum_type : String → String → Result DataType
read_enum_type type_str ts = elim (split_at b'[' ts) [
  | none ↦ throws undefined
  | some (_, rest) ↦ read_brackets type_str rest
]

unfoldable pub read_type : String → String → Result DataType
read_type type_str ts =
    if ts == "boolean"
    then ok boolean_type
    else if ts == "string"
    then ok string_type
    else if ts == "array[string]"
    then ok array_type
    else if starts_with ts "enum"
    then read_enum_type type_str ts
    else err ("unknown type '" <> type_str <> "'")

unfoldable pub create : String → String → String → String → Result Spec
create name desc type_str kind_str = do
  kind ← create_kind kind_str
  dt ← read_type type_str (erase_spaces type_str)
  ok (record { name = name; desc = desc; data_type = dt; kind = kind })

create_test :
    create "ensure" "state" "enum[present, absent]" "rw"
    ≡ ok (record {
      name = "ensure";
      desc = "state";
      data_type = enum_type ("present" ∷ "absent" ∷ []);
      kind = read_write;
    })
unfolding create create_kind read_type read_enum_type read_brackets read_options check_option
    erase_spaces split split_at trim all_chars
create_test = refl
