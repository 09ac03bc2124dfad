-- ===== src/Metadata/Suitable.antt =====
-- The values that the YAML parser of mruby makes, and `read_suitable`.
use Prim.Native.String.{[] as nil, ◌∷◌ as cons}
use Prim.Native.Char.{Char}
use text.Mathlib.Text.{starts_with}
use libral.Base.{
  ℕ, String, Bool, true, false, not, ◌||◌, Option, none, some, ◌==◌, if◌then◌else◌, Result, ok, err,
  throws, out_of_range, undefined, ◌>>=◌, nat_eq, code,
}
use libral.Base.Text.{◌<>◌, empty, substr_from}

mutual
  -- A value of mruby, as far as `YAML.load` makes it.
  pub data Yaml : Type 0 where
    null : Yaml
    boolean : Bool → Yaml
    string : String → Yaml
    number : ℕ → Yaml
    array : Items → Yaml
    hash : Entries → Yaml

  pub data Items : Type 0 where
    no_items : Items
    item : Yaml → Items → Items

  pub data Entries : Type 0 where
    no_entries : Entries
    entry : Yaml → Yaml → Entries → Entries

unfoldable pub is_key : String → Yaml → Bool
is_key key (string k) = k == key
is_key key _ = false

-- the entry of `key`, or nil
unfoldable pub entry_at : String → Entries → Yaml
entry_at key no_entries = null
entry_at key (entry k v es) = if is_key key k then v else entry_at key es

-- `hash_get(hash, key)`: mruby reads the value as a hash whatever it is.
unfoldable pub hash_get : Yaml → String → Result Yaml
hash_get (hash es) key = ok (entry_at key es)
hash_get _ key = throws undefined

unfoldable pub is_null : Yaml → Bool
is_null null = true
is_null _ = false

-- `as_string(v, dflt)`
unfoldable pub as_string : String → Yaml → String
as_string dflt (string s) = s
as_string dflt _ = dflt

-- `hash_get_string(hash, key, dflt)`
unfoldable pub hash_get_string : Yaml → String → String → String
hash_get_string (hash es) key dflt = as_string dflt (entry_at key es)
hash_get_string _ key dflt = dflt

unfoldable pub is_blank : Char → Bool
is_blank c = nat_eq (code c) 32 || (nat_eq (code c) 9 || nat_eq (code c) 10)

-- From the first character that is no blank; `substr` throws if there is none.
unfoldable pub from_word : String → Result String
from_word nil = throws out_of_range
from_word (cons c s) = if is_blank c then from_word s else ok (cons c s)

abbrev from_word_of : Option String → Result String
from_word_of none = throws out_of_range
from_word_of (some s) = from_word s

-- Whether one entry of 'suitable.commands' lets the provider pass; `which` gives the empty path for
-- a command that is not there.
unfoldable pub allows : (String → String) → String → Result Bool
allows which cmd =
    if starts_with cmd "not "
    then (do word ← from_word_of (substr_from 4 cmd); ok (empty (which word)))
    else ok (not (empty (which cmd)))

unfoldable pub not_text : String → String
not_text name = "provider " <> name <> ": the entries in 'suitable.commands' must all be strings"

unfoldable pub text_of : String → Yaml → Result String
text_of name (string s) = ok s
text_of name _ = err (not_text name)

-- the loop over the commands
unfoldable pub all_allow : (String → String) → String → Items → Result Bool
all_allow which name no_items = ok true
all_allow which name (item v vs) =
    let rest = all_allow which name vs in
    do cmd ← text_of name v; passes ← allows which cmd; if passes then rest else ok false

-- The branch for a hash.
unfoldable pub commands_allow : (String → String) → String → Yaml → Result Bool
commands_allow which name (array vs) = all_allow which name vs
commands_allow which name _ =
    err ("provider " <> name <> ": metadata 'suitable.commands' must be an array of strings")

unfoldable pub suitable_of : (String → String) → String → Yaml → Result Bool
suitable_of which name null = err "missing 'provider.suitable' entry"
suitable_of which name (boolean b) = ok b
suitable_of which name (string s) =
    if s == "true"
    then ok true
    else if s == "false"
    then ok false
    else err (
        "provider " <> name <> ": metadata 'suitable' must be either 'true' or 'false' but was '"
        <> s <> "'")
suitable_of which name (hash es) = commands_allow which name (entry_at "commands" es)
suitable_of which name _ = err ("provider " <> name <> ": illegal format for 'suitable' metadata")

-- `read_suitable(env, mrb, prov_node, prov_name)`
unfoldable pub read_suitable : (String → String) → Yaml → String → Result Bool
read_suitable which prov_node name = do
  suitable ← hash_get prov_node "suitable"
  suitable_of which name suitable
