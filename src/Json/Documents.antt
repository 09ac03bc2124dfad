-- ===== src/Json/Documents.antt =====
-- The JSON documents that the provider builds and reads. The container is leatherman's, and a
-- parameter; `value::to_json` and `value_from_json` stand between it and the values.
use libral.Base.{String, Bool, Option, none, some, List, ◌∷◌, [], Result, ok, ◌>>=◌}
use libral.Base.Dict.{Dict, find}
use libral.Value.{Value, nothing, boolean, text, array}
use libral.Attr as Attr
use libral.Attr.Json.{Container, from_json}

-- What the provider uses of the container beside what attributes read of it. A path that is empty
-- is the document itself; `parse` is the constructor that reads a text, which may throw.
pub record Documents : Type 1 where
  pub json : Container
  pub blank : json.Doc
  pub set_bool : List String → Bool → json.Doc → json.Doc
  pub set_string : List String → String → json.Doc → json.Doc
  pub set_array : List String → List String → json.Doc → json.Doc
  pub set_doc : List String → json.Doc → json.Doc → json.Doc
  pub set_docs : List String → List json.Doc → json.Doc → json.Doc
  pub includes : json.Doc → List String → Bool
  pub keys : json.Doc → List String
  pub get_docs : json.Doc → List String → Result (List json.Doc)
  pub string_or : json.Doc → List String → String → Result String
  pub bool_or : json.Doc → List String → Bool → Result Bool
  pub parse : String → Option json.Doc
  pub show : json.Doc → String

module _ (docs : Documents) where
  open docs use {json, set_bool, set_string, set_array}

  -- `value::to_json`
  unfoldable pub to_json : Value → List String → json.Doc → json.Doc
  to_json nothing key doc = set_string key "null" doc
  to_json (boolean b) key doc = set_bool key b doc
  to_json (text s) key doc = set_string key s doc
  to_json (array ss) key doc = set_array key ss doc

  -- the loops over the attributes of a resource
  unfoldable pub set_attrs : String → Dict Value → json.Doc → json.Doc
  set_attrs part [] doc = doc
  set_attrs part ((k, v) ∷ rest) doc = set_attrs part rest (to_json v (part ∷ k ∷ []) doc)

  abbrev pub read_known : Option Attr.Spec → json.Doc → List String → Result (Option Value)
  read_known none doc key = ok none
  read_known (some a) doc key = do v ← from_json json doc key; ok (some v)

  -- `value_from_json(name, json, key)`: an attribute that the provider does not have is skipped.
  unfoldable pub value_from_json :
      Dict Attr.Spec → String → json.Doc → List String → Result (Option Value)
  value_from_json specs n doc key = read_known (find n specs) doc key
