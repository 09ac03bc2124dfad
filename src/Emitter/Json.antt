-- ===== src/Emitter/Json.antt =====
-- `json_emitter`: the same as JSON documents.
use libral.Base.{
  String, Option, none, some, List, [], ◌∷◌, Result, ok, err, throws, ◌>>=◌, Exec, continue,
}
use libral.Base.Text.{◌<>◌}
use libral.Base.Dict.{Dict}
use libral.Value.{Value, nothing, boolean, text, array}
use libral.Resource.{Resource, Update}
use libral.Context.{Change, Changes}
use libral.Provider.{ProvSpec}
use libral.Provider.Create.{create_after}
use libral.Attr as Attr
use libral.Json.Documents.{Documents}
use libral.Emitter.Console.{Line, out, Console, say, Loaded, Emitter}

module _ (docs : Documents) where
  open docs use {json, blank, set_bool, set_string, set_array, set_doc, set_docs}

  abbrev Doc : Type 0
  Doc = json.Doc

  -- `json_set_value`
  unfoldable pub set_value : String → Value → Doc → Doc
  set_value key nothing js = set_string (key ∷ []) "__none__" js
  set_value key (boolean b) js = set_bool (key ∷ []) b js
  set_value key (text s) js = set_string (key ∷ []) s js
  set_value key (array ss) js = set_array (key ∷ []) ss js

  -- `json_meta`
  unfoldable pub meta : ProvSpec → Doc
  meta spec =
      set_string ("provider" ∷ []) spec.qname (set_string ("type" ∷ []) spec.type_name blank)

  unfoldable pub set_values : Dict Value → Doc → Doc
  set_values [] js = js
  set_values ((k, v) ∷ m) js = set_values m (set_value k v js)

  -- `resource_to_json`
  unfoldable pub resource_to_json : ProvSpec → Resource → Doc
  resource_to_json spec r =
      set_doc ("ral" ∷ []) (meta spec) (set_values r.attrs (set_string ("name" ∷ []) r.name blank))

  unfoldable pub error_doc : String → Doc
  error_doc detail =
      set_doc ("error" ∷ []) (set_string ("message" ∷ []) ("failed: " <> detail) blank) blank

  unfoldable pub change_doc : Change → Doc
  change_doc ch =
      set_value "was" ch.was (set_value "is" ch.is (set_string ("attr" ∷ []) ch.attr blank))

  unfoldable pub change_docs : Changes → List Doc
  change_docs [] = []
  change_docs (ch ∷ chs) = change_doc ch ∷ change_docs chs

  -- the loop of `parse_set`
  unfoldable pub pair_docs : ProvSpec → List (Update × Changes) → Result (List Doc)
  pair_docs spec [] = ok []
  pair_docs spec ((u, chgs) ∷ rest) = do
    r ← create_after u chgs
    others ← pair_docs spec rest
    ok (
        set_docs ("changes" ∷ []) (change_docs chgs)
          (set_doc ("resource" ∷ []) (resource_to_json spec r) blank)
        ∷ others)

  -- `parse_set`
  unfoldable pub parse_set : ProvSpec → Result (List (Update × Changes)) → Result String
  parse_set spec (ok pairs) = do
    ds ← pair_docs spec pairs
    ok (docs.show (set_docs ("result" ∷ []) ds blank))
  parse_set spec (err e) = ok (docs.show (error_doc e))
  parse_set spec (throws x) = throws x

  -- `parse_find`
  unfoldable pub parse_find : ProvSpec → Result (Option Resource) → Result String
  parse_find spec (ok none) = ok (docs.show blank)
  parse_find spec (ok (some r)) =
      ok (docs.show (set_doc ("resource" ∷ []) (resource_to_json spec r) blank))
  parse_find spec (err e) = ok (docs.show (error_doc e))
  parse_find spec (throws x) = throws x

  unfoldable pub list_docs : ProvSpec → List Resource → List Doc
  list_docs spec [] = []
  list_docs spec (r ∷ rs) = resource_to_json spec r ∷ list_docs spec rs

  -- `parse_list`
  unfoldable pub parse_list : ProvSpec → Result (List Resource) → Result String
  parse_list spec (ok rs) = ok (docs.show (set_docs ("resources" ∷ []) (list_docs spec rs) blank))
  parse_list spec (err e) = ok (docs.show (error_doc e))
  parse_list spec (throws x) = throws x

  -- the inner loop of `parse_providers`
  unfoldable pub attr_doc : Attr.Spec → Doc
  attr_doc a = set_string ("kind" ∷ []) (Attr.show_kind a.kind) (
      set_string ("type" ∷ []) (Attr.show_type a.data_type)
        (set_string ("desc" ∷ []) a.desc (set_string ("name" ∷ []) a.name blank)))

  unfoldable pub attr_docs : Dict Attr.Spec → List Doc
  attr_docs [] = []
  attr_docs ((k, a) ∷ m) = attr_doc a ∷ attr_docs m

  unfoldable pub provider_doc : Loaded → Doc
  provider_doc p = set_docs ("attributes" ∷ []) (attr_docs p.spec.attr_specs) (
      set_bool ("suitable" ∷ []) p.spec.suitable (
        set_string ("desc" ∷ []) p.spec.desc (
          set_string ("source" ∷ []) p.source (
            set_string ("type" ∷ []) p.spec.type_name
              (set_string ("name" ∷ []) p.spec.qname blank)))))

  unfoldable pub provider_docs : List Loaded → List Doc
  provider_docs [] = []
  provider_docs (p ∷ ps) = provider_doc p ∷ provider_docs ps

  -- `parse_providers`
  unfoldable pub parse_providers : List Loaded → String
  parse_providers ps = docs.show (set_docs ("providers" ∷ []) (provider_docs ps) blank)

  abbrev lines_of : Result String → List Line
  lines_of (ok s) = out s ∷ []
  lines_of _ = []

  abbrev say_text : Result String → Exec Console (Unit {0})
  say_text r console = continue r (λ s. say (out s ∷ [])) console

  abbrev pub json_emitter : Emitter
  json_emitter = record {
    print_set = λ p r. say_text (parse_set p.spec r);
    print_find = λ p r. lines_of (parse_find p.spec r);
    print_list = λ p r. lines_of (parse_list p.spec r);
    print_providers = λ ps. out (parse_providers ps) ∷ [];
  }
