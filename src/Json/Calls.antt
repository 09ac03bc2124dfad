-- ===== src/Json/Calls.antt =====
-- `json_provider::get` and `json_provider::set`, over the command as a part of the system.
use libral.Base.{
  String, false, Option, none, some, List, ◌∷◌, [], ◌==◌, if◌then◌else◌, Result, ok, err, throws,
  ◌>>=◌, Exec, bind, lift, traverse,
}
use libral.Base.Text.{◌<>◌}
use libral.Base.Dict.{Dict}
use libral.Value.{Value}
use libral.Resource.{Resource, Update, name, new, assign}
use libral.Context.{Recorded}
use libral.Provider.{ProvSpec, Provider, Call}
use libral.Command.{Target, Shell}
use libral.Json.Documents.{set_attrs, value_from_json}
use libral.Json.Action.{Setup, complain, conforming, run_action}
use libral.Json.Changes.{contains_error, take_answer}
use libral.Attr as Attr

module _ (j : Setup) (specs : Dict Attr.Spec) where
  open j use {docs}

  -- the entry of one update
  unfoldable pub update_doc : Update → docs.json.Doc
  update_doc u =
      set_attrs docs "should" u.should.attrs
        (set_attrs docs "is" u.is.attrs (docs.set_string ("name" ∷ []) (name u) docs.blank))

  unfoldable pub update_docs : List Update → List docs.json.Doc
  update_docs [] = []
  update_docs (u ∷ us) = update_doc u ∷ update_docs us

  -- the document for 'set'
  unfoldable pub set_input : List Update → docs.json.Doc
  set_input us =
      docs.set_docs ("updates" ∷ []) (update_docs us)
        (docs.set_bool ("ral" ∷ "noop" ∷ []) false docs.blank)

  -- `rsrc[k] = v`, if there is a value; an error is marked with the provider's name
  abbrev pub put_read : String → Resource → Result (Option Value) → Result Resource
  put_read k r (ok none) = ok r
  put_read k r (ok (some v)) = assign r k v
  put_read k r (err e) = complain j e
  put_read k r (throws x) = throws x

  -- one key of a resource
  unfoldable pub read_key : docs.json.Doc → String → Resource → Result Resource
  read_key doc k r =
      if k == "name" then ok r else put_read k r (value_from_json docs specs k doc (k ∷ []))

  unfoldable pub read_keys : docs.json.Doc → List String → Resource → Result Resource
  read_keys doc [] r = ok r
  read_keys doc (k ∷ ks) r = do r' ← read_key doc k r; read_keys doc ks r'

  -- `resource_from_json`
  unfoldable pub resource_from_json : docs.json.Doc → Result Resource
  resource_from_json doc = do
    n ← docs.json.get_string doc ("name" ∷ [])
    read_keys doc (docs.keys doc) (new n)

  -- what `get` does with an answer, given the error that it reports
  abbrev pub read_listed : docs.json.Doc → Option String → Result (List Resource)
  read_listed out (some message) = complain j ("get failed with error " <> message)
  read_listed out none =
      if docs.includes out ("resources" ∷ [])
      then (do ds ← docs.get_docs out ("resources" ∷ []); traverse resource_from_json ds)
      else complain j "get did not produce a 'resources' entry"

  unfoldable pub read_resources : docs.json.Doc → Result (List Resource)
  read_resources out = do e ← contains_error j specs out; read_listed out e

  module _ {W : Type 0} (tgt : Target W) where
    -- A method on the command, inside a call.
    abbrev on_command : {A : Type 0} → Exec (Shell W) A → Exec (Call (Shell W)) A
    on_command m c = let (r, s) = m c.world in (r, record c { world = s })

    -- `get(ctx, names, config)`
    unfoldable pub get : List String → Dict Value → Exec (Call (Shell W)) (List Resource)
    get names config =
        bind (on_command (run_action j tgt "get" (docs.set_array ("names" ∷ []) names docs.blank)))
          (λ out. lift (conforming j out (read_resources out)))

    abbrev pub on_changes :
        docs.json.Doc → Exec Recorded (Unit {0}) → Exec (Call (Shell W)) (Unit {0})
    on_changes out m c =
        let (r, recorded) = m c.recorded in (conforming j out r, record c { recorded = recorded })

    -- `set(ctx, upds)`
    unfoldable pub set : List Update → Exec (Call (Shell W)) (Unit {0})
    set us =
        bind (on_command (run_action j tgt "set" (set_input us)))
          (λ out. on_changes out (take_answer j specs out us))

    -- the provider that the registry works with
    unfoldable pub json_provider : ProvSpec → Provider (Shell W)
    json_provider s = record { spec = some s; get_in = get; set_in = set }
