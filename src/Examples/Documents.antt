-- ===== src/Examples/Documents.antt =====
-- Scripts that read and write JSON, at concrete inputs.
use libral.Base.{
  ℕ, ◌+◌, String, Bool, true, false, Option, none, some, List, ◌∷◌, [], ◌++◌, ◌==◌, Result, ok, err,
  throws, data_error, undefined, ◌≡◌, ◌≢◌, refl, All, inl, inr, arith, eq_iff, is_ok, is_empty, map,
  if◌then◌else◌,
}
use mathlib.Core.Path.{subst}
use libral.Base.Text.{join}
use libral.Base.Dict.{Dict, find}
use libral.Value.{nothing, text}
use libral.Resource.{Resource, Update, new}
use libral.Context.{changes_for}
use libral.Attr as Attr
use libral.Attr.Json.{Container, JsonType, string_type, null_type}
use libral.Command.{Status, Target, Shell, run_uploaded}
use libral.Provider.{Call}
use libral.Json.Documents.{Documents}
use libral.Json.Action.{Setup, answer, run_action}
use libral.Json.Calls.{read_resources, set}
use libral.Json.Changes.{take_answer, derive, take_key}
use libral.Json.Laws.{failed_action_accepted, IsKnown, read_resources-IsKnown}
use libral.Json.Frame.{IsElsewhere}
use libral.Json.Setting.{SaysNothing, set_leaves_others}

-- Documents with texts at paths and at most one list of documents.
abbrev Entry : Type 0
Entry = List String × Dict String

data Doc : Type 0 where
  leaf : Entry → Doc
  branch : String → List Entry → Doc

abbrev text_of : Option String → Result String
text_of none = throws data_error
text_of (some s) = ok s

abbrev default_text : String → Option String → Result String
default_text d none = ok d
default_text d (some s) = ok s

abbrev is_some : Option String → Bool
is_some none = false
is_some (some s) = true

abbrev doc_text : Doc → List String → Option String
doc_text (leaf (ks, ts)) path = find (join "." path) ts
doc_text (branch at ds) path = none

abbrev doc_includes : Doc → List String → Bool
doc_includes (leaf (ks, ts)) path = is_some (find (join "." path) ts)
doc_includes (branch at ds) path = at == join "." path

abbrev doc_keys : Doc → List String
doc_keys (leaf (ks, ts)) = ks
doc_keys (branch at ds) = at ∷ []

abbrev doc_docs : Doc → List String → Result (List Doc)
doc_docs (leaf e) path = throws data_error
doc_docs (branch at ds) path = if at == join "." path then ok (map leaf ds) else throws data_error

abbrev doc_blank : Doc
doc_blank = leaf ([], [])

abbrev strings : Container
strings = record {
  Doc = Doc;
  Int = Bool;
  type_of = λ d path. ok (if is_some (doc_text d path) then string_type else null_type);
  get_array = λ d path. throws data_error;
  get_string = λ d path. text_of (doc_text d path);
  get_int = λ d path. throws data_error;
  get_bool = λ d path. throws data_error;
  of_int = λ i. nothing;
}

-- Every text is read as one document.
abbrev reading : Doc → Documents
reading doc = record {
  json = strings;
  blank = doc_blank;
  set_bool = λ path b d. d;
  set_string = λ path s d. d;
  set_array = λ path ss d. d;
  set_doc = λ path e d. d;
  set_docs = λ path ds d. d;
  includes = doc_includes;
  keys = doc_keys;
  get_docs = doc_docs;
  string_or = λ d path s. default_text s (doc_text d path);
  bool_or = λ d path b. ok b;
  parse = λ s. some doc;
  show = λ d. "{}";
}

abbrev setup : Doc → Setup
setup doc = record { qname = "demo::json"; enabled = λ l. true; docs = reading doc }

abbrev ensure_spec : Dict Attr.Spec
ensure_spec =
    (
      "ensure",
      record { name = "ensure"; desc = ""; data_type = Attr.string_type; kind = Attr.read_write },
    )
    ∷ []

abbrev failed : Status
failed = record { success = false; output = "{}"; error = "no such package"; exit_code = "1" }

failed_action_accepted_example :
    answer (setup doc_blank) "set" failed
    ≡ answer (setup doc_blank) "set" (record failed { success = true })
failed_action_accepted_example = failed_action_accepted (setup doc_blank) "set" failed refl refl

-- One resource, with an attribute that the provider does not have.
abbrev listing : Doc
listing = branch "resources" (
    (
      ("name" ∷ "ensure" ∷ "colour" ∷ []),
      (("colour", "red") ∷ ("ensure", "present") ∷ ("name", "gcc") ∷ []),
    )
    ∷ [])

abbrev listed : List Resource
listed = record { name = "gcc"; attrs = ("ensure", text "present") ∷ [] } ∷ []

listing_read : read_resources (setup listing) ensure_spec listing ≡ ok listed
unfolding read_resources libral.Json.Changes.contains_error join
    libral.Json.Calls.resource_from_json find libral.Json.Calls.read_keys libral.Json.Calls.read_key
    libral.Json.Documents.value_from_json libral.Attr.Json.from_json libral.Resource.assign
    libral.Base.Dict.put
listing_read = refl

read_resources-IsKnown_example : All (IsKnown (setup listing) ensure_spec) listed
read_resources-IsKnown_example =
    read_resources-IsKnown (setup listing) ensure_spec listing listed listing_read

-- A change of one resource.
abbrev report : Doc
report = branch "changes" (
    (
      ("name" ∷ "ensure" ∷ []),
      (("ensure.is", "present") ∷ ("ensure.was", "absent") ∷ ("name", "gcc") ∷ []),
    )
    ∷ [])

abbrev entries : List Doc
entries =
    leaf (
      "name" ∷ "ensure" ∷ [],
      ("ensure.is", "present") ∷ ("ensure.was", "absent") ∷ ("name", "gcc") ∷ [],
    )
    ∷ []

gcc_ne_vim : ◌≢◌ {A = String} "gcc" "vim"
gcc_ne_vim = ground (arith, eq_iff "gcc" "vim")

gcc_elsewhere : ◌≢◌ {A = Result String} (ok "gcc") (ok "vim")
gcc_elsewhere e = ground (arith, gcc_ne_vim)

report-IsElsewhere :
    (ds : List Doc)
    → doc_docs report ("changes" ∷ []) ≡ ok ds
    → All (IsElsewhere (setup report) ensure_spec "vim") ds
unfolding join find
report-IsElsewhere ds e =
    let same : ok entries ≡ ok ds = e in
    subst (All (IsElsewhere (setup report) ensure_spec "vim")) {x = entries} {y = ds} (cc)
      (gcc_elsewhere, tt)

abbrev installed : Update
installed = record {
  is = record { name = "gcc"; attrs = ("ensure", text "absent") ∷ [] };
  should = record { name = "gcc"; attrs = ("ensure", text "present") ∷ [] };
}

-- A system on which every program works and prints the same.
abbrev quiet_target : Target ℕ
quiet_target = record {
  upload = λ path n. (ok path, n);
  execute = λ path args stdin n.
      (record { success = true; output = "{}"; error = ""; exit_code = "0" }, n + 1);
  executable = λ path n. true;
}

abbrev waiting : Call (Shell ℕ)
waiting = record {
  recorded = [];
  world = record { cmd = record { path = "demo.prov"; needs_upload = false }; world = 0 };
}

report-answered :
    (run_action (setup report) quiet_target "set" doc_blank waiting.world).0 ≡ ok report
unfolding run_action libral.Command.execute libral.Command.execute_after libral.Command.upload
    answer libral.Json.Action.log_errors libral.Json.Action.failure libral.Json.Action.read_output
report-answered = refl

report-SaysNothing :
    (out : Doc)
    → (run_action (setup report) quiet_target "set" doc_blank waiting.world).0 ≡ ok out
    → SaysNothing (setup report) ensure_spec quiet_target "vim" out
report-SaysNothing out e =
    let same : ok report ≡ ok out = rw report-answered at e in
    subst (λ d. SaysNothing (setup report) ensure_spec quiet_target "vim" d) {x = report} {y = out}
      (cc) report-IsElsewhere

set_leaves_others_example :
    changes_for "vim"
      (set (setup report) ensure_spec quiet_target (installed ∷ []) waiting).1.recorded
    ≡ changes_for "vim" []
unfolding libral.Json.Calls.set_input
set_leaves_others_example =
    set_leaves_others (setup report) ensure_spec quiet_target "vim" (installed ∷ []) waiting
      report-SaysNothing (gcc_ne_vim, tt)
