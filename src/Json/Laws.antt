-- ===== src/Json/Laws.antt =====
-- When an action fails, and what `get` returns.
use libral.Base.{
  String, true, false, Option, none, some, List, ◌∷◌, [], ◌==◌, Result, ok, err, throws, is_ok, ◌≡◌,
  refl, arith, All, traverse-All, Bool-cases, ◌⊎◌, inl, inr, ◌≢◌, >>=-eq-ok,
}
use mathlib.Core.Path.{subst}
use libral.Base.Text.{empty}
use libral.Base.Dict.{Dict, find, put}
use libral.Base.Dict.Laws.{All-put}
use libral.Value.{Value}
use libral.Resource.{Resource, new, assign}
use libral.Command.{Status}
use libral.Json.Documents.{value_from_json}
use libral.Json.Action.{Setup, failure, answer}
use libral.Json.Calls.{
  read_key, read_keys, resource_from_json, read_resources, put_read, read_listed,
}
use libral.Json.Changes.{contains_error}
use libral.Attr as Attr

module _ (j : Setup) where
  open j use {docs}

  -- A script that exits with an error is taken for one that succeeded, whatever its exit code, if
  -- it has printed something on its standard output and something on its standard error.
  pub failed_action_accepted :
      (action : String) (s : Status)
      → empty s.output ≡ false
      → empty s.error ≡ false
      → answer j action s ≡ answer j action (record s { success = true })
  unfolding answer failure
  failed_action_accepted action s out e = ground arith

  -- A script that exits with an error and is silent on its standard output or on its standard error
  -- makes the action fail, whatever the rest of what it prints.
  pub failed_action_fails :
      (action : String) (s : Status)
      → s.success ≡ false
      → (empty s.output ≡ true) ⊎ (empty s.error ≡ true)
      → is_ok (answer j action s) ≡ false
  unfolding answer failure
  failed_action_fails action s bad quiet = ground arith

  module _ (specs : Dict Attr.Spec) where
    -- Every attribute of the resource is one that the provider has.
    abbrev pub IsKnown : Resource → Type 0
    IsKnown r = All (λ (e : String × Value). find e.0 specs ≢ none) r.attrs

    value_from_json_known :
        (k : String) (doc : docs.json.Doc) (key : List String) (v : Value)
        → value_from_json docs specs k doc key ≡ ok (some v)
        → find k specs ≢ none
    unfolding value_from_json
    value_from_json_known k doc key v e h = cc

    assign-IsKnown :
        (r r' : Resource) (k : String) (v : Value)
        → find k specs ≢ none
        → IsKnown r
        → assign r k v ≡ ok r'
        → IsKnown r'
    unfolding assign
    assign-IsKnown r r' k v known h e =
        subst (All (λ (e : String × Value). find e.0 specs ≢ none)) {x = put k v r.attrs}
          {y = r'.attrs} (ground arith)
          (All-put (λ (e : String × Value). find e.0 specs ≢ none) k v r.attrs known h)

    put_read-IsKnown :
        (k : String) (r r' : Resource) (read : Result (Option Value))
        → ((v : Value) → read ≡ ok (some v) → find k specs ≢ none)
        → IsKnown r
        → put_read j specs k r read ≡ ok r'
        → IsKnown r'
    put_read-IsKnown k r r' (ok none) known h e = subst IsKnown {x = r} {y = r'} (ground arith) h
    put_read-IsKnown k r r' (ok (some v)) known h e = assign-IsKnown r r' k v (known v refl) h e
    put_read-IsKnown k r r' (err _) known h e = ground arith
    put_read-IsKnown k r r' (throws _) known h e = ground arith

    read_key-IsKnown :
        (doc : docs.json.Doc) (k : String) (r r' : Resource)
        → IsKnown r
        → read_key j specs doc k r ≡ ok r'
        → IsKnown r'
    unfolding read_key
    read_key-IsKnown doc k r r' h e = elim (Bool-cases (k == "name")) [
      | inl same ↦ subst IsKnown {x = r} {y = r'} (ground arith) h
      | inr other ↦
          put_read-IsKnown k r r' (value_from_json docs specs k doc (k ∷ []))
            (λ v. value_from_json_known k doc (k ∷ []) v) h (rw other at e)
    ]

    read_keys-IsKnown :
        (doc : docs.json.Doc) (ks : List String) (r r' : Resource)
        → IsKnown r
        → read_keys j specs doc ks r ≡ ok r'
        → IsKnown r'
    unfolding read_keys
    read_keys-IsKnown doc [] r r' h e = subst IsKnown {x = r} {y = r'} (ground arith) h
    read_keys-IsKnown doc (k ∷ ks) r r' h e =
        let (r₁, e₁, e₂) = >>=-eq-ok (read_key j specs doc k r) _ e in
        read_keys-IsKnown doc ks r₁ r' (read_key-IsKnown doc k r r₁ h e₁) e₂

    resource-IsKnown :
        (doc : docs.json.Doc) (r : Resource) → resource_from_json j specs doc ≡ ok r → IsKnown r
    unfolding resource_from_json
    resource-IsKnown doc r e =
        let (n, e₁, e₂) = >>=-eq-ok (docs.json.get_string doc ("name" ∷ [])) _ e in
        read_keys-IsKnown doc (docs.keys doc) (new n) r tt e₂

    read_listed-IsKnown :
        (out : docs.json.Doc) (rs : List Resource) (found : Option String)
        → read_listed j specs out found ≡ ok rs
        → All IsKnown rs
    read_listed-IsKnown out rs (some message) e = ground arith
    read_listed-IsKnown out rs none e = elim (Bool-cases (docs.includes out ("resources" ∷ []))) [
      | inl there ↦
          let (ds, e₁, e₂) = >>=-eq-ok (docs.get_docs out ("resources" ∷ [])) _ (rw there at e) in
          traverse-All (resource_from_json j specs) IsKnown resource-IsKnown ds rs e₂
      | inr absent ↦ ground arith
    ]

    -- Every attribute of every resource that is read from an answer to 'get' is one that the
    -- provider has.
    pub read_resources-IsKnown :
        (out : docs.json.Doc) (rs : List Resource)
        → read_resources j specs out ≡ ok rs
        → All IsKnown rs
    unfolding read_resources
    read_resources-IsKnown out rs e =
        let (found, e₁, e₂) = >>=-eq-ok (contains_error j specs out) _ e in
        read_listed-IsKnown out rs found e₂
