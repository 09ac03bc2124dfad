-- ===== src/Metadata/Read.antt =====
-- `prov::spec::read`
use mathlib.Core.Path.{subst}
use libral.Base.{
  String, Bool, false, none, some, [], if◌then◌else◌, Result, ok, err, throws, ◌>>=◌, >>=-eq-ok,
  >>=-elim, ◌≡◌, refl, arith, All, Option-cases,
}
use libral.Base.Text.{◌<>◌, erase_spaces}
use libral.Base.Dict.{Dict, find, insert}
use libral.Base.Dict.Laws.{All-put}
use libral.Attr.{Spec, create_kind}
use libral.Attr.Create.{create, read_type}
use libral.Attr.WellFormed.{WellFormed, create-WellFormed}
use libral.Provider.{ProvSpec}
use libral.Metadata.Suitable.{
  Yaml, Entries, null, hash, no_entries, entry, hash_get, is_null, as_string, hash_get_string,
  read_suitable,
}

unfoldable pub make_qname : String → String → String
make_qname name type = type <> "::" <> name

-- the body of the loop over the attributes
unfoldable pub read_attr : Yaml → Yaml → Result (String × Spec)
read_attr key value =
    let name = as_string "" key in
    do
      attr ←
          create name (hash_get_string value "desc" "(missing description)")
            (hash_get_string value "type" "string") (hash_get_string value "kind" "rw")
      ok (name, attr)

unfoldable pub read_attrs : Entries → Dict Spec → Result (Dict Spec)
read_attrs no_entries specs = ok specs
read_attrs (entry key value es) specs = do
  a ← read_attr key value
  read_attrs es (insert a.0 a.1 specs)

-- The attributes' node is there and is a hash.
unfoldable pub attrs_of : Yaml → Result (Dict Spec)
attrs_of null = err "could not find entry 'provider.attributes' in YAML"
attrs_of (hash es) = read_attrs es []
attrs_of _ = err "expected 'provider.attributes' to be a hash but it's something else"

unfoldable pub check_name : Dict Spec → Result (Dict Spec)
check_name specs = elim (find "name" specs) [
  | none ↦ err "no attribute 'name' has been defined, but that is mandatory"
  | some s ↦ ok specs
]

unfoldable pub present : String → Yaml → Result (Unit {0})
present words v = if is_null v then err words else ok tt

-- The provider's node in the document.
unfoldable pub provider_node : Yaml → Result Yaml
provider_node (hash es) = do
  node ← hash_get (hash es) "provider"
  _ ← present "could not find 'provider' entry in YAML" node
  ok node
provider_node _ = err "metadata must be a map but isn't"

unfoldable pub decide_suitable : (String → String) → Yaml → String → Bool → Result Bool
decide_suitable which node name suitable =
    if suitable then read_suitable which node name else ok false

-- the constructor, with the texts that are read for it
unfoldable pub spec_of : Yaml → String → Dict Spec → Bool → ProvSpec
unfolding make_qname
spec_of node prov_name specs suitable =
    let name = hash_get_string node "name" prov_name in
    let type = hash_get_string node "type" "" in
    record {
      name = name;
      type_name = type;
      desc = hash_get_string node "desc" "";
      invoke = hash_get_string node "invoke" "(none)";
      qname = make_qname name type;
      suitable = suitable;
      attr_specs = specs;
    }

-- what is made of the provider's node
unfoldable pub read_node : (String → String) → String → Yaml → Bool → Result ProvSpec
read_node which prov_name node suitable = do
  type_node ← hash_get node "type"
  _ ← present "missing 'type' attribute" type_node
  attrs_node ← hash_get node "attributes"
  specs ← attrs_of attrs_node
  checked ← check_name specs
  fits ← decide_suitable which node prov_name suitable
  ok (spec_of node prov_name checked fits)

-- `YAML.load` failing
unfoldable pub parse_failed : Result Yaml → Result Yaml
parse_failed (err e) = err ("failed to parse provider metadata: " <> e)
parse_failed (ok y) = ok y
parse_failed (throws x) = throws x

-- `spec::read(env, prov_name, yaml, suitable)`, where `loaded` is what `YAML.load` makes of the text
unfoldable pub read : (String → String) → Result Yaml → String → Bool → Result ProvSpec
read which loaded prov_name suitable = do
  doc ← parse_failed loaded
  node ← provider_node doc
  read_node which prov_name node suitable

-- An attribute's specification is under its own name, and its type is well-formed.
abbrev pub IsSound : String × Spec → Type 0
IsSound e = (e.1.name ≡ e.0) × WellFormed e.1.data_type

insert-All :
    (e : String × Spec) (d : Dict Spec) → IsSound e → All IsSound d → All IsSound (insert e.0 e.1 d)
unfolding insert
insert-All e d h a = ground (arith, All-put IsSound e.0 e.1 d h a)

create-name :
    (name desc type kind : String) (s : Spec) → create name desc type kind ≡ ok s → s.name ≡ name
unfolding create
create-name name desc type kind s e =
    let (k, e₁, e') = >>=-eq-ok (create_kind kind) _ e in
    let (dt, e₂, last) = >>=-eq-ok (read_type type (erase_spaces type)) _ e' in ground arith

read_attr-IsSound : (key value : Yaml) (e : String × Spec) → read_attr key value ≡ ok e → IsSound e
unfolding read_attr
read_attr-IsSound key value e h =
    let (s, made, last) = >>=-eq-ok (create _ _ _ _) _ h in
    subst IsSound {x = (as_string "" key, s)} {y = e} (ground arith)
      (create-name _ _ _ _ s made, create-WellFormed _ _ _ _ s made)

read_attrs-IsSound :
    (es : Entries) (d d' : Dict Spec) → read_attrs es d ≡ ok d' → All IsSound d → All IsSound d'
unfolding read_attrs
read_attrs-IsSound no_entries d d' h a = subst (All IsSound) (ground arith) a
read_attrs-IsSound (entry key value es) d d' h a =
    let (e, e₁, rest) = >>=-eq-ok (read_attr key value) _ h in
    read_attrs-IsSound es (insert e.0 e.1 d) d' rest
      (insert-All e d (read_attr-IsSound key value e e₁) a)

check_name_lem :
    (d d' : Dict Spec) → check_name d ≡ ok d' → (d' ≡ d) × ((s : Spec) × (find "name" d ≡ some s))
unfolding check_name
check_name_lem d d' h = ground (arith, Option-cases (find "name" d))

attrs_of-IsSound : (v : Yaml) (d : Dict Spec) → attrs_of v ≡ ok d → All IsSound d
unfolding attrs_of
attrs_of-IsSound (hash es) d h = read_attrs-IsSound es [] d h tt
attrs_of-IsSound null d h = cc
attrs_of-IsSound _ d h = cc

-- The specification has an attribute "name", its attributes are sound, and it is called
-- '<TYPE>::<PROVIDER>'.
abbrev pub IsValid : ProvSpec → Type 0
IsValid spec =
    ((s : Spec) × (find "name" spec.attr_specs ≡ some s))
    × All IsSound spec.attr_specs
    × (spec.qname ≡ spec.type_name <> "::" <> spec.name)

spec_of-IsValid :
    (node : Yaml) (prov_name : String) (attrs : Yaml) (specs checked : Dict Spec) (fits : Bool)
    → attrs_of attrs ≡ ok specs
    → check_name specs ≡ ok checked
    → IsValid (spec_of node prov_name checked fits)
unfolding spec_of make_qname
spec_of-IsValid node prov_name attrs specs checked fits found there =
    let (same, named) = check_name_lem specs checked there in
    rw same (named, attrs_of-IsSound attrs specs found, refl)

read_node-IsValid :
    (which : String → String) (prov_name : String) (node : Yaml) (suitable : Bool) (spec : ProvSpec)
    → read_node which prov_name node suitable ≡ ok spec
    → IsValid spec
unfolding read_node
read_node-IsValid which prov_name node suitable =
    >>=-elim IsValid (hash_get node "type") _ (λ type_node _.
      >>=-elim IsValid (present "missing 'type' attribute" type_node) _ (λ _ _.
        >>=-elim IsValid (hash_get node "attributes") _ (λ attrs _.
          >>=-elim IsValid (attrs_of attrs) _ (λ specs found.
            >>=-elim IsValid (check_name specs) _ (λ checked there.
              >>=-elim IsValid (decide_suitable which node prov_name suitable) _
                (λ fits _ spec last.
                  subst IsValid {x = spec_of node prov_name checked fits} {y = spec} (ground arith)
                    (spec_of-IsValid node prov_name attrs specs checked fits found there)))))))

-- Whatever the document is, a specification that is read from it has an attribute "name", keeps
-- every attribute under its own name and with a well-formed type, and is called
-- '<TYPE>::<PROVIDER>'.
pub read-IsValid :
    (which : String → String) (loaded : Result Yaml) (prov_name : String) (suitable : Bool)
    → (spec : ProvSpec) → read which loaded prov_name suitable ≡ ok spec
    → IsValid spec
unfolding read
read-IsValid which loaded prov_name suitable = >>=-elim IsValid (parse_failed loaded) _ (λ doc _.
    >>=-elim IsValid (provider_node doc) _
      (λ node _. read_node-IsValid which prov_name node suitable))
