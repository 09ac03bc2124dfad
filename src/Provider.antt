-- ===== src/Provider.antt =====
-- lib/inc/libral/provider.hpp and lib/src/provider.cc: what every provider has, its two virtual
-- methods as fields, and the operations that are built on them.
pub mod Find
pub mod Set
pub mod Create
pub mod Reported
use libral.Base.{
  String, Bool, true, false, not, Option, none, some, List, [], ◌∷◌, ◌++◌, ◌==◌, if◌then◌else◌,
  Result, ok, err, throws, undefined, ◌>>=◌, Exec, map,
}
use libral.Base.Text.{◌<>◌}
use libral.Base.Dict.{Dict, find as find_entry, insert_all}
use libral.Value.{Value, text, value_eq}
use libral.Resource.{Resource, Update, name, new, assign, current}
use libral.Context.{Change, Changes, Recorded, changes_for}
use libral.Attr.{read_string}
use libral.Attr as Attr

-- `prov::spec`, as far as providers use it; `qname` is '<TYPE>::<PROVIDER>'.
pub record ProvSpec : Type 0 where
  pub name : String
  pub type_name : String
  pub desc : String
  pub invoke : String
  pub qname : String
  pub suitable : Bool
  pub attr_specs : Dict Attr.Spec

-- The state that a call works on: the changes in its context, and the managed system.
pub record Call (W : Type 0) : Type 0 where
  pub recorded : Recorded
  pub world : W

pub record Provider (W : Type 0) : Type 0 where
  pub spec : Option ProvSpec
  pub get_in : List String → Dict Value → Exec (Call W) (List Resource)
  pub set_in : List Update → Exec (Call W) (Unit {0})

-- `qname()`: reads `_spec`, which is undefined while there is none.
unfoldable pub qname : {W : Type 0} → Provider W → Result String
qname p = elim p.spec [ none ↦ throws undefined | some s ↦ ok s.qname ]

-- `create(name)`
abbrev pub create : String → Resource
create n = new n

-- `parse(name, v)`
unfoldable pub parse : {W : Type 0} → Provider W → String → String → Result Value
parse p n v = elim p.spec [
  | none ↦ err "internal error: spec was not initialized"
  | some s ↦ elim (find_entry n s.attr_specs) [
    | none ↦ err ("there is no attribute '" <> n <> "'")
    | some a ↦ read_string a.data_type v
  ]
]

-- `describe(env)` of the base class, and `prepare(env)` over whatever `describe` the class has
unfoldable pub describe : {W : Type 0} → Provider W → Result ProvSpec
describe p = elim p.spec [
  | none ↦ err "Internal error: spec should have been given in the constructor"
  | some s ↦ ok s
]

unfoldable pub prepare :
    {W : Type 0} → (Provider W → Result ProvSpec) → Provider W → Result (Provider W)
prepare described p = elim p.spec [
  | none ↦ do s ← described p; ok (record p { spec = some s })
  | some s ↦ ok p
]

-- The context that `get` and `set` begin with.
abbrev pub fresh : {W : Type 0} → W → Call W
fresh w = record { recorded = []; world = w }

-- What a method leaves when its context is gone.
abbrev pub leave : {W A : Type 0} → Result A × Call W → Result A × W
leave (r, c) = (r, c.world)

-- `get(names)`
unfoldable pub get : {W : Type 0} → Provider W → List String → Exec W (List Resource)
get p names w = leave (p.get_in names [] (fresh w))
