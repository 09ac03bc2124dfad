-- ===== src/Resource.antt =====
-- lib/inc/libral/resource.hpp and lib/src/resource.cc: resources, and updates as pairs of an `is`
-- and a `should` resource.
pub mod Laws
use libral.Base.{
  String, Bool, true, false, not, Option, none, some, List, ◌==◌, if◌then◌else◌, Result, ok, throws,
  ◌>>=◌, Exception, invalid_argument, [],
}
use libral.Base.Dict.{Dict, find, put, erase as erase_entry}
use libral.Value.{Value, nothing, is_present, as_bool, as_text, as_array, value_eq}

pub record Resource : Type 0 where
  pub name : String
  pub attrs : Dict Value

-- `resource(name)`, through which `provider::create(name)` goes
abbrev pub new : String → Resource
new n = record { name = n; attrs = [] }

unfoldable pub is_name : String → Bool
is_name key = key == "name"

abbrev pub or_nothing : Option Value → Value
or_nothing none = nothing
or_nothing (some v) = v

-- `r[key]`, read
unfoldable pub index : Resource → String → Result Value
unfolding is_name
index r key = if is_name key then throws invalid_argument else ok (or_nothing (find key r.attrs))

-- `r[key] = v`
unfoldable pub assign : Resource → String → Value → Result Resource
unfolding is_name
assign r key v =
    if is_name key then throws invalid_argument else ok (record r { attrs = put key v r.attrs })

-- `r.erase(key)`
unfoldable pub erase : Resource → String → Resource
erase r key = record r { attrs = erase_entry key r.attrs }

abbrev or_default {ℓ} : {A : Type ℓ} → Option A → A → A
or_default none d = d
or_default (some a) d = a

-- the pointer that `lookup<T>(key)` returns
unfoldable pub lookup_text : Resource → String → Option String
lookup_text r key = elim (find key r.attrs) [ none ↦ none | some v ↦ as_text v ]

unfoldable pub lookup_array : Resource → String → Option (List String)
lookup_array r key = elim (find key r.attrs) [ none ↦ none | some v ↦ as_array v ]

unfoldable pub lookup_bool : Resource → String → Option Bool
lookup_bool r key = elim (find key r.attrs) [ none ↦ none | some v ↦ as_bool v ]

-- `lookup<T>(key, deflt)`
unfoldable pub lookup_text_or : Resource → String → String → String
unfolding lookup_text
lookup_text_or r key d = or_default (lookup_text r key) d

unfoldable pub lookup_array_or : Resource → String → List String → List String
unfolding lookup_array
lookup_array_or r key d = or_default (lookup_array r key) d

unfoldable pub lookup_bool_or : Resource → String → Bool → Bool
unfolding lookup_bool
lookup_bool_or r key d = or_default (lookup_bool r key) d

pub record Update : Type 0 where
  pub is : Resource
  pub should : Resource

abbrev pub name : Update → String
name u = u.is.name

-- `upd.changed(attr)`: the second `[]` is read only if the first is set.
unfoldable pub changed : Update → String → Result Bool
unfolding index
changed u attr = do
  s ← index u.should attr
  if is_present s then (do i ← index u.is attr; ok (not (value_eq i s))) else ok false

-- `upd[attr]`
unfoldable pub current : Update → String → Result Value
unfolding index
current u attr = do s ← index u.should attr; if is_present s then ok s else index u.is attr

unfoldable pub present : Update → Bool
unfolding lookup_text_or
present u = not (lookup_text_or u.is "ensure" "absent" == "absent")
