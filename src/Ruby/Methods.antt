-- ===== src/Ruby/Methods.antt =====
-- The methods of Provider and Ral.
use libral.Base.{String, Option, none, some, List, [], ◌∷◌, ◌++◌, Result}
use libral.Base.Text.{◌<>◌, c_str}
use libral.Resource.{Resource, Update}
use libral.Context.{Change, Changes}
use libral.Provider.{Provider, qname}
use libral.Provider as Provider
use libral.Provider.Set.{set}
use libral.Ruby.Values.{
  Entry, string, other, RubyValue, string_value, list, Ending, escapes, raises, value,
  provider_error, type_error, ending_of, value_to_ruby, string_value_cstr, RubyResource,
  resource_to_ruby, resource_from_ruby, ◌>>=◌,
}

-- An instance of Change, and one of Update.
pub record RubyChange : Type 0 where
  pub attr : String
  pub is : RubyValue
  pub was : RubyValue

pub record RubyUpdate : Type 0 where
  pub is : RubyResource
  pub should : RubyResource
  pub changes : List RubyChange

-- the names in an array; `StringValueCStr` raises where one is no string
unfoldable pub names_in : List Entry → Ending (List String)
names_in [] = value []
names_in (string s ∷ es) = do n ← string_value_cstr s; ns ← names_in es; value (n ∷ ns)
names_in (other o ∷ es) = raises type_error ("no implicit conversion of " <> o <> " into String")

unfoldable pub names_of : RubyValue → Ending (List String)
names_of (string_value s) = do n ← string_value_cstr s; value (n ∷ [])
names_of (list es) = names_in es
names_of _ = raises type_error "arguments to get must be strings or arrays of strings"

-- the loop over the arguments
unfoldable pub all_names : List RubyValue → Ending (List String)
all_names [] = value []
all_names (a ∷ as') = do ns ← names_of a; rest ← all_names as'; value (ns ++ rest)

unfoldable pub resources_to_ruby : List Resource → List RubyResource
resources_to_ruby [] = []
resources_to_ruby (r ∷ rs) = resource_to_ruby r ∷ resources_to_ruby rs

unfoldable pub change_to_ruby : Change → RubyChange
change_to_ruby c = record {
  attr = c_str c.attr;
  is = value_to_ruby c.is;
  was = value_to_ruby c.was;
}

unfoldable pub changes_to_ruby : Changes → List RubyChange
changes_to_ruby [] = []
changes_to_ruby (c ∷ cs) = change_to_ruby c ∷ changes_to_ruby cs

-- the loop over the result of `set`
unfoldable pub updates_to_ruby : List (Update × Changes) → List RubyUpdate
updates_to_ruby [] = []
updates_to_ruby ((u, chgs) ∷ rest) =
    record {
      is = resource_to_ruby u.is;
      should = resource_to_ruby u.should;
      changes = changes_to_ruby chgs;
    }
    ∷ updates_to_ruby rest

abbrev listed : Result (List Resource) → Ending (List RubyResource)
listed r = do rs ← ending_of "get failed: " r; value (resources_to_ruby rs)

abbrev updated : Result (List (Update × Changes)) → Ending (List RubyUpdate)
updated r = do us ← ending_of "" r; value (updates_to_ruby us)

module _ {W : Type 0} (p : Provider W) where
  abbrev get_named : Ending (List String) → W → Ending (List RubyResource) × W
  get_named (value ns) w = let (r, w') = Provider.get p ns w in (listed r, w')
  get_named (raises c e) w = (raises c e, w)
  get_named (escapes x) w = (escapes x, w)

  -- `libral_prov_get`
  unfoldable pub prov_get : List RubyValue → W → Ending (List RubyResource) × W
  prov_get args w = get_named (all_names args) w

  -- `libral_prov_name`
  unfoldable pub prov_name : Ending String
  prov_name = ending_of "" (qname p)

  module _ (inspect : RubyValue → String) where
    -- the loop over the resources of `libral_prov_set`
    unfoldable pub read_resources : List RubyResource → Ending (List Resource)
    read_resources [] = value []
    read_resources (r ∷ rs) = do
      r' ← resource_from_ruby inspect r
      rest ← read_resources rs
      value (r' ∷ rest)

    abbrev set_read : Ending (List Resource) → W → Ending (List RubyUpdate) × W
    set_read (value rs) w = let (r, w') = set p rs w in (updated r, w')
    set_read (raises c e) w = (raises c e, w)
    set_read (escapes x) w = (escapes x, w)

    -- `libral_prov_set`; `none` is an argument that is no array
    unfoldable pub prov_set : Option (List RubyResource) → W → Ending (List RubyUpdate) × W
    prov_set none w = (raises type_error "the resources argument must be an array", w)
    prov_set (some rs) w = set_read (read_resources rs) w

abbrev found_of : {W : Type 0} → String → Option (Provider W) → Ending (Provider W)
found_of n none = raises provider_error ("Failed to find provider '" <> n <> "'")
found_of n (some p) = value p

-- `libral_ral_provider`, where `find` is `find_provider`
unfoldable pub ral_provider :
    {W : Type 0} → (String → Option (Provider W)) → String → Ending (Provider W)
ral_provider find rb_name = do n ← string_value_cstr rb_name; found_of n (find n)
