-- ===== src/Examples/Systems.antt =====
-- Commands, accounts and the lookup of providers at concrete inputs.
use libral.Base.{
  ℕ, suc, String, Bool, true, false, not, Option, none, some, List, [], ◌∷◌, ◌++◌, ◌==◌,
  if◌then◌else◌, Result, ok, err, Exec, ◌≡◌, refl, inl, is_ok, All,
}
use libral.Value.{text, array, nothing}
use libral.Resource.{Resource, Update, lookup_text_or}
use libral.Context.{Changes, changes_for}
use libral.Provider.{Call, fresh, ProvSpec}
use libral.Accounts.Tools.{
  Tools, run_tool, with_changes, state_of as user_state, ensure_of as user_ensure,
}
use libral.Accounts.Creation.{begun, set_one_creates}
use libral.Accounts.User.{gather, set, set_one as set_user}
use libral.Ral.Lookup.{find_provider, chosen, of_qname, of_type, find_provider_lem}
use mathlib.Core.List.{Perm}
use libral.Ral.Loading.{Loader, providers, providers_sound, IsSuitable}
use libral.Ral.Sorting.{IsSorted}

-- Tools that count their runs.
abbrev counting : Tools ℕ
counting = record {
  add = λ args n. (ok tt, suc n);
  mod_account = λ args n. (ok tt, suc n);
  del = λ args n. (ok tt, suc n);
}

-- A user who is missing, and is to have a shell.
abbrev eve : Update
eve = record {
  is = record { name = "eve"; attrs = ("ensure", text "absent") ∷ [] };
  should = record {
    name = "eve";
    attrs = ("ensure", text "present") ∷ ("shell", text "/bin/sh") ∷ [];
  };
}

abbrev idle : Call ℕ
idle = fresh 0

abbrev eve_changes : Changes
eve_changes =
    record { attr = "ensure"; is = text "present"; was = text "absent" }
    ∷ record { attr = "shell"; is = text "/bin/sh"; was = nothing }
    ∷ []

abbrev eve_args : List String
eve_args = "-s" ∷ "/bin/sh" ∷ "-M" ∷ "eve" ∷ []

eve_gone : user_state eve ≡ "absent"
unfolding user_state lookup_text_or libral.Base.Dict.find libral.Value.as_text
eve_gone = refl

eve_wanted : user_ensure eve ≡ "present"
unfolding user_ensure lookup_text_or libral.Base.Dict.find libral.Value.as_text
eve_wanted = refl

eve_gathered : gather eve (begun eve idle) ≡ ok (eve_changes, eve_args)
unfolding gather libral.Accounts.User.props_args libral.Accounts.User.prop_args
    libral.Resource.changed libral.Value.is_present libral.Base.Dict.find libral.Value.value_eq
    libral.Accounts.User.prop_change libral.Resource.lookup_text libral.Value.as_text
    libral.Accounts.User.groups_args libral.Value.to_string libral.Accounts.User.same_set
    libral.Accounts.User.subset libral.Resource.lookup_array_or libral.Context.add
    libral.Accounts.User.home_args libral.Accounts.Tools.ensure_change
    libral.Resource.lookup_bool_or user_ensure user_state lookup_text_or changes_for
eve_gathered = refl

set_one_creates_example :
    set_user counting eve (fresh 0)
    ≡ run_tool counting.add eve_args
        (with_changes eve eve_changes (with_changes eve (begun eve idle) (fresh 0)))
set_one_creates_example =
    set_one_creates counting eve (fresh 0) eve_changes eve_args eve_gone eve_wanted eve_gathered

abbrev host : ProvSpec
host = record {
  name = "augeas";
  type_name = "host";
  desc = "hosts";
  invoke = "builtin";
  qname = "host::augeas";
  suitable = true;
  attr_specs = [];
}

abbrev apt : ProvSpec
apt = record host { name = "apt"; type_name = "package"; qname = "package::apt" }

abbrev gem : ProvSpec
gem = record apt { name = "gem"; qname = "package::gem"; suitable = false }

abbrev loader : Loader
loader = record {
  metadata = λ path. ok "yaml";
  stem = λ path. path;
  parse_spec = λ name yaml. ok (record apt { invoke = "simple" });
}

find_provider_lem_example :
    find_provider "package" (apt ∷ gem ∷ host ∷ [])
    ≡ chosen
        (of_qname "package" (apt ∷ gem ∷ host ∷ []))
        (of_type "package" (apt ∷ gem ∷ host ∷ []))
find_provider_lem_example = find_provider_lem "package" (apt ∷ gem ∷ host ∷ [])

abbrev prepared : List (Result ProvSpec)
prepared = ok gem ∷ ok host ∷ err "no" ∷ []

providers_sound_example :
    (ps : List ProvSpec) × (providers prepared loader ("apt.prov" ∷ []) ≡ ok ps)
    × IsSorted ps
    × All IsSuitable ps
    × Perm ps (host ∷ record apt { invoke = "simple" } ∷ [])
unfolding libral.Ral.Loading.is_convention
providers_sound_example =
    providers_sound prepared loader ("apt.prov" ∷ []) (tt, (tt, (tt, tt))) (tt, tt)
