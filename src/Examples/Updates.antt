-- ===== src/Examples/Updates.antt =====
-- Updates, changes and providers at concrete inputs.
use libral.Base.{
  String, Bool, true, false, Option, none, some, List, [], ◌∷◌, ◌++◌, ◌==◌, Result, ok, err, throws,
  ◌≡◌, ◌≢◌, refl, All, arith, eq_iff, map, ◌>>=◌, is_empty, not, ◌&&◌, ◌⊎◌, ◌↔◌, if◌then◌else◌,
  invalid_argument,
}
use libral.Base.Dict.{find}
use libral.Base.Dict.Laws.{or_else}
use libral.Value.{text, value_eq, is_present}
use libral.Resource.{Resource, Update, new, index, assign, name}
use libral.Context.{
  Change, Changes, Recorded, maybe_add, add_attr, add_absent, has_resource, exists,
}
use libral.Context.Laws.{ensure_of}
use libral.Context.Missing.{Settled}
use libral.Context.MaybeAdd.{maybe_add-Settled}
use libral.Provider.{Provider, ProvSpec, Call, fresh, qname, get}
use libral.Provider.Find.{find as find_resource, find_lem, named, only}
use libral.Provider.Set.{updates, updates-Distinct, paired}
use libral.Provider.Reported.{create_after-maybe_add}
use libral.Resource.Laws.{value_at}
use libral.Provider.Create.{create_after, create_after_lem, create_after_absent, last_change}

-- A user whose shell is to be another and whose uid is as it should be.
abbrev shells : Update
shells = record {
  is = record {
    name = "bob";
    attrs = ("ensure", text "present") ∷ ("shell", text "/bin/sh") ∷ ("uid", text "7") ∷ [];
  };
  should = record { name = "bob"; attrs = ("shell", text "/bin/zsh") ∷ ("uid", text "7") ∷ [] };
}

abbrev shell_change : Changes
shell_change = record { attr = "shell"; is = text "/bin/zsh"; was = text "/bin/sh" } ∷ []

shells_stays : value_eq (ensure_of shells) (text "absent") ≡ false
unfolding value_eq is_present find
shells_stays = refl

shells_added : maybe_add shells [] ≡ ok (true, shell_change)
unfolding maybe_add libral.Resource.current is_present find value_eq libral.Context.add_all_missing
    libral.Context.add_missing exists
shells_added = refl

maybe_add-Settled_example : All (Settled shells shell_change) shells.should.attrs
maybe_add-Settled_example = maybe_add-Settled shells [] true shell_change shells_stays shells_added

-- What a provider reports, and what it is asked for.
abbrev bob : Resource
bob = shells.is

abbrev eve : Resource
eve = record { name = "eve"; attrs = ("shell", text "/bin/sh") ∷ [] }

-- A provider over a system that is the list of its resources: it stores what it is asked for.
abbrev stored : List Update → List Resource
stored [] = []
stored (u ∷ us) = u.should ∷ stored us

abbrev store : Provider (List Resource)
store = record {
  spec = none;
  get_in = λ ns config c. (ok c.world, c);
  set_in = λ us c. (ok tt, record c { world = stored us });
}

find_lem_example : find_resource store "bob" (bob ∷ []) ≡ (
  (get store ("bob" ∷ []) (bob ∷ [])).0 >>= (λ rs. only (qname store) "bob" (named "bob" rs)),
  (get store ("bob" ∷ []) (bob ∷ [])).1,
)
find_lem_example = find_lem store "bob" (bob ∷ [])

updates-Distinct_example :
    updates (eve ∷ bob ∷ []) (bob ∷ []) ≡ paired eve (bob ∷ []) ∷ paired bob (bob ∷ []) ∷ []
unfolding has_resource
updates-Distinct_example = updates-Distinct (eve ∷ bob ∷ []) (bob ∷ []) (refl, tt)

-- What is shown of the user after the change of the shell.
abbrev shown : Resource
shown = record {
  name = "bob";
  attrs = ("ensure", text "present") ∷ ("shell", text "/bin/zsh") ∷ ("uid", text "7") ∷ [];
}

shown_is : create_after shells shell_change ≡ ok shown
unfolding create_after libral.Resource.current is_present find value_eq
    libral.Provider.Create.apply_changes assign libral.Base.Dict.put libral.Base.Dict.insert_all
    libral.Base.Dict.insert
shown_is = refl

create_after_lem_example :
    (find "shell" shown.attrs
      ≡ or_else
          (last_change "shell" shell_change)
          (or_else (find "shell" shells.is.attrs) (find "shell" shells.should.attrs)))
    × (shown.name ≡ name shells)
create_after_lem_example = create_after_lem shells shell_change shown "shell" shells_stays shown_is

create_after-maybe_add_example : All (λ e. value_at shown e.0 ≡ e.1) shells.should.attrs
unfolding find
create_after-maybe_add_example =
    create_after-maybe_add shells true shell_change shown shells_stays (refl, (refl, tt))
      shells_added shown_is
