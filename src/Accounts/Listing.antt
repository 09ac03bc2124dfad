-- ===== src/Accounts/Listing.antt =====
-- What the account providers report.
use libral.Base.{
  String, Bool, true, false, List, [], ◌∷◌, ◌++◌, map, is_empty, if◌then◌else◌, Result, ok, ◌≡◌,
  refl, Bool-cases, inl, inr,
}
use libral.Value.{text, array}
use libral.Resource.{Resource}
use libral.Context.Absent.{missing, add_absent_lem}
use libral.Accounts.User as User
use libral.Accounts.User.{Passwd, GroupLists, group_names, user_resource, user_resources}
use libral.Accounts.Group as Group
use libral.Accounts.Group.{GroupEntry, group_resource, group_resources}

-- The user of an entry, with the attributes in the order of a map.
abbrev pub user_of : GroupLists → Passwd → Resource
user_of g p = record {
  name = p.name;
  attrs =
      ("comment", text p.gecos)
      ∷ ("ensure", text "present")
      ∷ ("gid", text p.gid)
      ∷ ("groups", array (group_names g (g.getgrouplist p.name p.gid)))
      ∷ ("home", text p.dir)
      ∷ ("shell", text p.shell)
      ∷ ("uid", text p.uid)
      ∷ [];
}

abbrev pub group_of : GroupEntry → Resource
group_of g = record {
  name = g.name;
  attrs =
      ("ensure", text "present")
      ∷ ("gid", text g.gid)
      ∷ (if is_empty g.members then [] else ("members", array g.members) ∷ []);
}

user_resource-user_of : (g : GroupLists) (p : Passwd) → user_resource g p ≡ ok (user_of g p)
unfolding user_resource libral.Resource.assign User.add_group_list libral.Base.Dict.put
user_resource-user_of g p = refl

user_resources-map :
    (g : GroupLists) (ps : List Passwd) → user_resources g ps ≡ ok (map (user_of g) ps)
unfolding user_resources
user_resources-map g [] = refl
user_resources-map g (p ∷ ps) = rw (user_resource-user_of g p, user_resources-map g ps) refl

group_resource-group_of : (g : GroupEntry) → group_resource g ≡ ok (group_of g)
unfolding group_resource libral.Resource.assign libral.Base.Dict.put
group_resource-group_of g = elim (Bool-cases (is_empty g.members)) [
  | inl e ↦ rw e refl
  | inr e ↦ rw e refl
]

group_resources-map : (gs : List GroupEntry) → group_resources gs ≡ ok (map group_of gs)
unfolding group_resources
group_resources-map [] = refl
group_resources-map (g ∷ gs) = rw (group_resource-group_of g, group_resources-map gs) refl

-- Whatever the databases hold, reading users succeeds: there is one for each entry, in order and with
-- all seven attributes, and behind them an absent one for each further name that was asked for.
pub user_get-map :
    (g : GroupLists) (ps : List Passwd) (names : List String)
    → User.get g ps names ≡ ok (map (user_of g) ps ++ missing (map (user_of g) ps) names)
unfolding User.get
user_get-map g ps names = rw (user_resources-map g ps) (add_absent_lem names (map (user_of g) ps))

-- The same for groups, which have the attribute 'members' only if they have any.
pub group_get-map :
    (gs : List GroupEntry) (names : List String)
    → Group.get gs names ≡ ok (map group_of gs ++ missing (map group_of gs) names)
unfolding Group.get
group_get-map gs names = rw (group_resources-map gs) (add_absent_lem names (map group_of gs))
