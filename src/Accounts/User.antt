-- ===== src/Accounts/User.antt =====
-- lib/src/user.cc
use libral.Base.{
  Option, String, Bool, true, false, ◌&&◌, none, some, List, [], ◌∷◌, ◌++◌, ◌==◌, if◌then◌else◌,
  contains, is_empty, Result, ok, err, throws, undefined, Exec, bind, continue, ◌>>=◌,
}
use libral.Base.Text.{join}
use libral.Value.{text, array, to_string}
use libral.Resource.{
  Resource, Update, name, new, index, assign, changed, lookup_text, lookup_array_or, lookup_bool_or,
}
use libral.Context.{Changes, changes_for, add, add_absent}
use libral.Provider.{Call}
use libral.Accounts.Tools.{Tools, state_of, ensure_of, ensure_change, run_tool, with_changes}

-- An entry of the password database; numbers as `std::to_string` writes them.
pub record Passwd : Type 0 where
  pub name : String
  pub gecos : String
  pub gid : String
  pub dir : String
  pub shell : String
  pub uid : String

-- The database of groups: `getgrouplist(user, group)`, all of the list, and the name that `getgrgid`
-- finds for a number.
pub record GroupLists : Type 0 where
  pub getgrouplist : String → String → List String
  pub getgrgid : String → Option String

abbrev named : Option String → List String → List String
named none names = names
named (some n) names = n ∷ names

-- the names of the groups that have one
unfoldable pub group_names : GroupLists → List String → List String
group_names g [] = []
group_names g (gid ∷ gids) = named (g.getgrgid gid) (group_names g gids)

-- `add_group_list(rsrc, user, group)`
unfoldable pub add_group_list : GroupLists → Resource → String → String → Result Resource
add_group_list g r user group =
    assign r "groups" (array (group_names g (g.getgrouplist user group)))

-- the body of the loop of `get`
unfoldable pub user_resource : GroupLists → Passwd → Result Resource
user_resource g p = assign (new p.name) "ensure" (text "present") >>= λ r.
    assign r "comment" (text p.gecos) >>= λ r. assign r "gid" (text p.gid) >>= λ r.
    assign r "home" (text p.dir) >>= λ r. assign r "shell" (text p.shell) >>= λ r.
    assign r "uid" (text p.uid) >>= λ r. add_group_list g r p.name p.gid

unfoldable pub user_resources : GroupLists → List Passwd → Result (List Resource)
user_resources g [] = ok []
user_resources g (p ∷ ps) = do r ← user_resource g p; rs ← user_resources g ps; ok (r ∷ rs)

-- `get(ctx, names, config)` on the entries of the databases
unfoldable pub get : GroupLists → List Passwd → List String → Result (List Resource)
get g entries names = do rs ← user_resources g entries; add_absent rs names

-- `props` with the options of `opts`
abbrev pub props : List (String × String)
props = ("comment", "-c") ∷ ("gid", "-g") ∷ ("home", "-d") ∷ ("shell", "-s") ∷ ("uid", "-u") ∷ []

-- the change and the arguments for a property that differs; `*p` is undefined if the desired value
-- is no text
unfoldable pub prop_change :
    Update → String → String → Changes → Option String → Result (Changes × List String)
prop_change u prop opt chgs none = throws undefined
prop_change u prop opt chgs (some p) = do
  was ← index u.is prop
  s ← index u.should prop
  ok (add prop (text p) was chgs, opt ∷ to_string s ∷ [])

-- one round of the loop over `props`
unfoldable pub prop_args : Update → String → String → Changes → Result (Changes × List String)
prop_args u prop opt chgs = do
  differs ← changed u prop
  if differs then prop_change u prop opt chgs (lookup_text u.should prop) else ok (chgs, [])

unfoldable pub props_args :
    Update → List (String × String) → Changes → Result (Changes × List String)
props_args u [] chgs = ok (chgs, [])
props_args u ((prop, opt) ∷ ps) chgs = do
  first ← prop_args u prop opt chgs
  rest ← props_args u ps first.0
  ok (rest.0, first.1 ++ rest.1)

unfoldable pub subset : List String → List String → Bool
subset [] ys = true
subset (x ∷ xs) ys = contains ys x && subset xs ys

-- `==` of the two sets of groups
unfoldable pub same_set : List String → List String → Bool
same_set xs ys = subset xs ys && subset ys xs

-- the part of `set` for supplementary groups
unfoldable pub groups_args : Update → Changes → Changes × List String
groups_args u chgs =
    let is_groups = lookup_array_or u.is "groups" [] in
    let groups = lookup_array_or u.should "groups" is_groups in
    if same_set is_groups groups
    then (chgs, [])
    else (add "groups" (array groups) (array is_groups) chgs, "-G" ∷ join "," groups ∷ [])

-- `-m`, or `-M` for a user that is to be created without a home directory
unfoldable pub home_args : Update → List String
home_args u =
    if lookup_bool_or u.should "managehome" false
    then "-m" ∷ []
    else if state_of u == "absent"
    then "-M" ∷ []
    else []

-- the changes and the arguments that are gathered before a command is run
unfoldable pub gather : Update → Changes → Result (Changes × List String)
gather u chgs = do
  p ← props_args u props chgs
  let g = groups_args u p.0
  ok (g.0, p.1 ++ (g.1 ++ (home_args u ++ (name u ∷ []))))

module _ {W : Type 0} (tools : Tools W) where
  -- the run of `usermod` or `useradd`, if there are changes
  unfoldable pub apply : Update → Changes × List String → Exec (Call W) (Unit {0})
  apply u (chgs, args) c =
      let c' = with_changes u chgs c in
      if is_empty chgs
      then (ok tt, c')
      else if state_of u == "present"
      then run_tool tools.mod_account args c'
      else run_tool tools.add args c'

  unfoldable pub set_present : Update → Changes → Exec (Call W) (Unit {0})
  set_present u chgs c = continue (gather u chgs) (apply u) c

  unfoldable pub set_absent : Update → Exec (Call W) (Unit {0})
  set_absent u c =
      if state_of u == "absent" then (ok tt, c) else run_tool tools.del ("-r" ∷ name u ∷ []) c

  -- `set(ctx, upd)`
  unfoldable pub set_one : Update → Exec (Call W) (Unit {0})
  set_one u c =
      let chgs = ensure_change u (changes_for (name u) c.recorded) in
      let c' = with_changes u chgs c in
      if ensure_of u == "present"
      then set_present u chgs c'
      else if ensure_of u == "absent"
      then set_absent u c'
      else if ensure_of u == "role"
      then (err "can not ensure=role with this provider", c')
      else (ok tt, c')

  -- `set(ctx, upds)`
  unfoldable pub set : List Update → Exec (Call W) (Unit {0})
  set [] c = (ok tt, c)
  set (u ∷ us) c = bind (set_one u) (λ _. set us) c
