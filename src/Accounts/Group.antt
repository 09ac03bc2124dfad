-- ===== src/Accounts/Group.antt =====
-- lib/src/group.cc
use libral.Base.{
  String, List, [], ◌∷◌, ◌++◌, ◌==◌, if◌then◌else◌, is_empty, Result, ok, Exec, bind, continue,
  ◌>>=◌,
}
use libral.Value.{text, array, to_string}
use libral.Resource.{Resource, Update, name, new, index, assign}
use libral.Context.{Changes, changes_for, add_attr, add_absent}
use libral.Provider.{Call}
use libral.Accounts.Tools.{Tools, state_of, ensure_of, ensure_change, run_tool, with_changes}

-- An entry of the group database; the number as `std::to_string` writes it.
pub record GroupEntry : Type 0 where
  pub name : String
  pub gid : String
  pub members : List String

-- the body of the loop of `get`
unfoldable pub group_resource : GroupEntry → Result Resource
group_resource g = do
  r ← assign (new g.name) "ensure" (text "present")
  r' ← assign r "gid" (text g.gid)
  if is_empty g.members then ok r' else assign r' "members" (array g.members)

unfoldable pub group_resources : List GroupEntry → Result (List Resource)
group_resources [] = ok []
group_resources (g ∷ gs) = do r ← group_resource g; rs ← group_resources gs; ok (r ∷ rs)

-- `get(ctx, names, config)` on the entries of the database
unfoldable pub get : List GroupEntry → List String → Result (List Resource)
get entries names = do rs ← group_resources entries; add_absent rs names

-- the loop over `props`, which holds "gid" only, with its option "-g"
unfoldable pub gid_args : Update → Changes → Result (Changes × List String)
gid_args u chgs = do
  added ← add_attr "gid" u chgs
  if added.0
      then (do s ← index u.should "gid"; ok (added.1, "-g" ∷ to_string s ∷ []))
      else ok (added.1, [])

unfoldable pub gather : Update → Changes → Result (Changes × List String)
gather u chgs = do p ← gid_args u chgs; ok (p.0, p.1 ++ (name u ∷ []))

module _ {W : Type 0} (tools : Tools W) where
  -- the run of `groupmod` or `groupadd`, if there are changes
  unfoldable pub apply : Update → Changes × List String → Exec (Call W) (Unit {0})
  apply u (chgs, args) c =
      let c' = with_changes u chgs c in
      if is_empty chgs
      then (ok tt, c')
      else if state_of u == "present"
      then run_tool tools.mod_account args c'
      else run_tool tools.add args c'

  unfoldable pub set_present : Update → Changes → Exec (Call W) (Unit {0})
  set_present u chgs c = continue (gather u chgs) (apply u) c

  unfoldable pub set_absent : Update → Exec (Call W) (Unit {0})
  set_absent u c = if state_of u == "absent" then (ok tt, c) else run_tool tools.del (name u ∷ []) c

  -- `set(ctx, upd)`
  unfoldable pub set_one : Update → Exec (Call W) (Unit {0})
  set_one u c =
      let chgs = ensure_change u (changes_for (name u) c.recorded) in
      let c' = with_changes u chgs c in
      if ensure_of u == "present"
      then set_present u chgs c'
      else if ensure_of u == "absent"
      then set_absent u c'
      else (ok tt, c')

  -- `set(ctx, upds)`
  unfoldable pub set : List Update → Exec (Call W) (Unit {0})
  set [] c = (ok tt, c)
  set (u ∷ us) c = bind (set_one u) (λ _. set us) c
