-- ===== src/Accounts/UserLaws.antt =====
-- The user provider: it leaves alone what is as it should be, and runs the command that a change
-- asks for.
use libral.Base.{
  String, true, false, List, [], ◌∷◌, ◌++◌, ◌==◌, ok, ◌≡◌, refl, sym, ◌∙◌, All, eq_refl, Bool-cases,
  inl, inr,
}
use libral.Resource.{Update, name, changed, lookup_array_or}
use libral.Context.{Changes, changes_for}
use libral.Context.Laws.{changes_for-record}
use libral.Provider.{Call}
use libral.Accounts.Tools.{Tools, state_of, ensure_of, ensure_change, with_changes}
use libral.Accounts.User.{
  props, prop_args, props_args, same_set, groups_args, home_args, gather, apply, set_present,
  set_one, set,
}

-- The user is there, is to be there, and has the properties and groups that it should have.
pub record IsSettled (u : Update) : Type 0 where
  pub is_there : state_of u ≡ "present"
  pub to_be_there : ensure_of u ≡ "present"
  pub same_props : All (λ p. changed u p.0 ≡ ok false) props
  pub same_groups :
      same_set
        (lookup_array_or u.is "groups" [])
        (lookup_array_or u.should "groups" (lookup_array_or u.is "groups" []))
      ≡ true

props_args_none :
    (u : Update) (ps : List (String × String)) (chgs : Changes)
    → All (λ p. changed u p.0 ≡ ok false) ps
    → props_args u ps chgs ≡ ok (chgs, [])
unfolding props_args prop_args
props_args_none u [] chgs h = refl
props_args_none u (p ∷ ps) chgs h = rw (h.0, props_args_none u ps chgs h.1) refl

gather_none :
    (u : Update) (chgs : Changes)
    → IsSettled u
    → gather u chgs ≡ ok (chgs, home_args u ++ (name u ∷ []))
unfolding gather groups_args
gather_none u chgs h = rw (props_args_none u props chgs h.same_props, h.same_groups) refl

ensure_change_none :
    (u : Update) (chgs : Changes) → ensure_of u ≡ state_of u → ensure_change u chgs ≡ chgs
unfolding ensure_change
ensure_change_none u chgs h = rw (h, eq_refl (state_of u)) refl

set_present_none :
    {W : Type 0} (tools : Tools W) (u : Update) (c : Call W)
    → IsSettled u
    → set_present tools u [] c ≡ (ok tt, with_changes u [] c)
unfolding set_present apply
set_present_none tools u c h = rw (gather_none u [] h) refl

set_one_settled :
    {W : Type 0} (tools : Tools W) (u : Update) (c : Call W)
    → IsSettled u
    → changes_for (name u) c.recorded ≡ []
    → set_one tools u c ≡ (ok tt, with_changes u [] (with_changes u [] c))
unfolding set_one
set_one_settled tools u c h quiet =
    rw
      (
        quiet,
        ensure_change_none u [] (h.to_be_there ∙ sym h.is_there),
        h.to_be_there,
        set_present_none tools u (with_changes u [] c) h,
      )
      refl

record_none :
    {W : Type 0} (u : Update) (k : String) (c : Call W)
    → changes_for k c.recorded ≡ []
    → changes_for k (with_changes u [] c).recorded ≡ []
record_none u k c h = elim (Bool-cases (name u == k)) [
  | inl same ↦ changes_for-record (name u) k [] c.recorded ∙ rw same refl
  | inr other ↦ changes_for-record (name u) k [] c.recorded ∙ rw (other, h) refl
]

-- Where every user is there, is to be there and differs in nothing, and no change is recorded yet,
-- `set` succeeds, runs none of the commands and records no change.
pub users_settled :
    {W : Type 0} (tools : Tools W) (us : List Update) (c : Call W)
    → All IsSettled us
    → ((k : String) → changes_for k c.recorded ≡ [])
    → ((set tools us c).0 ≡ ok tt)
      × ((set tools us c).1.world ≡ c.world)
      × ((k : String) → changes_for k (set tools us c).1.recorded ≡ [])
unfolding set
users_settled tools [] c h quiet = (refl, refl, quiet)
users_settled tools (u ∷ us) c h quiet =
    let c' : Call _ = with_changes u [] (with_changes u [] c) in
    let still : (k : String) → changes_for k c'.recorded ≡ [] =
      λ k. record_none u k (with_changes u [] c) (record_none u k c (quiet k)) in
    rw (set_one_settled tools u c h.0 (quiet (name u))) (users_settled tools us c' h.1 still)
