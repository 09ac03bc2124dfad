-- ===== src/Simple/Updates.antt =====
-- When and how `set` runs the script.
use libral.Base.{String, false, List, [], ◌∷◌, ok, ◌≡◌, refl, ◌∙◌, All}
use libral.Base.Dict.{Dict}
use libral.Value.{Value}
use libral.Resource.{Update, name, changed}
use libral.Context.{changes_for, touch}
use libral.Context.Laws.{changes_for-touch}
use libral.Provider.{Call}
use libral.Simple.Protocol.{Script}
use libral.Simple.Calls.{changed_args, set_one, set}

-- The update asks for nothing that is not so already.
abbrev pub IsSettled : Update → Type 0
IsSettled u = All (λ e. changed u e.0 ≡ ok false) u.should.attrs

changed_args_none :
    (u : Update) (d : Dict Value) → All (λ e. changed u e.0 ≡ ok false) d → changed_args u d ≡ ok []
unfolding changed_args
changed_args_none u [] h = refl
changed_args_none u (e ∷ d) h = rw (h.0, changed_args_none u d h.1) refl

module _ {W : Type 0} (script : Script W) where
  set_one_settled :
      (u : Update) (c : Call W)
      → IsSettled u
      → set_one script u c ≡ (ok tt, record c { recorded = touch (name u) c.recorded })
  unfolding set_one
  set_one_settled u c h = rw (changed_args_none u u.should.attrs h, set_one) refl

  -- Where no update asks for a change, `set` succeeds, runs no script and records no change; the
  -- system stays as it is, whatever the script would do.
  pub set_without_changes :
      (us : List Update) (c : Call W)
      → All IsSettled us
      → ((set script us c).0 ≡ ok tt)
        × ((set script us c).1.world ≡ c.world)
        × ((k : String) → changes_for k (set script us c).1.recorded ≡ changes_for k c.recorded)
  unfolding set
  set_without_changes [] c h = (refl, refl, λ k. refl)
  set_without_changes (u ∷ us) c h =
      let c' : Call W = record c { recorded = touch (name u) c.recorded } in
      let (done, same, quiet) = set_without_changes us c' h.1 in
      rw (set_one_settled u c h.0)
        (done, same, λ k. quiet k ∙ changes_for-touch (name u) k c.recorded)
