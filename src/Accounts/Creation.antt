-- ===== src/Accounts/Creation.antt =====
-- The user provider adds a user that is missing.
use mathlib.Core.Path.{subst}
use libral.Base.{
  String, false, Option, none, some, List, [], ◌∷◌, ◌++◌, is_empty, ok, >>=-elim, ◌≡◌, refl, arith,
}
use libral.Value.{text, to_string}
use libral.Resource.{Update, name, changed, index, lookup_text}
use libral.Context.{Change, Changes, changes_for, add}
use libral.Provider.{Call}
use libral.Accounts.Tools.{Tools, state_of, ensure_of, ensure_change, run_tool, with_changes}
use libral.Accounts.User.{
  props, prop_change, prop_args, props_args, groups_args, gather, apply, set_present, set_one,
}

-- There are changes.
abbrev AnyChange : Changes → Type 0
AnyChange cs = is_empty cs ≡ false

AnyChange-append : (xs ys : Changes) → AnyChange xs → AnyChange (xs ++ ys)
AnyChange-append [] ys h = cc
AnyChange-append (x ∷ xs) ys h = refl

module _ (u : Update) where
  prop_change-AnyChange :
      (prop opt : String) (chgs : Changes) (p : Option String)
      → AnyChange chgs
      → (found : Changes × List String) → prop_change u prop opt chgs p ≡ ok found
      → AnyChange found.0
  unfolding prop_change add
  prop_change-AnyChange prop opt chgs none h = λ found e. cc
  prop_change-AnyChange prop opt chgs (some p) h =
      >>=-elim (λ f. AnyChange f.0) (index u.is prop) _
        (λ was _.
          >>=-elim (λ f. AnyChange f.0) (index u.should prop) _
            (λ s _ found last.
              subst (λ (f : Changes × List String). AnyChange f.0)
                {x = (add prop (text p) was chgs, opt ∷ to_string s ∷ [])} {y = found}
                (ground arith) (AnyChange-append chgs _ h)))

  prop_args-AnyChange :
      (prop opt : String) (chgs : Changes)
      → AnyChange chgs
      → (found : Changes × List String) → prop_args u prop opt chgs ≡ ok found
      → AnyChange found.0
  unfolding prop_args
  prop_args-AnyChange prop opt chgs h =
      >>=-elim (λ f. AnyChange f.0) (changed u prop) _
        (λ differs _ found e.
          ground (arith, prop_change-AnyChange prop opt chgs (lookup_text u.should prop) h found))

  props_args-AnyChange :
      (ps : List (String × String)) (chgs : Changes)
      → AnyChange chgs
      → (found : Changes × List String) → props_args u ps chgs ≡ ok found
      → AnyChange found.0
  unfolding props_args
  props_args-AnyChange [] chgs h = λ found e. ground arith
  props_args-AnyChange (p ∷ ps) chgs h =
      >>=-elim (λ f. AnyChange f.0) (prop_args u p.0 p.1 chgs) _
        (λ first e₁.
          >>=-elim (λ f. AnyChange f.0) (props_args u ps first.0) _
            (λ rest e₂ found last.
              subst (λ (f : Changes × List String). AnyChange f.0) {x = (rest.0, first.1 ++ rest.1)}
                {y = found} (ground arith)
                (props_args-AnyChange ps first.0 (prop_args-AnyChange p.0 p.1 chgs h first e₁) rest
                  e₂)))

  groups_args-AnyChange : (chgs : Changes) → AnyChange chgs → AnyChange (groups_args u chgs).0
  unfolding groups_args add
  groups_args-AnyChange chgs h = ground (arith, AnyChange-append chgs)

  gather-AnyChange :
      (chgs : Changes)
      → AnyChange chgs
      → (found : Changes × List String) → gather u chgs ≡ ok found
      → AnyChange found.0
  unfolding gather
  gather-AnyChange chgs h =
      >>=-elim (λ f. AnyChange f.0) (props_args u props chgs) _
        (λ p e found last.
          ground (arith, groups_args-AnyChange p.0 (props_args-AnyChange props chgs h p e)))

AnyChange-last : (xs : Changes) (y : Change) → AnyChange (xs ++ (y ∷ []))
AnyChange-last [] y = refl
AnyChange-last (x ∷ xs) y = refl

ensure_change-AnyChange :
    (u : Update) (chgs : Changes)
    → state_of u ≡ "absent"
    → ensure_of u ≡ "present"
    → AnyChange (ensure_change u chgs)
unfolding ensure_change
ensure_change-AnyChange u chgs gone wanted = rw (gone, wanted) (AnyChange-last chgs _)

-- The changes that a call begins with, for a user whose `ensure` is to change.
abbrev pub begun : {W : Type 0} → Update → Call W → Changes
begun u c = ensure_change u (changes_for (name u) c.recorded)

module _ {W : Type 0} (tools : Tools W) where
  apply_adds :
      (u : Update) (cs : Changes) (args : List String) (c : Call W)
      → AnyChange cs
      → state_of u ≡ "absent"
      → apply tools u (cs, args) c ≡ run_tool tools.add args (with_changes u cs c)
  unfolding apply
  apply_adds u cs args c some_ gone = rw (some_, gone) refl

  -- Where a user is missing and is to be present, and the arguments can be gathered, `set` runs the
  -- command that adds a user, and no other, with these arguments, whether or not a property is asked
  -- for; and the result is that of the command.
  pub set_one_creates :
      (u : Update) (c : Call W) (cs : Changes) (args : List String)
      → state_of u ≡ "absent"
      → ensure_of u ≡ "present"
      → gather u (begun u c) ≡ ok (cs, args)
      → set_one tools u c
        ≡ run_tool tools.add args (with_changes u cs (with_changes u (begun u c) c))
  unfolding set_one set_present
  set_one_creates u c cs args gone wanted gathered =
      rw (wanted, set_present, gathered)
        (apply_adds u cs args _
          (gather-AnyChange u (begun u c) (ensure_change-AnyChange u _ gone wanted) (cs, args)
            gathered)
          gone)
