-- ===== src/Simple/Calls.antt =====
-- `simple_provider::set`, `get`, `find` and `instances`, with the callbacks that they hand over.
use libral.Base.{
  String, Bool, true, false, List, [], ◌∷◌, ◌++◌, ◌==◌, if◌then◌else◌, Result, ok, err, throws,
  undefined, Exec, ◌>>=◌, bind, is_empty,
}
use libral.Base.Text.{◌<>◌}
use libral.Base.Dict.{Dict}
use libral.Value.{Value, nothing, text, to_string}
use libral.Resource.{Resource, Update, name, new, assign, changed}
use libral.Context.{Changes, changes_for, record_changes, touch, maybe_add}
use libral.Provider.{Call}
use libral.Simple.Protocol.{Script, run_action}

-- The variables that the callback of `set` captures: `chgs` and `derive`.
pub record Report : Type 0 where
  pub chgs : Changes
  pub derive : Bool

-- `chgs.back().was = value`, undefined if there is no change yet
unfoldable pub set_was : Value → Changes → Result Changes
set_was v [] = throws undefined
set_was v (c ∷ []) = ok (record c { was = v } ∷ [])
set_was v (c ∷ d ∷ cs) = do rest ← set_was v (d ∷ cs); ok (c ∷ rest)

abbrev keep_changes : Report → Result Changes → Result (Unit {0}) × Report
keep_changes s (ok cs) = (ok tt, record s { chgs = cs })
keep_changes s (err e) = (err e, s)
keep_changes s (throws x) = (throws x, s)

unfoldable pub update_cb : String → String → String → Exec Report (Unit {0})
unfolding set_was
update_cb n key value s =
    if key == "ral_derive"
    then (ok tt, record s { derive = value == "true" })
    else if key == "name"
    then (if value == n
        then (ok tt, s)
        else (err ("wrong name changed by update: '" <> value <> "' instead of '" <> n <> "'"), s))
    else if key == "ral_was"
    then keep_changes s (set_was (text value) s.chgs)
    else (
      ok tt,
      record s { chgs = s.chgs ++ (record { attr = key; is = text value; was = nothing } ∷ []) },
    )

-- the loop over `upd.should.attrs()` that collects the arguments
unfoldable pub changed_args : Update → Dict Value → Result (List String)
changed_args u [] = ok []
changed_args u ((k, v) ∷ d) = do
  differs ← changed u k
  rest ← changed_args u d
  ok (if differs then (k <> "='" <> to_string v <> "'") ∷ rest else rest)

abbrev pub name_arg : String → String
name_arg n = "name='" <> n <> "'"

-- What follows a run of the script: an error is returned, and `derive` is heeded otherwise.
unfoldable pub after_update : Update → Report → Result (Unit {0}) → Result Changes
after_update u s (ok _) = if s.derive then (do (_, cs) ← maybe_add u s.chgs; ok cs) else ok s.chgs
after_update u s (err e) = err e
after_update u s (throws x) = throws x

abbrev keep_or {ℓ} : {A : Type ℓ} → Result A → A → A
keep_or (ok a) d = a
keep_or _ d = d

abbrev void {ℓ} : {A : Type ℓ} → Result A → Result (Unit {0})
void (ok _) = ok tt
void (err e) = err e
void (throws x) = throws x

module _ {W : Type 0} (script : Script W) where
  -- the run of the script for one update
  unfoldable pub run_update : Update → List String → Exec (Call W) (Unit {0})
  run_update u args c =
      let begin : Report = record { chgs = changes_for (name u) c.recorded; derive = false } in
      let (r, s, w') =
        run_action script "update" (update_cb (name u)) (name_arg (name u) ∷ args) begin c.world in
      let chgs = after_update u s r in
      (
        void chgs,
        record { recorded = record_changes (name u) (keep_or chgs s.chgs) c.recorded; world = w' },
      )

  -- the body of the loop of `set`: the script is run only if there is something to change
  unfoldable pub set_one : Update → Exec (Call W) (Unit {0})
  set_one u c =
      let touched : Call W = record c { recorded = touch (name u) c.recorded } in
      elim (changed_args u u.should.attrs) [
        | ok args ↦ if is_empty args then (ok tt, touched) else run_update u args touched
        | err e ↦ (err e, touched)
        | throws x ↦ (throws x, touched)
      ]

-- `res.back()[key] = value`, undefined if there is no resource yet
unfoldable pub assign_back : String → Value → List Resource → Result (List Resource)
assign_back key v [] = throws undefined
assign_back key v (r ∷ []) = do r' ← assign r key v; ok (r' ∷ [])
assign_back key v (r ∷ s ∷ rs) = do rest ← assign_back key v (s ∷ rs); ok (r ∷ rest)

abbrev keep_resources : List Resource → Result (List Resource) → Result (Unit {0}) × List Resource
keep_resources rs (ok rs') = (ok tt, rs')
keep_resources rs (err e) = (err e, rs)
keep_resources rs (throws x) = (throws x, rs)

-- the callback of `instances`
unfoldable pub list_cb : String → String → Exec (List Resource) (Unit {0})
unfolding assign_back
list_cb key value rs =
    if key == "name"
    then (ok tt, rs ++ (new value ∷ []))
    else if is_empty rs
    then (err "format error: attribute values must come after the name", rs)
    else keep_resources rs (assign_back key (text value) rs)

-- The variables that the callback of `find` captures: `res` and `unknown`.
pub record Found : Type 0 where
  pub res : List Resource
  pub unknown : Bool

-- the callback of `find`
unfoldable pub find_cb : String → String → Exec Found (Unit {0})
unfolding assign_back
find_cb key value s =
    if key == "name"
    then (ok tt, record s { res = s.res ++ (new value ∷ []) })
    else if key == "ral_unknown"
    then (ok tt, record s { unknown = true })
    else let (r, rs) = keep_resources s.res (assign_back key (text value) s.res) in
      (r, record s { res = rs })

abbrev pub returning {ℓ} : {A : Type ℓ} → A → Result (Unit {0}) → Result A
returning a (ok _) = ok a
returning a (err e) = err e
returning a (throws x) = throws x

module _ {W : Type 0} (script : Script W) where
  -- `set(ctx, upds)`
  unfoldable pub set : List Update → Exec (Call W) (Unit {0})
  set [] c = (ok tt, c)
  set (u ∷ us) c = bind (set_one script u) (λ _. set us) c

  -- `instances(ctx)`
  unfoldable pub instances : Exec (Call W) (List Resource)
  instances c =
      let (r, rs, w') = run_action script "list" list_cb [] [] c.world in
      (returning rs r, record c { world = w' })

  -- `find(ctx, name)`. The source does not initialise `unknown`: `garbage` is what it happens to be.
  unfoldable pub find : Bool → String → Exec (Call W) (List Resource)
  find garbage n c =
      let (r, s, w') =
        run_action script "find" find_cb (name_arg n ∷ []) (record { res = []; unknown = garbage })
          c.world in
      (returning (if s.unknown then [] else s.res) r, record c { world = w' })

  -- `get(ctx, names, config)`
  unfoldable pub get : Bool → List String → Dict Value → Exec (Call W) (List Resource)
  get garbage (n ∷ []) config c = find garbage n c
  get garbage [] config c = instances c
  get garbage (n ∷ m ∷ ns) config c = instances c
