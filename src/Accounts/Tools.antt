-- ===== src/Accounts/Tools.antt =====
-- What the two providers share: the commands that they run, and the changes of a call.
use libral.Base.{String, List, [], ◌∷◌, ◌++◌, Exec, if◌then◌else◌, ◌==◌}
use libral.Value.{text}
use libral.Resource.{Update, name, lookup_text_or}
use libral.Context.{Changes, record_changes}
use libral.Provider.{Call}

-- `command::run(args)` of a command, which acts on the system
abbrev pub Tool : Type 0 → Type 0
Tool W = List String → Exec W (Unit {0})

-- The commands that add, modify and delete an account.
pub record Tools (W : Type 0) : Type 0 where
  pub add : Tool W
  pub mod_account : Tool W
  pub del : Tool W

-- `is.lookup("ensure", "absent")` and `should.lookup("ensure", state)`
unfoldable pub state_of : Update → String
state_of u = lookup_text_or u.is "ensure" "absent"

unfoldable pub ensure_of : Update → String
ensure_of u = lookup_text_or u.should "ensure" (state_of u)

-- the change of `ensure`, if there is one
unfoldable pub ensure_change : Update → Changes → Changes
ensure_change u chgs =
    if ensure_of u == state_of u
    then chgs
    else chgs ++ (record { attr = "ensure"; is = text (ensure_of u); was = text (state_of u) } ∷ [])

-- A run of a tool within a call.
abbrev pub run_tool : {W : Type 0} → Tool W → List String → Exec (Call W) (Unit {0})
run_tool tool args c = let (r, w) = tool args c.world in (r, record c { world = w })

-- The changes of the update's resource are those given.
abbrev pub with_changes : {W : Type 0} → Update → Changes → Call W → Call W
with_changes u chgs c = record c { recorded = record_changes (name u) chgs c.recorded }
