-- ===== src/Accounts/Describe.antt =====
-- `describe` of the user and group providers. They look for their commands on a local system only,
-- so that the target is this system where they do.
use libral.Base.{
  String, Bool, true, false, ◌&&◌, Option, none, some, Result, ok, ◌≡◌, refl, arith, if◌then◌else◌,
}
use libral.Command.{Command}
use libral.Provider.{ProvSpec}
use libral.Targets.Local.{System, command}
use libral.Metadata.Suitable.{Yaml}
use libral.Metadata.Environment.{parse_spec, parse_spec-flag, IsFound}

-- The commands that an account provider holds; `describe` fills them in.
pub record Commands : Type 0 where
  pub add : Option Command
  pub mod_account : Option Command
  pub del : Option Command

abbrev pub no_commands : Commands
no_commands = record { add = none; mod_account = none; del = none }

abbrev pub holds : Option Command → Bool
holds none = false
holds (some c) = true

module _ {W : Type 0} (sys : System W) where
  -- The commands are looked for on a local system only.
  unfoldable pub find_commands : String → String → String → Bool → W → Commands
  find_commands add mod_account del is_local w =
      if is_local
      then record {
        add = command sys add w;
        mod_account = command sys mod_account w;
        del = command sys del w;
      }
      else no_commands

  unfoldable pub all_held : Commands → Bool
  all_held cs = holds cs.add && holds cs.mod_account && holds cs.del

  -- `user_provider::describe(env)` and `group_provider::describe(env)`
  unfoldable pub describe_user : Result Yaml → Bool → W → Result ProvSpec × Commands
  describe_user loaded is_local w =
      let cs = find_commands "useradd" "usermod" "userdel" is_local w in
      (parse_spec sys "user" loaded (is_local && all_held cs) w, cs)

  unfoldable pub describe_group : Result Yaml → Bool → W → Result ProvSpec × Commands
  describe_group loaded is_local w =
      let cs = find_commands "groupadd" "groupmod" "groupdel" is_local w in
      (parse_spec sys "group" loaded (is_local && all_held cs) w, cs)

both : (a b : Bool) → a && b ≡ true → (a ≡ true) × (b ≡ true)
both true b h = (refl, h)
both false b h = cc

module _ {W : Type 0} (sys : System W) (w : W) where
  holds-IsFound :
      (cmd : String) → holds (command sys cmd w) ≡ true → IsFound sys w cmd (command sys cmd w)
  unfolding command
  holds-IsFound cmd h = ground arith

  all_held-IsFound :
      (add mod_account del : String) (is_local : Bool)
      → let cs = find_commands sys add mod_account del is_local w in
        is_local && all_held sys cs ≡ true
        → (is_local ≡ true)
          × IsFound sys w add cs.add
          × IsFound sys w mod_account cs.mod_account
          × IsFound sys w del cs.del
  unfolding find_commands all_held
  all_held-IsFound add mod_account del false h = cc
  all_held-IsFound add mod_account del true h =
      let (two, third) =
        both (holds (command sys add w) && holds (command sys mod_account w)) _ h in
      let (first, second) = both (holds (command sys add w)) _ two in
      (refl, holds-IsFound add first, holds-IsFound mod_account second, holds-IsFound del third)

  -- Whatever the metadata is: a user provider that is suitable is on a local system, and holds all
  -- three commands that `set` runs, each of them by the path at which it is found.
  pub describe_user-IsFound :
      (loaded : Result Yaml) (is_local : Bool) (spec : ProvSpec)
      → (describe_user sys loaded is_local w).0 ≡ ok spec
      → spec.suitable ≡ true
      → let cs = (describe_user sys loaded is_local w).1 in
        (is_local ≡ true)
        × IsFound sys w "useradd" cs.add
        × IsFound sys w "usermod" cs.mod_account
        × IsFound sys w "userdel" cs.del
  unfolding describe_user
  describe_user-IsFound loaded is_local spec made fine =
      all_held-IsFound "useradd" "usermod" "userdel" is_local
        (parse_spec-flag sys w "user" loaded _ spec made fine)

  -- The same for a group provider.
  pub describe_group-IsFound :
      (loaded : Result Yaml) (is_local : Bool) (spec : ProvSpec)
      → (describe_group sys loaded is_local w).0 ≡ ok spec
      → spec.suitable ≡ true
      → let cs = (describe_group sys loaded is_local w).1 in
        (is_local ≡ true)
        × IsFound sys w "groupadd" cs.add
        × IsFound sys w "groupmod" cs.mod_account
        × IsFound sys w "groupdel" cs.del
  unfolding describe_group
  describe_group-IsFound loaded is_local spec made fine =
      all_held-IsFound "groupadd" "groupmod" "groupdel" is_local
        (parse_spec-flag sys w "group" loaded _ spec made fine)
