-- ===== src/Ral/Target.antt =====
-- The target of a `ral`: this system, or one that `ral::connect` has reached, and the methods of
-- `environment` and `ral` that go to it. lib/src/environment.cc, lib/src/target.cc.
use libral.Base.{
  String, Bool, true, false, Option, List, Result, ok, err, throws, Exec, ◌≡◌, refl, ap, sym, ◌∙◌,
}
use libral.Command.{Command}
use libral.Targets.Session.{Local, Remote, Session}
use libral.Targets.Local.{System}
use libral.Targets.Local as Here
use libral.Targets.Ssh as Ssh

-- What `_target` points to: a `local`, or an `ssh` with its temporary directory.
pub data Reached : Type 0 where
  here : Reached
  over : Remote → String → Reached

pub record Ral (W : Type 0) : Type 0 where
  pub data_dirs : List String
  pub reached : Reached
  pub local : Bool
  pub world : W

-- `make_ssh(target, sudo, keep)`, and `make_local()` in the constructor of `ral`
abbrev pub make_ssh : String → Bool → Bool → Remote
make_ssh target sudo keep = record { target = target; sudo = sudo; keep = keep }

unfoldable pub create : {W : Type 0} → List String → W → Ral W
create dirs w = record { data_dirs = dirs; reached = here; local = true; world = w }

module _ {W : Type 0} (sys : System W) (ssh : Local W) where
  abbrev session : String → W → Session W
  session dir w = record { tmpdir = dir; world = w }

  -- The target that is given up is destroyed.
  unfoldable pub give_up : Reached → W → W
  give_up here w = w
  give_up (over r dir) w = (Ssh.close ssh r (session dir w)).world

  abbrev connected : Ral W → Remote → Result (Unit {0}) → Session W → Result (Unit {0}) × Ral W
  connected ral r (ok _) s = (
    ok tt,
    record ral { reached = over r s.tmpdir; local = false; world = give_up ral.reached s.world },
  )
  connected ral r (err e) s = (err e, record ral { world = (Ssh.close ssh r s).world })
  connected ral r (throws x) s = (throws x, record ral { world = (Ssh.close ssh r s).world })

  -- `ral::connect(target, sudo, keep)`
  unfoldable pub connect : String → Bool → Bool → Exec (Ral W) (Unit {0})
  connect target sudo keep ral =
      let r = make_ssh target sudo keep in
      let (done, s) = Ssh.connect ssh r (session "" ral.world) in connected ral r done s

  -- A call on the target, whichever it is.
  abbrev pub by_target :
      {A : Type 0} → (W → A) → (Remote → Session W → A × Session W) → Reached → Ral W → A × Ral W
  by_target on_here on_ssh here ral = (on_here ral.world, ral)
  by_target on_here on_ssh (over r dir) ral =
      let (a, s) = on_ssh r (session dir ral.world) in
      (a, record ral { reached = over r s.tmpdir; world = s.world })

  -- `command(cmd)`, `script(cmd)` and `which(cmd)` of `environment`
  unfoldable pub command : String → Ral W → Option Command × Ral W
  command cmd ral = by_target (Here.command sys cmd) (λ r. Ssh.command ssh r cmd) ral.reached ral

  unfoldable pub script : String → Ral W → Option Command × Ral W
  script cmd ral =
      by_target (Here.script sys cmd) (λ r s. (Ssh.script ssh r cmd, s)) ral.reached ral

  unfoldable pub which : String → Ral W → String × Ral W
  which cmd ral = by_target (sys.which cmd) (λ r. Ssh.which ssh r cmd) ral.reached ral

  -- `is_local()`
  abbrev pub is_local : Ral W → Bool
  is_local ral = ral.local

  infix 4 ◌⟶*◌
  -- What can be done with a `ral` and its environment, in any order.
  pub data ◌⟶*◌ : Ral W → Ral W → Type 0 where
    done : {a : Ral W} → a ⟶* a
    connecting :
        {a b : Ral W} (target : String) (sudo keep : Bool)
        → a ⟶* b
        → a ⟶* (connect target sudo keep b).1
    commanding : {a b : Ral W} (cmd : String) → a ⟶* b → a ⟶* (command cmd b).1
    scripting : {a b : Ral W} (cmd : String) → a ⟶* b → a ⟶* (script cmd b).1
    looking : {a b : Ral W} (cmd : String) → a ⟶* b → a ⟶* (which cmd b).1

  abbrev pub is_here : Reached → Bool
  is_here here = true
  is_here (over r dir) = false

  -- The flag is set exactly where the target is this system.
  abbrev pub IsMarked : Ral W → Type 0
  IsMarked ral = ral.local ≡ is_here ral.reached

  connected-IsMarked :
      (ral : Ral W) (r : Remote) (done : Result (Unit {0})) (s : Session W)
      → IsMarked ral
      → IsMarked (connected ral r done s).1
  connected-IsMarked ral r (ok _) s h = refl
  connected-IsMarked ral r (err e) s h = h
  connected-IsMarked ral r (throws x) s h = h

  connect-IsMarked :
      (target : String) (sudo keep : Bool) (ral : Ral W)
      → IsMarked ral
      → IsMarked (connect target sudo keep ral).1
  unfolding connect
  connect-IsMarked target sudo keep ral h =
      let r = make_ssh target sudo keep in
      connected-IsMarked ral r (Ssh.connect ssh r (session "" ral.world)).0
        (Ssh.connect ssh r (session "" ral.world)).1 h

  -- A call on the target keeps which one it is.
  by_target-IsMarked :
      {A : Type 0} (on_here : W → A) (on_ssh : Remote → Session W → A × Session W)
      → (at : Reached) (ral : Ral W) → ral.local ≡ is_here at
      → ral.reached ≡ at
      → IsMarked (by_target on_here on_ssh at ral).1
  by_target-IsMarked on_here on_ssh here ral h e = h ∙ ap is_here (sym e)
  by_target-IsMarked on_here on_ssh (over r dir) ral h e = h

  reached-IsMarked : {a b : Ral W} → a ⟶* b → IsMarked a → IsMarked b
  unfolding command script which
  reached-IsMarked done h = h
  reached-IsMarked (connecting {b = b} target sudo keep steps) h =
      connect-IsMarked target sudo keep b (reached-IsMarked steps h)
  reached-IsMarked (commanding {b = b} cmd steps) h =
      by_target-IsMarked (Here.command sys cmd) (λ r. Ssh.command ssh r cmd) b.reached b
        (reached-IsMarked steps h) refl
  reached-IsMarked (scripting {b = b} cmd steps) h =
      by_target-IsMarked (Here.script sys cmd) (λ r s. (Ssh.script ssh r cmd, s)) b.reached b
        (reached-IsMarked steps h) refl
  reached-IsMarked (looking {b = b} cmd steps) h =
      by_target-IsMarked (sys.which cmd) (λ r. Ssh.which ssh r cmd) b.reached b
        (reached-IsMarked steps h) refl

  by_target-here :
      {A : Type 0} (on_here : W → A) (on_ssh : Remote → Session W → A × Session W)
      → (at : Reached) (ral : Ral W) → is_here at ≡ true
      → by_target on_here on_ssh at ral ≡ (on_here ral.world, ral)
  by_target-here on_here on_ssh here ral h = refl
  by_target-here on_here on_ssh (over r dir) ral h = cc

  -- Whatever has been connected to, successfully or not, and called since a `ral` was created: while
  -- it says that it is local, commands, scripts and paths are looked for on this system, and nothing
  -- is run over ssh for them.
  pub local-command :
      (dirs : List String) (w : W) (b : Ral W)
      → create dirs w ⟶* b
      → b.local ≡ true
      → (cmd : String)
      → (command cmd b ≡ (Here.command sys cmd b.world, b))
        × (script cmd b ≡ (Here.script sys cmd b.world, b))
        × (which cmd b ≡ (sys.which cmd b.world, b))
  unfolding create command script which
  local-command dirs w b steps flag cmd =
      let at_home = sym (reached-IsMarked steps refl) ∙ flag in
      (
        by_target-here (Here.command sys cmd) (λ r. Ssh.command ssh r cmd) b.reached b at_home,
        by_target-here (Here.script sys cmd) (λ r s. (Ssh.script ssh r cmd, s)) b.reached b at_home,
        by_target-here (sys.which cmd) (λ r. Ssh.which ssh r cmd) b.reached b at_home,
      )
