-- ===== src/Targets/Session.antt =====
-- The state of an ssh target and the runs of programs on this system that it is made of.
use libral.Base.{String, Bool, Option, List, ◌∷◌, [], ◌++◌, if◌then◌else◌}
use libral.Command.{Status}
use libral.Simple.Protocol.{Reply}

-- What is called: `exe::execute` and `exe::each_line` of leatherman, which run a program of this
-- system, and `filename` and `operator/` of `boost::filesystem::path`.
pub record Local (W : Type 0) : Type 0 where
  pub execute : String → List String → Option String → W → Status × W
  pub each_line : String → List String → W → Reply × W
  pub filename : String → String
  pub slash : String → String → String

-- The members of `ssh` that are set once: `_target`, `_sudo` and `_keep`.
pub record Remote : Type 0 where
  pub target : String
  pub sudo : Bool
  pub keep : Bool

-- The one that changes, `_tmpdir`, with the system.
pub record Session (W : Type 0) : Type 0 where
  pub tmpdir : String
  pub world : W

abbrev pub ssh_opts : List String
ssh_opts =
    "-o" ∷ "ControlMaster=auto" ∷ "-o" ∷ "ControlPersist=60s" ∷ "-o"
    ∷ "ControlPath=~/.ssh/cm-%r@%h:%p" ∷ []

-- the part of a command line behind the options: the target, 'sudo' if wanted, and the command
unfoldable pub on_target : Remote → List String → List String
on_target r args = r.target ∷ (if r.sudo then "sudo" ∷ args else args)

module _ {W : Type 0} (sys : Local W) (r : Remote) where
  -- `run(file, args, stdin)`
  unfoldable pub run : String → List String → Option String → Session W → Status × Session W
  run file args stdin s =
      let (status, w) = sys.execute file (ssh_opts ++ args) stdin s.world in
      (status, record s { world = w })

  -- `run_ssh(args, stdin)`
  unfoldable pub run_ssh : List String → Option String → Session W → Status × Session W
  run_ssh args stdin = run "ssh" (on_target r args) stdin
