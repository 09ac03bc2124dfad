-- ===== src/Command.antt =====
-- lib/inc/libral/command.hpp and lib/src/command.cc: commands on a target, which may have to be
-- uploaded before they can be run.
pub mod Laws
use libral.Base.{
  String, Bool, true, false, Option, none, some, List, [], ◌∷◌, if◌then◌else◌, Result, ok, err,
  throws, Exec, bind,
}
use libral.Base.Text.{◌<>◌, empty}

-- `command::result`; the exit code as messages print it
pub record Status : Type 0 where
  pub success : Bool
  pub output : String
  pub error : String
  pub exit_code : String

-- What is used of a target: each method acts on the system.
pub record Target (W : Type 0) : Type 0 where
  pub upload : String → Exec W String
  pub execute : String → List String → Option String → W → Status × W
  pub executable : String → W → Bool

pub record Command : Type 0 where
  pub path : String
  pub needs_upload : Bool

-- The state of a method: the command and the system.
pub record Shell (W : Type 0) : Type 0 where
  pub cmd : Command
  pub world : W

-- the message of `run` for a command that failed
unfoldable pub failure : String → Status → String
failure path s =
    let head = "Command " <> path <> " failed with status code " <> s.exit_code <> "." in
    if empty s.output
    then (if empty s.error then head else head <> " It printed on stderr '" <> s.error <> "'")
    else if empty s.error
    then head <> " It printed on stdout '" <> s.output <> "'"
    else head <> " It printed on stdout '" <> s.output <> "' and on stderr '" <> s.error <> "'"

abbrev pub keep_path : {W : Type 0} → Shell W → Result String × W → Result (Unit {0}) × Shell W
keep_path s (ok p, w) =
    (ok tt, record { cmd = record { path = p; needs_upload = false }; world = w })
keep_path s (err e, w) = (err e, record s { world = w })
keep_path s (throws x, w) = (throws x, record s { world = w })

module _ {W : Type 0} (tgt : Target W) where
  -- `upload()`
  unfoldable pub upload : Exec (Shell W) (Unit {0})
  upload s = if s.cmd.needs_upload then keep_path s (tgt.upload s.cmd.path s.world) else (ok tt, s)

  -- the body of `run(args)` behind the upload
  unfoldable pub run_uploaded : List String → Exec (Shell W) (Unit {0})
  unfolding failure
  run_uploaded args s =
      let (status, w) = tgt.execute s.cmd.path args none s.world in
      ((if status.success then ok tt else err (failure s.cmd.path status)), record s { world = w })

  -- `run(args)`
  unfoldable pub run : List String → Exec (Shell W) (Unit {0})
  run args = bind upload (λ _. run_uploaded args)

  abbrev upload_failed : String → Status
  upload_failed detail = record {
    success = false;
    output = "Upload failed";
    error = detail;
    exit_code = "1";
  }

  abbrev execute_uploaded : List String → Option String → Shell W → Status × Shell W
  execute_uploaded args stdin s =
      let (status, w) = tgt.execute s.cmd.path args stdin s.world in
      (status, record s { world = w })

  -- what `execute` does after the upload
  unfoldable pub execute_after :
      List String → Option String → Result (Unit {0}) × Shell W → Result Status × Shell W
  execute_after args stdin (ok _, s) =
      let (status, s') = execute_uploaded args stdin s in (ok status, s')
  execute_after args stdin (err e, s) = (ok (upload_failed e), s)
  execute_after args stdin (throws x, s) = (throws x, s)

  -- `execute(args)` and `execute(args, stdin)`
  unfoldable pub execute : List String → Option String → Exec (Shell W) Status
  execute args stdin s = execute_after args stdin (upload s)

  abbrev executable_after : Result (Unit {0}) × Shell W → Result Bool × Shell W
  executable_after (ok _, s) = (ok (tgt.executable s.cmd.path s.world), s)
  executable_after (err e, s) = (ok false, s)
  executable_after (throws x, s) = (throws x, s)

  -- `executable()`
  unfoldable pub executable : Exec (Shell W) Bool
  executable s = executable_after (upload s)
