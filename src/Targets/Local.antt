-- ===== src/Targets/Local.antt =====
-- `target::local`: the system that the program runs on.
use libral.Base.{String, Bool, false, Option, none, some, List, ok, if◌then◌else◌, Exec}
use libral.Base.Text.{empty}
use libral.Command.{Status, Target, Command}
use libral.Simple.Protocol.{Reply, Script}

-- What is called: leatherman's `execute`, `each_line` and `which`, `access` with `X_OK`, and the
-- streams on files. A stream that cannot be opened reads as nothing and writes nothing.
pub record System (W : Type 0) : Type 0 where
  pub execute : String → List String → Option String → W → Status × W
  pub each_line : String → List String → W → Reply × W
  pub which : String → W → String
  pub access : String → W → Bool
  pub stream_in : String → W → String
  pub stream_out : String → String → W → W

module _ {W : Type 0} (sys : System W) where
  -- `connect()`
  unfoldable pub connect : Exec W (Unit {0})
  connect w = (ok tt, w)

  -- `command(cmd)`
  unfoldable pub command : String → W → Option Command
  command cmd w =
      let path = sys.which cmd w in
      if empty path then none else some (record { path = path; needs_upload = false })

  -- `script(cmd)`
  unfoldable pub script : String → W → Option Command
  script cmd w = command cmd w

  -- `upload(cmd)`
  unfoldable pub upload : String → Exec W String
  upload cmd w = (ok cmd, w)

  -- `read(path)` and `write(content, path)`
  unfoldable pub read : String → Exec W String
  read path w = (ok (sys.stream_in path w), w)

  unfoldable pub write : String → String → Exec W (Unit {0})
  write content path w = (ok tt, sys.stream_out path content w)

  -- the target as commands use it
  abbrev pub target_of : Target W
  target_of = record { upload = upload; execute = sys.execute; executable = sys.access }

  abbrev pub lines_of : String → Script W
  lines_of path = record { path = path; run = sys.each_line path }
