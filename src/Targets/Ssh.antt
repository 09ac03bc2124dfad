-- ===== src/Targets/Ssh.antt =====
-- `target::ssh`: every operation, as runs of ssh and scp.
use libral.Base.{
  String, true, false, not, ◌&&◌, Option, none, some, List, ◌∷◌, [], ◌==◌, if◌then◌else◌, ok, err,
  Exec, pure,
}
use libral.Base.Do.{◌>>=◌}
use libral.Base.Text.{◌<>◌, empty}
use libral.Command.{Status, Target, Command}
use libral.Simple.Protocol.{Reply, Script}
use libral.Targets.Session.{Local, Remote, Session, on_target, run, run_ssh}

-- A run whose failure is an error with the text that `blame` makes of its outcome.
abbrev pub succeed : {S : Type 0} → (Status → String) → (S → Status × S) → Exec S String
succeed blame m s =
    let (status, s') = m s in
    ((if status.success then ok status.output else err (blame status)), s')

abbrev pub stderr_of : Status → String
stderr_of status = status.error

abbrev pub both_of : Status → String
both_of status = status.output <> "\n" <> status.error

-- the script that puts a new file in the place of another
unfoldable pub replace_script : String → String → String
replace_script path tmp =
    "r='" <> path <> "'; t='" <> tmp <> "';"
    <> "\n[ -f \"$r\" ] && ( chmod --reference=\"$r\" \"$t\"; "
    <> "chown --quiet --reference=\"$r\" \"$t\"; true);\nmv \"$t\" \"$r\"\n"

module _ {W : Type 0} (sys : Local W) (r : Remote) where
  abbrev pub remember : String → Exec (Session W) String
  remember dir s = (ok dir, record s { tmpdir = dir })

  -- the part of `tmpdir()` for a target that has no directory: it is made without 'sudo'
  unfoldable pub make_tmpdir : Exec (Session W) String
  make_tmpdir = do
    dir ←
        succeed stderr_of
          (run sys r "ssh" (r.target ∷ "mktemp" ∷ "-t" ∷ "-d" ∷ "ralXXXXXX" ∷ []) none)
    remember dir

  -- `tmpdir()`
  unfoldable pub tmpdir : Exec (Session W) String
  tmpdir s = if empty s.tmpdir then make_tmpdir s else (ok s.tmpdir, s)

  -- `connect()`
  unfoldable pub connect : Exec (Session W) (Unit {0})
  connect s =
      let (status, s') = run_ssh sys r ("/bin/echo" ∷ "inlikeflynn" ∷ []) none s in
      (
        (if status.success && status.output == "inlikeflynn" then ok tt else err (both_of status)),
        s',
      )

  -- `~ssh()`
  unfoldable pub close : Session W → Session W
  close s =
      if not r.keep && not (empty s.tmpdir)
      then (run_ssh sys r ("rm" ∷ "-rf" ∷ s.tmpdir ∷ []) none s).1
      else s

  -- `which(cmd)`
  unfoldable pub which : String → Session W → String × Session W
  which cmd s =
      let (status, s') = run_ssh sys r ("which" ∷ cmd ∷ []) none s in
      ((if status.success then status.output else ""), s')

  -- the part of `upload` that copies a file to the target and makes it executable
  unfoldable pub place : String → String → Exec (Session W) String
  place cmd path = do
    _ ← succeed stderr_of (run sys r "scp" ("-pq" ∷ cmd ∷ (r.target <> ":" <> path) ∷ []) none)
    _ ← succeed stderr_of (run_ssh sys r ("chmod" ∷ "a+x" ∷ path ∷ []) none)
    pure path

  -- `upload(cmd)`
  unfoldable pub upload : String → Exec (Session W) String
  upload cmd = do dir ← tmpdir; place cmd (sys.slash dir (sys.filename cmd))

  -- `execute(cmd, args, stdin)`
  unfoldable pub execute : String → List String → Option String → Session W → Status × Session W
  execute cmd args stdin = run sys r "ssh" (on_target r (cmd ∷ args)) stdin

  -- `each_line(cmd, args, ...)`, without the options of `run`
  unfoldable pub each_line : String → List String → Session W → Reply × Session W
  each_line cmd args s =
      let (reply, w) = sys.each_line "ssh" (on_target r (cmd ∷ args)) s.world in
      (reply, record s { world = w })

  -- `read(remote_path)`
  unfoldable pub read : String → Exec (Session W) String
  read path = succeed both_of (run_ssh sys r ("dd" ∷ "status=none" ∷ ("if=" <> path) ∷ []) none)

  -- `write(content, remote_path)`: the first part puts the content beside the file.
  unfoldable pub transfer : String → String → Exec (Session W) String
  transfer content tmp =
      succeed both_of
        (run sys r "ssh" (on_target r ("dd" ∷ "status=none" ∷ ("of=" <> tmp) ∷ [])) (some content))

  unfoldable pub replace : String → String → Exec (Session W) (Unit {0})
  replace path tmp = do
    _ ← succeed stderr_of (run_ssh sys r ("/bin/sh" ∷ []) (some (replace_script path tmp)))
    pure tt

  unfoldable pub write : String → String → Exec (Session W) (Unit {0})
  write content path = do
    dir ← tmpdir
    let tmp = sys.slash dir (sys.filename path)
    _ ← transfer content tmp
    replace path tmp

  -- `command(cmd)`: none if the target does not have the command.
  unfoldable pub command : String → Session W → Option Command × Session W
  command cmd s =
      let (path, s') = which cmd s in
      ((if empty path then none else some (record { path = path; needs_upload = false })), s')

  -- `script(cmd)`
  unfoldable pub script : String → Option Command
  script cmd = some (record { path = cmd; needs_upload = true })

  -- the target as commands use it; `executable(file)` is always true
  abbrev pub target_of : Target (Session W)
  target_of = record { upload = upload; execute = execute; executable = λ file s. true }

  -- a command on it, as simple providers use it
  abbrev pub lines_of : String → Script (Session W)
  lines_of path = record { path = path; run = λ args s. each_line path args s }
