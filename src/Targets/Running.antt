-- ===== src/Targets/Running.antt =====
-- Commands and scripts on an ssh target whose programs work.
use libral.Base.{
  String, Bool, true, false, Option, none, List, ◌∷◌, [], ◌++◌, if◌then◌else◌, Result, ok, Exec,
  bind, continue, ◌≡◌, refl, sym, ap, ◌∙◌, Bool-cases, inl, inr,
}
use libral.Base.Text.{◌<>◌, empty}
use libral.Command.{Status, Command, Shell, keep_path, run_uploaded}
use libral.Command as Command
use libral.Targets.Session.{Local, Remote, Session, ssh_opts, on_target, run, run_ssh}
use libral.Targets.Ssh.{
  succeed, stderr_of, make_tmpdir, tmpdir, place, upload, execute, target_of, remember,
}

-- A program that is run on this system: its name, its arguments and its input.
abbrev pub Line : Type 0
Line = String × List String × Option String

module _ {W : Type 0} (sys : Local W) (r : Remote) where
  -- Every program that is run on this system ends with success.
  abbrev pub Works : Type 0
  Works =
      (file : String) (args : List String) (stdin : Option String) (w : W)
      → (sys.execute file args stdin w).0.success ≡ true

  -- What running the lines in this order does to this system.
  abbrev pub play : List Line → W → W
  play [] w = w
  play ((file, args, stdin) ∷ lines) w = play lines (sys.execute file args stdin w).1

  play-append : (xs ys : List Line) (w : W) → play (xs ++ ys) w ≡ play ys (play xs w)
  play-append [] ys w = refl
  play-append (x ∷ xs) ys w = play-append xs ys _

  -- The lines: a directory is made on the target, a file is copied to it, and a command is run on it.
  abbrev pub mktemp : List String
  mktemp = "mktemp" ∷ "-t" ∷ "-d" ∷ "ralXXXXXX" ∷ []

  abbrev pub make_line : Line
  make_line = ("ssh", ssh_opts ++ (r.target ∷ mktemp), none)

  abbrev pub copy_line : (from to : String) → Line
  copy_line from to = ("scp", ssh_opts ++ ("-pq" ∷ from ∷ (r.target <> ":" <> to) ∷ []), none)

  abbrev pub run_line : List String → Line
  run_line args = ("ssh", ssh_opts ++ on_target r args, none)

  -- The directory on the target: the one that there is, or what making one prints.
  abbrev pub directory : Session W → String
  directory s =
      if empty s.tmpdir
      then (sys.execute make_line.0 make_line.1 make_line.2 s.world).0.output
      else s.tmpdir

  abbrev pub place_of : String → Session W → String
  place_of cmd s = sys.slash (directory s) (sys.filename cmd)

  abbrev pub upload_lines : String → Session W → List Line
  upload_lines cmd s =
      (if empty s.tmpdir then make_line ∷ [] else [])
      ++ (copy_line cmd (place_of cmd s) ∷ run_line ("chmod" ∷ "a+x" ∷ place_of cmd s ∷ []) ∷ [])

  -- A session in which a command has been uploaded.
  abbrev pub uploaded : String → Session W → Session W
  uploaded cmd s = record { tmpdir = directory s; world = play (upload_lines cmd s) s.world }

  -- A command that is on the target.
  abbrev pub placed : Shell (Session W) → Shell (Session W)
  placed s =
      if s.cmd.needs_upload
      then record {
        cmd = record { path = place_of s.cmd.path s.world; needs_upload = false };
        world = uploaded s.cmd.path s.world;
      }
      else s

  -- And that has been run there.
  abbrev pub ran : List String → Shell (Session W) → Shell (Session W)
  ran args s = record s {
    world = record s.world { world = play (run_line (s.cmd.path ∷ args) ∷ []) s.world.world };
  }

  module _ (works : Works) where
    goes_on :
        {S A B : Type 0} (part : Exec S A) (next : A → Exec S B) (s s' : S) (a : A)
        → part s ≡ (ok a, s')
        → bind part next s ≡ next a s'
    goes_on part next s s' a h = ap (λ p. continue p.0 next p.1) h

    run_ok :
        (blame : Status → String) (file : String) (args : List String) (stdin : Option String)
        → (s : Session W)
        → succeed blame (run sys r file args stdin) s ≡ (
          ok (sys.execute file (ssh_opts ++ args) stdin s.world).0.output,
          record s { world = (sys.execute file (ssh_opts ++ args) stdin s.world).1 },
        )
    unfolding run
    run_ok blame file args stdin s = rw (works file (ssh_opts ++ args) stdin s.world) refl

    tmpdir_ok :
        (s : Session W)
        → tmpdir sys r s ≡ (
          ok (directory s),
          record {
            tmpdir = directory s;
            world = play (if empty s.tmpdir then make_line ∷ [] else []) s.world;
          },
        )
    unfolding tmpdir make_tmpdir
    tmpdir_ok s = elim (Bool-cases (empty s.tmpdir)) [
      | inl y ↦ rw y (
          goes_on (succeed stderr_of (run sys r "ssh" (r.target ∷ mktemp) none)) (remember sys r) s
            _ _ (run_ok stderr_of "ssh" (r.target ∷ mktemp) none s))
      | inr n ↦ rw n refl
    ]

    run_ssh_ok :
        (blame : Status → String) (args : List String) (s : Session W)
        → succeed blame (run_ssh sys r args none) s ≡ (
          ok (sys.execute "ssh" (ssh_opts ++ on_target r args) none s.world).0.output,
          record s { world = play (run_line args ∷ []) s.world },
        )
    unfolding run_ssh
    run_ssh_ok blame args s = run_ok blame "ssh" (on_target r args) none s

    place_ok :
        (cmd path : String) (s : Session W)
        → place sys r cmd path s ≡ (
          ok path,
          record s {
            world = play (copy_line cmd path ∷ run_line ("chmod" ∷ "a+x" ∷ path ∷ []) ∷ []) s.world;
          },
        )
    unfolding place
    place_ok cmd path s =
        let copied = "-pq" ∷ cmd ∷ (r.target <> ":" <> path) ∷ [] in
        let chmod = "chmod" ∷ "a+x" ∷ path ∷ [] in
        goes_on (succeed stderr_of (run sys r "scp" copied none)) _ s _ _
          (run_ok stderr_of "scp" copied none s)
        ∙ goes_on (succeed stderr_of (run_ssh sys r chmod none)) _ _ _ _
            (run_ssh_ok stderr_of chmod _)

    upload_ok :
        (cmd : String) (s : Session W) → upload sys r cmd s ≡ (ok (place_of cmd s), uploaded cmd s)
    unfolding upload
    upload_ok cmd s =
        goes_on (tmpdir sys r) _ s _ _ (tmpdir_ok s)
        ∙ place_ok cmd (place_of cmd s) _
        ∙ ap (λ w. (ok (place_of cmd s), record { tmpdir = directory s; world = w }))
            (sym (play-append (if empty s.tmpdir then make_line ∷ [] else []) _ s.world))

    either :
        {S : Type 0} (b : Bool) (s t : S)
        → ◌≡◌ {A = Result (Unit {0}) × S}
            (if b then (ok tt, s) else (ok tt, t))
            (ok tt, if b then s else t)
    either true s t = refl
    either false s t = refl

    command_upload_ok :
        (s : Shell (Session W)) → Command.upload (target_of sys r) s ≡ (ok tt, placed s)
    unfolding Command.upload
    command_upload_ok s =
        ap (λ done. if s.cmd.needs_upload then keep_path s done else (ok tt, s))
          (upload_ok s.cmd.path s.world)
        ∙ either s.cmd.needs_upload _ s

    run_uploaded_ok :
        (args : List String) (s : Shell (Session W))
        → run_uploaded (target_of sys r) args s ≡ (ok tt, ran args s)
    unfolding run_uploaded execute run
    run_uploaded_ok args s =
        rw (works "ssh" (ssh_opts ++ on_target r (s.cmd.path ∷ args)) none s.world.world) refl

    -- Where every program ends with success, running a command on the target succeeds, and does this
    -- and no more: what has to be uploaded is copied by scp to the directory on the target, which is
    -- made first if there is none, and becomes executable there; then it is run on the target, by the
    -- path that it has there. It need not be uploaded again, and the directory is remembered.
    pub command_runs :
        (args : List String) (s : Shell (Session W))
        → Command.run (target_of sys r) args s ≡ (ok tt, ran args (placed s))
    unfolding Command.run
    command_runs args s =
        goes_on (Command.upload (target_of sys r)) (λ _. run_uploaded (target_of sys r) args) s
          (placed s) tt (command_upload_ok s)
        ∙ run_uploaded_ok args (placed s)
