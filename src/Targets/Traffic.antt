-- ===== src/Targets/Traffic.antt =====
-- Which programs the operations on an ssh target run on this system, in whatever order they are
-- called, and what becomes of the temporary directory.
use libral.Base.{
  String, true, false, Option, none, some, List, ◌∷◌, [], ◌++◌, if◌then◌else◌, Result, ok, err,
  throws, continue, ◌≡◌, refl, arith, All, All-append, Bool-cases, inl, inr,
}
use libral.Base.Invariant.{Keeps, bind-Keeps}
use libral.Base.Text.{◌<>◌, empty}
use libral.Command.{Status}
use libral.Simple.Protocol.{Reply}
use libral.Targets.Session.{Local, Remote, Session, ssh_opts, on_target, run, run_ssh}
use libral.Targets.Ssh.{
  succeed, stderr_of, make_tmpdir, tmpdir, connect, which, place, upload, execute, each_line, read,
  transfer, replace, replace_script, write, remember,
}

-- The lines that reach the target: ssh on it, with the options or without, and scp to it.
pub data IsLine (r : Remote) : String → List String → Type 0 where
  over_ssh : (rest : List String) → IsLine r "ssh" (ssh_opts ++ (r.target ∷ rest))
  plain_ssh : (rest : List String) → IsLine r "ssh" (r.target ∷ rest)
  over_scp :
      (from to : String)
      → IsLine r "scp" (ssh_opts ++ ("-pq" ∷ from ∷ (r.target <> ":" <> to) ∷ []))

module _ {W : Type 0} (sys : Local W) (r : Remote) where
  -- One operation on the target, whether it succeeds or not.
  infix 40 ◌⟶◌ ◌⟶*◌
  pub data ◌⟶◌ : Session W → Session W → Type 0 where
    connecting : {s : Session W} → s ⟶ (connect sys r s).1
    locating : {s : Session W} (cmd : String) → s ⟶ (which sys r cmd s).1
    uploading : {s : Session W} (cmd : String) → s ⟶ (upload sys r cmd s).1
    executing :
        {s : Session W} (cmd : String) (args : List String) (stdin : Option String)
        → s ⟶ (execute sys r cmd args stdin s).1
    listing :
        {s : Session W} (cmd : String) (args : List String) → s ⟶ (each_line sys r cmd args s).1
    reading : {s : Session W} (path : String) → s ⟶ (read sys r path s).1
    writing : {s : Session W} (content path : String) → s ⟶ (write sys r content path s).1

  pub data ◌⟶*◌ : Session W → Session W → Type 0 where
    here : {s : Session W} → s ⟶* s
    after : {s t u : Session W} → s ⟶ t → t ⟶* u → s ⟶* u

  -- A property of sessions that runs of lines to the target keep, and the first temporary directory.
  pub record Kept (P : Session W → Type 0) : Type 0 where
    pub runs :
        (file : String) (args : List String) (stdin : Option String) (s : Session W)
        → IsLine r file args
        → P s
        → P (record s { world = (sys.execute file args stdin s.world).1 })
    pub lists :
        (file : String) (args : List String) (s : Session W)
        → IsLine r file args
        → P s
        → P (record s { world = (sys.each_line file args s.world).1 })
    pub remembers :
        (s : Session W) (dir : String) → empty s.tmpdir ≡ true → P s → P (record s { tmpdir = dir })

  module _ (P : Session W → Type 0) (k : Kept P) where
    run_ssh-Keeps :
        (args : List String) (stdin : Option String) (s : Session W)
        → P s
        → P (run_ssh sys r args stdin s).1
    unfolding run_ssh run on_target
    run_ssh-Keeps args stdin s p =
        k.runs "ssh" (ssh_opts ++ on_target r args) stdin s
          (over_ssh (if r.sudo then "sudo" ∷ args else args)) p

    remember-Keeps :
        (done : Result String) (s : Session W)
        → empty s.tmpdir ≡ true
        → P s
        → P (continue done (remember sys r) s).1
    remember-Keeps (ok dir) s h p = k.remembers s dir h p
    remember-Keeps (err e) s h p = p
    remember-Keeps (throws x) s h p = p

    make_tmpdir-Keeps : (s : Session W) → empty s.tmpdir ≡ true → P s → P (make_tmpdir sys r s).1
    unfolding make_tmpdir run
    make_tmpdir-Keeps s h p =
        let line = ssh_opts ++ (r.target ∷ "mktemp" ∷ "-t" ∷ "-d" ∷ "ralXXXXXX" ∷ []) in
        let status = (sys.execute "ssh" line none s.world).0 in
        remember-Keeps (if status.success then ok status.output else err status.error)
          (record s { world = (sys.execute "ssh" line none s.world).1 }) h
          (k.runs "ssh" line none s (over_ssh ("mktemp" ∷ "-t" ∷ "-d" ∷ "ralXXXXXX" ∷ [])) p)

    tmpdir-Keeps : Keeps P (tmpdir sys r)
    unfolding tmpdir
    tmpdir-Keeps s p = elim (Bool-cases (empty s.tmpdir)) [
      | inl none_yet ↦ rw none_yet (make_tmpdir-Keeps s none_yet p)
      | inr there ↦ rw there p
    ]

    place-Keeps : (cmd path : String) → Keeps P (place sys r cmd path)
    unfolding place run
    place-Keeps cmd path =
        bind-Keeps P
          (succeed stderr_of (run sys r "scp" ("-pq" ∷ cmd ∷ (r.target <> ":" <> path) ∷ []) none))
          _
          (λ s p.
            k.runs "scp" (ssh_opts ++ ("-pq" ∷ cmd ∷ (r.target <> ":" <> path) ∷ [])) none s
              (over_scp cmd path) p)
          (λ _.
            bind-Keeps P (succeed stderr_of (run_ssh sys r ("chmod" ∷ "a+x" ∷ path ∷ []) none)) _
              (run_ssh-Keeps ("chmod" ∷ "a+x" ∷ path ∷ []) none) (λ _ s p. p))

    write-Keeps : (content path : String) → Keeps P (write sys r content path)
    unfolding write transfer replace run run_ssh
    write-Keeps content path = bind-Keeps P (tmpdir sys r) _ tmpdir-Keeps (λ dir.
        let tmp = sys.slash dir (sys.filename path) in
        bind-Keeps P (transfer sys r content tmp) _
          (run_ssh-Keeps ("dd" ∷ "status=none" ∷ ("of=" <> tmp) ∷ []) (some content))
          (λ _.
            bind-Keeps P
              (succeed stderr_of (run_ssh sys r ("/bin/sh" ∷ []) (some (replace_script path tmp))))
              _ (run_ssh-Keeps ("/bin/sh" ∷ []) (some (replace_script path tmp))) (λ _ s p. p)))

    upload-Keeps : (cmd : String) → Keeps P (upload sys r cmd)
    unfolding upload
    upload-Keeps cmd =
        bind-Keeps P (tmpdir sys r) _ tmpdir-Keeps
          (λ dir. place-Keeps cmd (sys.slash dir (sys.filename cmd)))

    step-Keeps : {s s' : Session W} → s ⟶ s' → P s → P s'
    unfolding connect which execute each_line read on_target run run_ssh
    step-Keeps (connecting {s = s}) p = run_ssh-Keeps ("/bin/echo" ∷ "inlikeflynn" ∷ []) none s p
    step-Keeps (locating {s = s} cmd) p = run_ssh-Keeps ("which" ∷ cmd ∷ []) none s p
    step-Keeps (uploading {s = s} cmd) p = upload-Keeps cmd s p
    step-Keeps (executing {s = s} cmd args stdin) p = run_ssh-Keeps (cmd ∷ args) stdin s p
    step-Keeps (listing {s = s} cmd args) p =
        k.lists "ssh" (on_target r (cmd ∷ args)) s
          (plain_ssh (if r.sudo then "sudo" ∷ cmd ∷ args else cmd ∷ args)) p
    step-Keeps (reading {s = s} path) p =
        run_ssh-Keeps ("dd" ∷ "status=none" ∷ ("if=" <> path) ∷ []) none s p
    step-Keeps (writing {s = s} content path) p = write-Keeps content path s p

    -- Such a property holds in every state that operations lead to.
    pub invariant : {s s' : Session W} → s ⟶* s' → P s → P s'
    invariant here p = p
    invariant (after step steps) p = invariant steps (step-Keeps step p)

  -- Once a target has a temporary directory with a name, every sequence of operations on it leaves
  -- it with that one.
  pub tmpdir_stays : (s s' : Session W) → s ⟶* s' → empty s.tmpdir ≡ false → s'.tmpdir ≡ s.tmpdir
  tmpdir_stays s s' steps there =
      let kept : Kept (λ t. t.tmpdir ≡ s.tmpdir) = record {
        runs = λ file args stdin t line same. same;
        lists = λ file args t line same. same;
        remembers = λ t dir nothing same. ground (arith, there, nothing, same);
      } in
      invariant (λ t. t.tmpdir ≡ s.tmpdir) kept steps refl

-- A program that was run, and its arguments.
abbrev pub Made : Type 0
Made = String × List String

-- A system that keeps what was run on it; what programs answer depends on that.
abbrev pub recording :
    (List Made → Status) → (List Made → Reply) → (String → String) → Local (List Made)
recording status reply filename = record {
  execute = λ file args stdin made. (status made, made ++ ((file, args) ∷ []));
  each_line = λ file args made. (reply made, made ++ ((file, args) ∷ []));
  filename = filename;
  slash = λ dir file. dir <> "/" <> file;
}

-- Whatever programs answer and in whatever order operations are called, every program that they run
-- on this system is ssh on the target or scp to the target.
pub traffic_reaches_target :
    (status : List Made → Status) (reply : List Made → Reply) (filename : String → String)
    (r : Remote) (s s' : Session (List Made))
    → ◌⟶*◌ (recording status reply filename) r s s'
    → All (λ m. IsLine r m.0 m.1) s.world
    → All (λ m. IsLine r m.0 m.1) s'.world
traffic_reaches_target status reply filename r s s' steps before =
    let held : Session (List Made) → Type 0 = λ t. All (λ (m : Made). IsLine r m.0 m.1) t.world in
    let kept : Kept (recording status reply filename) r held = record {
      runs = λ file args stdin t line h.
          All-append (λ (m : Made). IsLine r m.0 m.1) t.world ((file, args) ∷ []) h (line, tt);
      lists = λ file args t line h.
          All-append (λ (m : Made). IsLine r m.0 m.1) t.world ((file, args) ∷ []) h (line, tt);
      remembers = λ t dir nothing h. h;
    } in
    invariant (recording status reply filename) r held kept steps before
