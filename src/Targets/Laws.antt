-- ===== src/Targets/Laws.antt =====
-- What the operations on an ssh target do to it, also where they fail.
use libral.Base.{
  String, false, Option, none, some, List, ◌∷◌, [], ok, err, ◌≡◌, refl, arith, ◌∙◌, bind-ok, eq_iff,
  sym, ap,
}
use libral.Base.Text.{◌<>◌, empty}
use libral.Command.{Status}
use libral.Targets.Session.{Local, Remote, Session, on_target, run, run_ssh}
use libral.Targets.Ssh.{both_of, tmpdir, make_tmpdir, transfer, write, upload, place}
use libral.Targets.Lenses.{
  Augeas, Both, in_path, files_path, out_path, write_file, writer, write_changed,
}

module _ {W A : Type 0} (sys : Local W) (r : Remote) (lib : Augeas A) where
  write_changed_same :
      (file : String) (before after : Option String) (b : Both sys r lib)
      → before ≡ after
      → write_changed sys r lib file before after b ≡ (ok tt, b)
  write_changed_same file none after b e = refl
  write_changed_same file (some x) none b e = refl
  write_changed_same file (some x) (some y) b e = ground (arith, eq_iff x y)

module _ {W : Type 0} (sys : Local W) (r : Remote) where
  make_tmpdir-holds :
      (s : Session W) (dir : String)
      → (make_tmpdir sys r s).0 ≡ ok dir
      → (make_tmpdir sys r s).1.tmpdir ≡ dir
  unfolding make_tmpdir
  make_tmpdir-holds s dir e = ground arith

  tmpdir-holds :
      (s : Session W) (dir : String) → (tmpdir sys r s).0 ≡ ok dir → (tmpdir sys r s).1.tmpdir ≡ dir
  unfolding tmpdir
  tmpdir-holds s dir e = ground (arith, make_tmpdir-holds s dir)

  -- Once an operation has got a temporary directory with a name, the next one gets the same, and
  -- nothing is run for it.
  pub tmpdir_once :
      (s s' : Session W) (dir : String)
      → tmpdir sys r s ≡ (ok dir, s')
      → empty dir ≡ false
      → tmpdir sys r s' ≡ (ok dir, s')
  unfolding tmpdir make_tmpdir
  tmpdir_once s s' dir e there = ground (arith, e)

  -- Where the content of a file cannot be transferred, writing the file fails with what the
  -- program printed, and nothing is run after the failed transfer: the file is not touched.
  pub write_untransferred :
      (content path dir : String) (s s₁ s₂ : Session W) (status : Status)
      → tmpdir sys r s ≡ (ok dir, s₁)
      → run sys r "ssh"
          (on_target r ("dd" ∷ "status=none" ∷ ("of=" <> sys.slash dir (sys.filename path)) ∷ []))
          (some content)
          s₁
        ≡ (status, s₂)
      → status.success ≡ false
      → write sys r content path s ≡ (err (both_of status), s₂)
  unfolding write transfer
  write_untransferred content path dir s s₁ s₂ status e f bad = rw (e, f, bad) refl

  place-ok :
      (cmd to path : String) (s s' : Session W)
      → place sys r cmd to s ≡ (ok path, s')
      → (path ≡ to) × (s'.tmpdir ≡ s.tmpdir)
  unfolding place run run_ssh
  place-ok cmd to path s s' e = ground (arith, e)

  -- An upload that succeeds returns the file's name in the temporary directory, which has been
  -- made if there was none.
  pub upload_path :
      (cmd path : String) (s s' : Session W)
      → upload sys r cmd s ≡ (ok path, s')
      → path ≡ sys.slash s'.tmpdir (sys.filename cmd)
  unfolding upload
  upload_path cmd path s s' e =
      let (dir, e₁, f₁) = bind-ok (tmpdir sys r) _ s s' e in
      let (same, kept) =
        place-ok cmd (sys.slash dir (sys.filename cmd)) path (tmpdir sys r s).1 s' f₁ in
      same ∙ ap (λ d. sys.slash d (sys.filename cmd)) (sym (kept ∙ tmpdir-holds s dir e₁))

  module _ {A : Type 0} (lib : Augeas A) where
    -- Retrieving the text of the file gives what was read.
    abbrev pub IsUnchanged : String × String → A → Type 0
    IsUnchanged (lens, file) a =
        let a' = lib.text_retrieve lens (in_path file) (files_path file) (out_path file) a in
        lib.get (out_path file) a' ≡ lib.get (in_path file) a'

    -- Each file in turn, in the tree that the ones before it leave.
    abbrev pub AreUnchanged : List (String × String) → A → Type 0
    AreUnchanged [] a = Unit
    AreUnchanged ((lens, file) ∷ xfms) a =
        IsUnchanged (lens, file) a
        × AreUnchanged xfms
            (lib.text_retrieve lens (in_path file) (files_path file) (out_path file) a)

    -- A file that is unchanged is not written, and no program is run for it.
    write_file_unchanged :
        (lens file : String) (a : A) (s : Session W)
        → IsUnchanged (lens, file) a
        → write_file sys r lib lens file (a, s)
          ≡ (ok tt, (lib.text_retrieve lens (in_path file) (files_path file) (out_path file) a, s))
    unfolding write_file
    write_file_unchanged lens file a s e = write_changed_same sys r lib file _ _ _ (sym e)

    -- Where no file of the tree has changed, saving it succeeds and runs nothing: neither the
    -- target nor this system changes.
    pub writer_unchanged :
        (xfms : List (String × String)) (a : A) (s : Session W)
        → AreUnchanged xfms a
        → ((writer sys r lib xfms (a, s)).0 ≡ ok tt) × ((writer sys r lib xfms (a, s)).1.1 ≡ s)
    unfolding writer
    writer_unchanged [] a s h = (refl, refl)
    writer_unchanged ((lens, file) ∷ xfms) a s h = rw (write_file_unchanged lens file a s h.0) (
        writer_unchanged xfms
          (lib.text_retrieve lens (in_path file) (files_path file) (out_path file) a) s h.1)
