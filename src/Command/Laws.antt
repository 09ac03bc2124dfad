-- ===== src/Command/Laws.antt =====
-- A command is uploaded once, and `run` succeeds exactly when the command does.
use libral.Base.{
  String, Bool, true, false, none, List, if◌then◌else◌, Result, ok, err, throws, ◌≡◌, refl, arith,
}
use libral.Command.{Target, Shell, failure, upload, run, run_uploaded, keep_path}

keep_path_marks :
    {W : Type 0} (s s' : Shell W) (r : Result String) (w : W)
    → keep_path s (r, w) ≡ (ok tt, s')
    → s'.cmd.needs_upload ≡ false
keep_path_marks s s' (ok p) w e = ground arith
keep_path_marks s s' (err x) w e = ground arith
keep_path_marks s s' (throws x) w e = ground arith

upload_cases :
    {W : Type 0} (s s' : Shell W) (b : Bool) (x : Result String × W)
    → b ≡ s.cmd.needs_upload
    → (if b then keep_path s x else (ok tt, s)) ≡ (ok tt, s')
    → s'.cmd.needs_upload ≡ false
upload_cases s s' true (r, w) needed e = keep_path_marks s s' r w e
upload_cases s s' false x there e = ground arith

module _ {W : Type 0} (tgt : Target W) where
  upload_marks : (s s' : Shell W) → upload tgt s ≡ (ok tt, s') → s'.cmd.needs_upload ≡ false
  unfolding upload
  upload_marks s s' e = upload_cases s s' s.cmd.needs_upload (tgt.upload s.cmd.path s.world) refl e

  upload_done : (s : Shell W) → s.cmd.needs_upload ≡ false → upload tgt s ≡ (ok tt, s)
  unfolding upload
  upload_done s h = rw h refl

  run_uploaded_marks :
      (args : List String) (s : Shell W)
      → s.cmd.needs_upload ≡ false
      → (run_uploaded tgt args s).1.cmd.needs_upload ≡ false
  unfolding run_uploaded
  run_uploaded_marks args s h = h

  -- A command whose upload succeeds is not uploaded again after it has been run, whether the run
  -- succeeded or not: running it once more only executes it on the target.
  pub run_twice :
      (args again : List String) (s s₁ : Shell W)
      → upload tgt s ≡ (ok tt, s₁)
      → run tgt again (run tgt args s).1 ≡ run_uploaded tgt again (run tgt args s).1
  unfolding run
  run_twice args again s s₁ e = rw e (
      rw
        (upload_done (run_uploaded tgt args s₁).1
          (run_uploaded_marks args s₁ (upload_marks s s₁ e)))
        refl)

  -- If the upload fails, `run` returns its error and executes nothing.
  pub run_upload_fails :
      (args : List String) (s s' : Shell W) (m : String)
      → upload tgt s ≡ (err m, s')
      → run tgt args s ≡ (err m, s')
  unfolding run
  run_upload_fails args s s' m e = rw e refl

  -- After an upload, `run` succeeds exactly when the executed command does; otherwise its error
  -- names the command, the exit code, and what was printed.
  pub run_result :
      (args : List String) (s s₁ : Shell W)
      → upload tgt s ≡ (ok tt, s₁)
      → (run tgt args s).0 ≡ (
          if (tgt.execute s₁.cmd.path args none s₁.world).0.success
          then ok tt
          else err (failure s₁.cmd.path (tgt.execute s₁.cmd.path args none s₁.world).0))
  unfolding run run_uploaded
  run_result args s s₁ e = rw e refl
