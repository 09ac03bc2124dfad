-- ===== src/Simple/Errors.antt =====
-- The error part of the protocol: 'ral_error: ...', further lines, and 'ral_eom'.
use libral.Base.{
  ℕ, suc, ◌+◌, String, Bool, true, false, List, [], ◌∷◌, ◌++◌, ok, err, Exec, ◌≡◌, ◌≢◌, refl, sym,
  ap, ◌∙◌, arith, ==_false, nat_eq, All,
}
use libral.Base.Text.{◌<>◌, trim, all_chars}
use text.Mathlib.TextLemmas.{append-nil, append_assoc}
use libral.Simple.Protocol.{Reader, Script, take_line, out_cb, each_line, start, finish, run_action}
use libral.Simple.Lines.{line, running, key_value-line, split_at-line}

-- The machine inside an error message.
abbrev pub in_message : {S : Type 0} → ℕ → String → S → Reader S
in_message n msg s = record {
  line_cnt = suc n;
  in_error = true;
  errmsg = msg;
  rslt = ok tt;
  store = s;
}

-- the lines joined as `errmsg += line` joins them
abbrev pub joined : List String → String
joined [] = ""
joined (l ∷ ls) = l <> joined ls

counted : (n : ℕ) → nat_eq (suc n + 1) 1 ≡ false
counted n = ground arith

module _ {S : Type 0} (cb : String → String → Exec S (Unit {0})) where
  out_cb-error :
      (m : String) (n : ℕ) (s : S)
      → trim m ≡ m
      → out_cb cb (line "ral_error" m) (running n s) ≡ in_message (suc n) m s
  unfolding out_cb take_line all_chars
  out_cb-error m n s trimmed =
      rw (counted n, key_value-line "ral_error" m refl trimmed, split_at-line "ral_error" m refl)
        (ap (λ (k : ℕ). record (in_message n m s) { line_cnt = k }) {y = suc (suc n)} (omega arith))

  out_cb-more :
      (l m : String) (n : ℕ) (s : S)
      → l ≢ "ral_eom"
      → out_cb cb l (in_message n m s) ≡ in_message (suc n) (m <> l) s
  unfolding out_cb
  out_cb-more l m n s more =
      rw (counted n, ==_false l "ral_eom" more)
        (ap (λ (k : ℕ). record (in_message n (m <> l) s) { line_cnt = k }) {y = suc (suc n)}
          (omega arith))

  out_cb-eom :
      (m : String) (n : ℕ) (s : S)
      → out_cb cb "ral_eom" (in_message n m s) ≡ record (in_message (suc n) m s) { rslt = err m }
  unfolding out_cb
  out_cb-eom m n s = rw (counted n) (
      ap (λ (k : ℕ). record (in_message n m s) { line_cnt = k; rslt = err m }) {y = suc (suc n)}
        (omega arith))

  each_line-message :
      (body : List String) (m : String) (n : ℕ) (s : S) (rest : List String)
      → All (λ l. l ≢ "ral_eom") body
      → (k : ℕ) × (each_line cb (body ++ rest) (in_message n m s)
          ≡ each_line cb rest (in_message k (m <> joined body) s))
  unfolding each_line
  each_line-message [] m n s rest h =
      (n, ap (λ (t : String). each_line cb rest (in_message n t s)) (sym (append-nil m)))
  each_line-message (l ∷ body) m n s rest h =
      let (k, e) = each_line-message body (m <> l) (suc n) s rest h.1 in
      (
        k,
        rw (out_cb-more l m n s h.0) e
            ∙ ap (λ (t : String). each_line cb rest (in_message k t s))
                (append_assoc m l (joined body)),
      )

  -- A reported error ends the reading: the result is the message with its further lines, what
  -- stands behind 'ral_eom' is not read, and the callback is not called any more.
  pub each_line-error :
      (m : String) (body rest : List String) (n : ℕ) (s : S)
      → trim m ≡ m
      → All (λ l. l ≢ "ral_eom") body
      → (k : ℕ) × (each_line cb (line "ral_error" m ∷ (body ++ ("ral_eom" ∷ rest))) (running n s)
          ≡ record (in_message k (m <> joined body) s) { rslt = err (m <> joined body) })
  unfolding each_line
  each_line-error m body rest n s trimmed h =
      let (k, e) = each_line-message body m (suc n) s ("ral_eom" ∷ rest) h in
      (suc k, rw (out_cb-error m n s trimmed) (e ∙ rw (out_cb-eom (m <> joined body) k s) refl))

  -- An error message that 'ral_eom' does not end is no error.
  pub each_line_no_eom :
      (m : String) (body : List String) (n : ℕ) (s : S)
      → trim m ≡ m
      → All (λ l. l ≢ "ral_eom") body
      → (k : ℕ) × (each_line cb (line "ral_error" m ∷ (body ++ [])) (running n s)
          ≡ in_message k (m <> joined body) s)
  unfolding each_line
  each_line_no_eom m body n s trimmed h =
      let (k, e) = each_line-message body m (suc n) s [] h in (k, rw (out_cb-error m n s trimmed) e)

  -- The first line is the header.
  each_line-header :
      (ls : List String) (s : S)
      → each_line cb ("# simple" ∷ ls) (start s) ≡ each_line cb ls (running 0 s)
  unfolding each_line out_cb
  each_line-header ls s = refl

  -- A script that prints the header and then reports an error, whose first line has no white
  -- space at its ends, makes the action fail with the text of the report, whatever its exit
  -- status and whatever follows 'ral_eom'; the callback has not been called.
  pub run_action_reported :
      {W : Type 0} (script : Script W) (action : String) (args : List String) (s : S) (w w' : W)
      (m : String) (body rest : List String) (success : Bool)
      → trim m ≡ m
      → All (λ l. l ≢ "ral_eom") body
      → script.run (args ++ (("ral_action=" <> action) ∷ [])) w ≡ (
        record {
          lines = "# simple" ∷ line "ral_error" m ∷ (body ++ ("ral_eom" ∷ rest));
          success = success;
        },
        w',
      )
      → run_action script action cb args s w ≡ (err (m <> joined body), s, w')
  unfolding run_action finish
  run_action_reported script action args s w w' m body rest success trimmed h e =
      let (k, read) = each_line-error m body rest 0 s trimmed h in
      rw e (rw (each_line-header _ s ∙ read) (ground arith))

  -- A script that prints the header and then reports an error that 'ral_eom' does not end, and
  -- exits with success, makes the action succeed: the report is lost.
  pub run_action_lost :
      {W : Type 0} (script : Script W) (action : String) (args : List String) (s : S) (w w' : W)
      (m : String) (body : List String)
      → trim m ≡ m
      → All (λ l. l ≢ "ral_eom") body
      → script.run (args ++ (("ral_action=" <> action) ∷ [])) w
        ≡ (record { lines = "# simple" ∷ line "ral_error" m ∷ (body ++ []); success = true }, w')
      → run_action script action cb args s w ≡ (ok tt, s, w')
  unfolding run_action finish
  run_action_lost script action args s w w' m body trimmed h e =
      let (k, read) = each_line_no_eom m body 0 s trimmed h in
      rw e (rw (each_line-header _ s ∙ read) refl)
