-- ===== src/Augeas/Saving.antt =====
-- `handle::save`: what the tree holds about errors becomes the error that is returned.
use libral.Base.{
  String, Bool, true, false, Option, none, some, List, [], ◌∷◌, if◌then◌else◌, Result, ok, err,
  throws, undefined, logic_error, ◌>>=◌, Exec, is_ok, >>=-eq-ok, ap, ◌≡◌, refl, arith,
}
use libral.Base.Text.{◌<>◌}
use libral.Mount.Tree.{Handle, append}
use libral.Augeas.Tree.{
  clear, Library, Tree, check_error, set, rm, match_paths, get, make_node_seq_next,
}

module _ {A : Type 0} (lib : Library A) (strip : String → String) where
  abbrev Found : Type 0
  Found = Result (Option String)

  -- `e[label]` for the path of a node
  abbrev field : String → String → Tree A → Found
  field node label t = get lib (append node label) t

  -- `**r`: an error throws, and a value that is not there is undefined
  abbrev value_of : Found → Result String
  value_of (ok (some s)) = ok s
  value_of (ok none) = throws undefined
  value_of (err e) = throws logic_error
  value_of (throws x) = throws x

  -- `*r`
  abbrev found_of : Found → Result (Option String)
  found_of (ok found) = ok found
  found_of (err e) = throws logic_error
  found_of (throws x) = throws x

  -- the first line about an error, from its line, position, path and kind
  abbrev headline : String → Found → Found → Found → Option String → Result String
  headline file (ok (some line)) pos path kind = do
    p ← value_of pos
    k ← value_of (ok kind)
    ok ("Error in " <> file <> ":" <> line <> "." <> p <> " (" <> k <> ")\n")
  headline file _ pos (ok (some path)) kind = do
    k ← value_of (ok kind)
    ok ("Error in " <> file <> " at node " <> path <> " (" <> k <> ")\n")
  headline file _ pos _ kind = do
    k ← value_of (ok kind)
    ok ("Error in " <> file <> " (" <> k <> ")\n")

  abbrev optional_line : String → String → Found → String
  optional_line before after (ok (some s)) = before <> s <> after
  optional_line before after _ = ""

  -- what is told about one error; `strip` takes '/augeas/files' and '/error' off its path
  unfoldable pub describe : Tree A → String → Result String
  describe t e = do
    kind ← found_of (get lib e t)
    head ← headline (strip e) (field e "line" t) (field e "char" t) (field e "path" t) kind
    ok (
        head
        <> optional_line "  " "\n" (field e "message" t)
        <> optional_line "  Lens: " "\n" (field e "lens" t)
        <> optional_line "    Last matched: " "\n\n" (field e "lens/last_matched" t)
        <> optional_line "    Next (no match): " "\n\n" (field e "lens/next_not_matched" t))

  -- the loop over the errors
  unfoldable pub describe_all : Tree A → Bool → List String → Result String
  describe_all t first [] = ok ""
  describe_all t first (e ∷ es) = do
    text ← describe t e
    rest ← describe_all t false es
    ok ((if first then "" else "\n") <> text <> rest)

  abbrev failed_with : Result String → Result (Unit {0})
  failed_with (ok message) = err message
  failed_with (err e) = err e
  failed_with (throws x) = throws x

  abbrev report : Tree A → Result (List String) → Result (Unit {0})
  report t (ok []) = ok tt
  report t (ok (e ∷ es)) = failed_with (describe_all t true (e ∷ es))
  report t (err e) = err e
  report t (throws x) = throws x

  -- what `save` returns once the tree is written
  unfoldable pub outcome : Tree A → Result (Unit {0})
  outcome t = do _ ← check_error lib t.aug; report t (match_paths lib "/augeas/files//error" t)

  -- `save()`
  unfoldable pub save : Exec (Tree A) (Unit {0})
  save t = let written = record t { aug = lib.writer t.aug } in (outcome written, written)

  -- the handle as nodes and providers use it
  abbrev pub handle : Handle (Tree A)
  handle = record {
    match_paths = match_paths lib;
    get = get lib;
    set = set lib;
    rm = rm lib;
    clear = clear lib;
    save = save;
    next = make_node_seq_next lib;
  }

  failed_with_fails : (r : Result String) → is_ok (failed_with r) ≡ false
  failed_with_fails (ok message) = refl
  failed_with_fails (err e) = refl
  failed_with_fails (throws x) = refl

  ok_of : (r : Result (Unit {0})) → is_ok r ≡ true → r ≡ ok tt
  ok_of (ok _) h = refl
  ok_of (err e) h = cc
  ok_of (throws x) h = cc

  report_fails : (t : Tree A) (r : Result (List String)) → is_ok (report t r) ≡ true → r ≡ ok []
  report_fails t (ok []) h = refl
  report_fails t (ok (e ∷ es)) h =
      ground (arith, h, failed_with_fails (describe_all t true (e ∷ es)))
  report_fails t (err e) h = cc
  report_fails t (throws x) h = cc

  -- Saving succeeds only if libaugeas reports no error for the tree that was written and this tree
  -- has no node about an error for any file; then the matches for such nodes could be read.
  pub save_clean :
      (t : Tree A)
      → is_ok (save t).0 ≡ true
      → (check_error lib (save t).1.aug ≡ ok tt)
        × (match_paths lib "/augeas/files//error" (save t).1 ≡ ok [])
  unfolding save outcome
  save_clean t h =
      let written : Tree A = record t { aug = lib.writer t.aug } in
      let (_, e, f) = >>=-eq-ok (check_error lib written.aug) _ (ok_of (outcome written) h) in
      (e, report_fails written (match_paths lib "/augeas/files//error" written) (ap is_ok f))
