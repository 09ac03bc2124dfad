-- ===== src/Json/Action.antt =====
-- `json_provider::run_action`: a run of the script with a document on its standard input.
use libral.Base.{
  String, Bool, Option, none, some, List, ◌∷◌, [], if◌then◌else◌, Result, ok, err, throws,
  data_error, ◌>>=◌, Exec, bind, lift,
}
use libral.Base.Text.{◌<>◌, empty, split}
use libral.Context.{Level, log_line, context_error}
use libral.Command.{Status, Target, Shell, execute}
use libral.Json.Documents.{Documents}

-- The words behind the last separator are no line if there are none.
abbrev pub drop_last : List String → List String
drop_last [] = []
drop_last (l ∷ []) = if empty l then [] else l ∷ []
drop_last (l ∷ m ∷ ls) = l ∷ drop_last (m ∷ ls)

-- what `std::getline` reads of a text until it ends
unfoldable pub text_lines : String → List String
unfolding split
text_lines s = drop_last (split 10 s)

-- the loop over the lines on standard error. What is logged leaves no trace in the model.
unfoldable pub log_lines : (Level → Bool) → List String → Result (Unit {0})
log_lines enabled [] = ok tt
log_lines enabled (l ∷ ls) = do _ ← log_line enabled l; log_lines enabled ls

unfoldable pub log_errors : (Level → Bool) → String → Result (Unit {0})
log_errors enabled e = if empty e then ok tt else log_lines enabled (text_lines e)

-- Where a document that cannot be read makes a call fail: the provider's name, the levels that are
-- logged, and the documents.
pub record Setup : Type 1 where
  pub qname : String
  pub enabled : Level → Bool
  pub docs : Documents

module _ (j : Setup) where
  open j use {qname, enabled, docs}

  abbrev pub complain {ℓ} : {A : Type ℓ} → String → Result A
  complain msg = err (context_error qname msg)

  -- the message for a script that failed, if the code has one
  unfoldable pub failure : String → Status → Option String
  failure action s =
      let head = "action '" <> action <> "' exited with status " <> s.exit_code in
      if s.success
      then none
      else if empty s.output
      then some head
      else if empty s.error
      then some (head <> ". Output was '" <> s.output <> "'")
      else none

  unfoldable pub read_output : String → String → Result docs.json.Doc
  read_output action output = elim (docs.parse output) [
    | none ↦ complain ("action '" <> action <> "' returned invalid JSON '" <> output <> "'")
    | some doc ↦ ok doc
  ]

  -- what `run_action` does once the script has ended
  unfoldable pub answer : String → Status → Result docs.json.Doc
  answer action s = do
    _ ← log_errors enabled s.error
    elim (failure action s) [ none ↦ read_output action s.output | some msg ↦ complain msg ]

  -- `run_action(ctx, action, json)`
  unfoldable pub run_action :
      {W : Type 0} → Target W → String → docs.json.Doc → Exec (Shell W) docs.json.Doc
  run_action tgt action doc =
      bind (execute tgt (("ral_action=" <> action) ∷ []) (some (docs.show doc)))
        (λ s. lift (answer action s))

  -- the handler around the reading of an answer
  abbrev pub conforming {ℓ} : {A : Type ℓ} → docs.json.Doc → Result A → Result A
  conforming out (ok a) = ok a
  conforming out (err e) = err e
  conforming out (throws data_error) =
      complain ("output does not conform to calling convention: " <> docs.show out)
  conforming out (throws x) = throws x
