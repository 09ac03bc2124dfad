-- ===== src/Simple/Protocol.antt =====
-- `simple_provider::run_action`: the machine that reads the lines of a script's output.
use libral.Base.{
  ℕ, ◌+◌, String, Bool, true, false, not, ◌&&◌, none, some, List, [], ◌∷◌, ◌++◌, ◌==◌,
  if◌then◌else◌, Result, ok, err, Exec, is_ok, nat_eq,
}
use libral.Base.Text.{◌<>◌, split_at, trim, empty}

-- What a script answers: the lines on its standard output, and whether it succeeded.
pub record Reply : Type 0 where
  pub lines : List String
  pub success : Bool

-- The command of a provider: its path, and its run on arguments, which acts on the system.
pub record Script (W : Type 0) : Type 0 where
  pub path : String
  pub run : List String → W → Reply × W

-- The variables that `out_cb` captures; `store` is what the callback for entries works on.
pub record Reader (S : Type 0) : Type 0 where
  pub line_cnt : ℕ
  pub in_error : Bool
  pub errmsg : String
  pub rslt : Result (Unit {0})
  pub store : S

-- The formats of the messages; what leatherman puts for `%s` is left out.
abbrev pub no_colon : String
no_colon = "invalid line: '%s'. Expected '<KEY>: <VALUE>' but couldn't find a ':'"

abbrev pub no_header : String
no_header = "invalid line: '%s'. Expected '# simple'"

-- `line.substr(0, pos)` and the trimmed `line.substr(pos+1)`. Without a ':' `pos` is `npos`, and both
-- are the whole line.
unfoldable pub key_value : String → String × String
key_value line = elim (split_at b':' line) [
  | none ↦ (line, trim line)
  | some (key, value) ↦ (key, trim value)
]

abbrev merge : Result (Unit {0}) → Result (Unit {0}) → Result (Unit {0})
merge old (ok u) = old
merge old r = r

module _ {S : Type 0} (entry_cb : String → String → Exec S (Unit {0})) where
  -- a call of `entry_cb`, whose error becomes the result
  unfoldable pub take_entry : String → String → Reader S → Reader S
  take_entry key value p =
      let (r, s) = entry_cb key value p.store in record p { rslt = merge p.rslt r; store = s }

  -- a line that is neither the first nor part of an error message
  unfoldable pub take_line : String → Reader S → Reader S
  take_line line p =
      let (key, value) = key_value line in
      let checked = record p {
        rslt = elim (split_at b':' line) [ none ↦ err no_colon | some _ ↦ p.rslt ];
      } in
      if key == "ral_error"
      then record checked { in_error = true; errmsg = value }
      else take_entry key value checked

  -- `out_cb`; the script is read on while `rslt` is good
  unfoldable pub out_cb : String → Reader S → Reader S
  out_cb line p =
      let q = record p { line_cnt = p.line_cnt + 1 } in
      if nat_eq q.line_cnt 1
      then (if line == "# simple" then q else record q { rslt = err no_header })
      else if q.in_error
      then (if line == "ral_eom"
          then record q { rslt = err q.errmsg }
          else record q { errmsg = q.errmsg <> line })
      else take_line line q

  -- `each_line`: calls `out_cb` until it returns false.
  unfoldable pub each_line : List String → Reader S → Reader S
  each_line [] p = p
  each_line (l ∷ ls) p =
      let q = out_cb l p in let rest = each_line ls q in if is_ok q.rslt then rest else q

abbrev pub start : {S : Type 0} → S → Reader S
start s = record { line_cnt = 0; in_error = false; errmsg = ""; rslt = ok tt; store = s }

-- the message for a script that failed and reported no error
unfoldable pub failure : String → String → String → String
failure path action errmsg =
    if empty errmsg
    then "Something went wrong running %s ral_action=%s"
    else "Something went wrong running %s ral_action=%s\n%s"

-- what `run_action` returns after the last line
unfoldable pub finish : {S : Type 0} → String → String → Bool → Reader S → Result (Unit {0})
unfolding failure
finish path action success p =
    if not success && is_ok p.rslt then err (failure path action p.errmsg) else p.rslt

-- `run_action(ctx, action, entry_cb, args)`: the result, what the callback left, and the system
unfoldable pub run_action :
    {S W : Type 0}
    → Script W
    → String
    → (String → String → Exec S (Unit {0}))
    → List String
    → S
    → W
    → Result (Unit {0}) × S × W
run_action script action entry_cb args s w =
    let (reply, w') = script.run (args ++ (("ral_action=" <> action) ∷ [])) w in
    let p = each_line entry_cb reply.lines (start s) in
    (finish script.path action reply.success p, p.store, w')
