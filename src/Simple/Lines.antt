-- ===== src/Simple/Lines.antt =====
-- How the machine takes a line '<KEY>: <VALUE>' while nothing has gone wrong.
use Prim.Native.String.{[] as nil, ◌∷◌ as cons}
use Prim.Native.String.append as clauses
use libral.Base.{
  ℕ, suc, ◌+◌, String, false, some, ok, Exec, ◌≡◌, ◌≢◌, refl, ap, ◌∙◌, arith, ==_false, nat_eq,
}
use libral.Base.Text.{◌<>◌, trim, split_at}
use libral.Base.Text.Laws.{Free, split_at-append, trim_space}
use libral.Simple.Protocol.{Reader, key_value, take_entry, take_line, out_cb}

-- the line of an entry
abbrev pub line : String → String → String
line key value = key <> ": " <> value

-- The machine after `n + 1` lines that it could read.
abbrev pub running : {S : Type 0} → ℕ → S → Reader S
running n s = record { line_cnt = suc n; in_error = false; errmsg = ""; rslt = ok tt; store = s }

colon-append : (v : String) → ": " <> v ≡ cons ":" (cons " " v)
colon-append v =
    clauses.cons ":" " " v ∙ ap (cons ":") (clauses.cons " " nil v ∙ ap (cons " ") (clauses.nil v))

pub split_at-line : (k v : String) → Free b':' k → split_at b':' (line k v) ≡ some (k, cons " " v)
split_at-line k v free = rw colon-append (split_at-append b':' k ":" (cons " " v) free refl)

pub key_value-line : (k v : String) → Free b':' k → trim v ≡ v → key_value (line k v) ≡ (k, v)
unfolding key_value
key_value-line k v free trimmed =
    rw (split_at-line k v free, key_value) (ap (λ t. (k, t)) (trim_space " " v refl ∙ trimmed))

module _ {S : Type 0} (cb : String → String → Exec S (Unit {0})) where
  take_entry-ok :
      (k v : String) (p : Reader S) (s' : S)
      → cb k v p.store ≡ (ok tt, s')
      → take_entry cb k v p ≡ record p { store = s' }
  unfolding take_entry
  take_entry-ok k v p s' taken = rw taken refl

  take_line-line :
      (k v : String) (p : Reader S)
      → Free b':' k
      → trim v ≡ v
      → k ≢ "ral_error"
      → take_line cb (line k v) p ≡ take_entry cb k v p
  unfolding take_line
  take_line-line k v p free trimmed plain =
      rw (key_value-line k v free trimmed, split_at-line k v free, ==_false k "ral_error" plain)
        refl

  -- An entry that the callback takes moves the machine on by one line.
  pub out_cb-line :
      (k v : String) (n : ℕ) (s s' : S)
      → Free b':' k
      → trim v ≡ v
      → k ≢ "ral_error"
      → cb k v s ≡ (ok tt, s')
      → out_cb cb (line k v) (running n s) ≡ running (suc n) s'
  unfolding out_cb
  out_cb-line k v n s s' free trimmed plain taken =
      let counted : nat_eq (suc n + 1) 1 ≡ false = ground arith in
      rw counted (
        take_line-line k v _ free trimmed plain
        ∙ take_entry-ok k v _ s' taken
        ∙ ap (λ (m : ℕ). record (running n s') { line_cnt = m }) {y = suc (suc n)} (omega arith))
