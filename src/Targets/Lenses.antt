-- ===== src/Targets/Lenses.antt =====
-- `ssh::augeas`: the files of a target are read into the tree of Augeas, and the ones that change
-- are written back. Augeas is a library, and a parameter.
use libral.Base.{
  Char, String, Option, none, some, List, ◌∷◌, [], ◌==◌, if◌then◌else◌, Result, ok, err, throws,
  undefined, code, nat_eq, Exec, bind,
}
use libral.Base.Text.{◌<>◌}
use Prim.Native.String.{[] as nil, ◌∷◌ as cons}
use libral.Targets.Session.{Local, Remote, Session}
use libral.Targets.Ssh.{read, write}

-- `aug_set`, `aug_get`, `aug_text_store` and `aug_text_retrieve`
pub record Augeas (A : Type 0) : Type 0 where
  pub set : String → String → A → A
  pub get : String → A → Option String
  pub text_store : String → String → String → A → A
  pub text_retrieve : String → String → String → String → A → A

-- The last character of a text, which is undefined for the empty one.
unfoldable pub back : String → Option Char
back nil = none
back (cons c nil) = some c
back (cons c (cons d s)) = back (cons d s)

abbrev after_last : String → Option Char → Result String
after_last s none = throws undefined
after_last s (some c) = ok (if nat_eq (code c) 10 then s else s <> "\n")

-- The text with a line feed at its end.
unfoldable pub end_line : String → Result String
unfolding back
end_line s = after_last s (back s)

abbrev pub in_path : String → String
in_path file = "/in" <> file

abbrev pub files_path : String → String
files_path file = "/files" <> file

abbrev pub out_path : String → String
out_path file = "/out" <> file

module _ {W A : Type 0} (sys : Local W) (r : Remote) (lib : Augeas A) where
  abbrev pub Both : Type 0
  Both = A × Session W

  abbrev store_text : String → String → Session W → A → Result String → Result (Unit {0}) × Both
  store_text lens file s a (ok text) = (
    ok tt,
    (lib.text_store lens (in_path file) (files_path file) (lib.set (in_path file) text a), s),
  )
  store_text lens file s a (err e) = (err e, (a, s))
  store_text lens file s a (throws x) = (throws x, (a, s))

  -- A file that cannot be read is left out.
  abbrev store_read : String → String → A → Result String × Session W → Result (Unit {0}) × Both
  store_read lens file a (ok text, s) = store_text lens file s a (end_line text)
  store_read lens file a (err e, s) = (ok tt, (a, s))
  store_read lens file a (throws x, s) = (throws x, (a, s))

  -- the body of `reader`
  unfoldable pub read_file : String → String → Exec Both (Unit {0})
  unfolding end_line
  read_file lens file (a, s) = store_read lens file a (read sys r file s)

  -- the part of `writer` behind a write
  abbrev mark_failed : String → A → Result (Unit {0}) × Session W → Result (Unit {0}) × Both
  mark_failed file a (ok _, s) = (ok tt, (a, s))
  mark_failed file a (err e, s) =
      let node = "/augeas" <> files_path file <> "/error" in
      (ok tt, (lib.set (node <> "/message") e (lib.set node "write_failed" a), s))
  mark_failed file a (throws x, s) = (throws x, (a, s))

  unfoldable pub write_text : String → String → Exec Both (Unit {0})
  write_text file text (a, s) = mark_failed file a (write sys r text file s)

  -- `text_in` and `text_out`: a file is written if both are there and differ.
  abbrev pub write_changed : String → Option String → Option String → Exec Both (Unit {0})
  write_changed file (some before) (some after) b =
      if before == after then (ok tt, b) else write_text file after b
  write_changed file _ _ b = (ok tt, b)

  -- the body of `writer`
  unfoldable pub write_file : String → String → Exec Both (Unit {0})
  write_file lens file (a, s) =
      let a' = lib.text_retrieve lens (in_path file) (files_path file) (out_path file) a in
      write_changed file (lib.get (in_path file) a') (lib.get (out_path file) a') (a', s)

  -- `reader` and `writer`, the loops over the pairs of a lens and a file
  unfoldable pub reader : List (String × String) → Exec Both (Unit {0})
  reader [] b = (ok tt, b)
  reader ((lens, file) ∷ xfms) b = bind (read_file lens file) (λ _. reader xfms) b

  unfoldable pub writer : List (String × String) → Exec Both (Unit {0})
  writer [] b = (ok tt, b)
  writer ((lens, file) ∷ xfms) b = bind (write_file lens file) (λ _. writer xfms) b
