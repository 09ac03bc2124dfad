-- ===== src/File/Steps.antt =====
-- The calls of the file system that the file provider makes, and the methods that bring a file to
-- what an update asks for.
use libral.Base.{
  ℕ, String, Bool, false, not, ◌&&◌, ◌||◌, Option, none, some, [], ◌∷◌, ◌==◌, if◌then◌else◌, Result,
  ok, err, throws, Exec, bind, continue, nat_eq, ltb, pure, fail, lift,
}
use libral.Base.Text.{◌<>◌}
use libral.Value.{text, is_present}
use libral.Resource.{Update, name, index, lookup_text, lookup_text_or}
use libral.Context.{Changes, changes_for, record_changes, add, add_attr, add_attrs, exists}
use libral.Provider.{Call}

-- Calls of boost::filesystem, the file streams and the system on a file system `W`. A call that
-- fails gives the message of its error code and may have changed something; that of `lchown` is the
-- number in errno, ']: ', and its text. `stoi` gives a 32-bit word and the number of characters that
-- it read, and `size` is the length of a text.
pub record Files (W : Type 0) : Type 0 where
  pub remove_all : String → Exec W (Unit {0})
  pub create_symlink : String → String → Exec W (Unit {0})
  pub create_directory : String → Exec W (Unit {0})
  pub truncate : String → W → Option W
  pub read : String → W → Option String
  pub write : String → String → W → Option W
  pub lchown : String → Option ℕ → Option ℕ → Exec W (Unit {0})
  pub permissions : String → ℕ → Exec W (Unit {0})
  pub stoi : ℕ → String → Result (ℕ × ℕ)
  pub size : String → ℕ

-- A call with the words that the provider puts before the error's message.
unfoldable pub explain : {A : Type 0} → String → Result A → Result A
explain words (err e) = err (words <> e)
explain words (ok a) = ok a
explain words (throws x) = throws x

-- A call on the file system within a call of the provider.
unfoldable pub on_files : {W A : Type 0} → Exec W A → Exec (Call W) A
on_files m c = ((m c.world).0, record c { world = (m c.world).1 })

-- A call whose stream may not open.
unfoldable pub opening : {W : Type 0} → String → (W → Option W) → Exec (Call W) (Unit {0})
opening words call c = elim (call c.world) [
  | none ↦ (err words, c)
  | some w ↦ (ok tt, record c { world = w })
]

module _ {W : Type 0} (files : Files W) where
  -- `remove_all`, with the words for its error
  unfoldable pub remove_tree : String → Exec (Call W) (Unit {0})
  unfolding explain
  remove_tree path c =
      let done = on_files (files.remove_all path) c in
      (explain ("failed to remove '" <> path <> "': ") done.0, done.1)

  -- `remove(path, state, force)`
  unfoldable pub remove : String → String → Bool → Exec (Call W) (Unit {0})
  remove path state force c =
      if state == "absent"
      then (ok tt, c)
      else if state == "directory" && not force
      then (err "file '{1}' is a directory. Can not remove that since force is not set to true", c)
      else if state == "directory" || (state == "file" || state == "link")
      then remove_tree path c
      else (err ("can not remove a '" <> state <> "' - unknown file type"), c)

  -- `create_file(name)`
  unfoldable pub create_file : String → Exec (Call W) (Unit {0})
  create_file path = opening ("Could not create file '" <> path <> "'") (files.truncate path)

  -- `create_directory(name)`
  unfoldable pub create_directory : String → Exec (Call W) (Unit {0})
  create_directory path c =
      let done = on_files (files.create_directory path) c in
      (explain ("failed to create directory '" <> path <> "': ") done.0, done.1)

  -- `owner_to_uid` and `group_to_gid`: `kind` is "uid" or "gid"; the number is a 32-bit word.
  unfoldable pub to_id : String → String → Result ℕ
  to_id kind s = elim (files.stoi 10 s) [
    | ok n ↦ ok n.0
    | err e ↦ err ("failed to convert '" <> s <> "' into a " <> kind <> " [" <> e <> "]")
    | throws x ↦ throws x
  ]

  -- The id for `lchown`, where -1 (no change) is `none`.
  unfoldable pub id_of : String → Option String → Result (Option ℕ)
  id_of kind none = ok none
  id_of kind (some s) = elim (to_id kind s) [
    | ok n ↦ ok (some n)
    | err e ↦ err e
    | throws x ↦ throws x
  ]

  unfoldable pub change_owner : Update → Exec (Call W) (Unit {0})
  unfolding explain
  change_owner u = bind (lift (id_of "uid" (lookup_text u.should "owner"))) (λ uid.
      bind (lift (id_of "gid" (lookup_text u.should "group"))) (λ gid. λ c.
        let done = on_files (files.lchown (name u) uid gid) c in
        (explain "cannot set owner/group [lchown, errno=" done.0, done.1)))

  -- The number that the text of a mode stands for.
  unfoldable pub read_mode : String → Result ℕ
  read_mode s = elim (files.stoi 8 s) [
    | ok n ↦
        if not (nat_eq n.1 (files.size s))
        then err ("mode '" <> s <> "' is not a valid octal number")
        else if ltb 4095 n.0
        then err ("mode '" <> s <> "' sets bits outside of mask 4095")
        else ok n.0
    | err e ↦ err ("failed to parse mode '" <> s <> "': " <> e)
    | throws x ↦ throws x
  ]

  unfoldable pub change_mode : Update → Exec (Call W) (Unit {0})
  change_mode u = elim (lookup_text u.should "mode") [
    | none ↦ fail "internal error: should['mode'] is not a string"
    | some s ↦ bind (lift (read_mode s)) (λ m. λ c.
        let done = on_files (files.permissions (name u) m) c in
        (explain ("failed to change mode to '" <> s <> "': ") done.0, done.1))
  ]

  -- `update_metadata(ctx, upd)`
  unfoldable pub record_metadata : Update → Exec (Call W) Changes
  record_metadata u c =
      continue (add_attrs ("owner" ∷ "group" ∷ "mode" ∷ []) u (changes_for (name u) c.recorded))
        (λ added c'.
          (ok added.1, record c' { recorded = record_changes (name u) added.1 c'.recorded }))
        c

  unfoldable pub update_metadata : Update → Exec (Call W) (Unit {0})
  update_metadata u = bind (record_metadata u) (λ chgs.
      bind (if exists "owner" chgs || exists "group" chgs then change_owner u else pure tt)
        (λ _. if exists "mode" chgs then change_mode u else pure tt))

  -- The file's text, read and, if it is not `content`, written.
  unfoldable pub rewrite : Update → String → String → Exec (Call W) (Unit {0})
  rewrite u content now c =
      if now == content
      then (ok tt, c)
      else bind
          (opening ("Could not create file '" <> name u <> "'") (files.write (name u) content))
          (λ _ c'.
            let chgs = add "content" (text content) (text now) (changes_for (name u) c'.recorded) in
            (ok tt, record c' { recorded = record_changes (name u) chgs c'.recorded }))
          c

  unfoldable pub compare_with : Update → String → Option String → Exec (Call W) (Unit {0})
  compare_with u content none = fail ("Could not open file '" <> name u <> "' for reading")
  compare_with u content (some now) = rewrite u content now

  unfoldable pub fill : Update → Option String → Exec (Call W) (Unit {0})
  fill u none c =
      bind (lift (index u.should "content"))
        (λ v.
          if is_present v then fail "illegal value for 'content': it must be a string" else pure tt)
        c
  fill u (some content) c = compare_with u content (files.read (name u) c.world) c

  -- `update_content(ctx, upd)`
  unfoldable pub update_content : Update → Exec (Call W) (Unit {0})
  update_content u = fill u (lookup_text u.should "content")

  -- The part of `update_target` that makes the link and records the change of "target".
  unfoldable pub make_link : Update → String → Exec (Call W) (Unit {0})
  unfolding explain
  make_link u target =
      bind
        (λ c.
          let done = on_files (files.create_symlink target (name u)) c in
          (
            explain ("failed to create symlink '" <> name u <> "' with target '" <> target <> "': ")
                done.0,
            done.1,
          ))
        (λ _ c.
          continue (add_attr "target" u (changes_for (name u) c.recorded))
            (λ added c'.
              (ok tt, record c' { recorded = record_changes (name u) added.1 c'.recorded }))
            c)

  unfoldable pub point_to : Update → String → Option String → Exec (Call W) (Unit {0})
  point_to u state none = fail ("ensure for '" <> name u <> "' is 'link', but target is not set")
  point_to u state (some target) =
      bind (if not (state == "absent") then remove (name u) state false else pure tt)
        (λ _. make_link u target)

  -- `update_target(ctx, upd)`
  unfoldable pub update_target : Update → Exec (Call W) (Unit {0})
  update_target u =
      point_to u (lookup_text_or u.is "ensure" "absent") (lookup_text u.should "target")
