-- ===== src/File/Set.antt =====
-- `file_provider::set`
use libral.Base.{
  String, Bool, not, ◌&&◌, List, [], ◌∷◌, ◌==◌, if◌then◌else◌, ok, Exec, bind, pure, fail,
}
use libral.Base.Text.{◌<>◌}
use libral.Value.{text}
use libral.Resource.{Update, name, lookup_text_or}
use libral.Context.{changes_for, record_changes, add}
use libral.Provider.{Call}
use libral.File.Steps.{
  Files, remove, create_file, create_directory, update_metadata, update_content, update_target,
}

-- The type of the file as it is, 'absent' if there is none.
unfoldable pub state_of : Update → String
state_of u =
    let state = lookup_text_or u.is "ensure" "absent" in
    if state == "present" then lookup_text_or u.is "type" "file" else state

-- 'present' stands for the type that the file has, or for 'file'.
unfoldable pub settle : String → String → String
settle state ensure =
    if ensure == "present" then (if state == "absent" then "file" else state) else ensure

unfoldable pub ensure_of : Update → String
ensure_of u = settle (state_of u) (lookup_text_or u.should "ensure" (state_of u))

unfoldable pub force_of : Update → Bool
force_of u = lookup_text_or u.should "force" "false" == "true"

-- A directory would become something else without `force`.
unfoldable pub is_guarded : String → String → Bool → Bool
is_guarded state ensure force = state == "directory" && (not (state == ensure) && not force)

unfoldable pub record_ensure : {W : Type 0} → Update → String → String → Exec (Call W) (Unit {0})
record_ensure u ensure state c = (
  ok tt,
  record c {
    recorded =
        record_changes (name u)
          (add "ensure" (text ensure) (text state) (changes_for (name u) c.recorded)) c.recorded;
  },
)

module _ {W : Type 0} (files : Files W) where
  -- Removes a file of another type; the result is the state that is left.
  unfoldable pub clear : Update → String → String → Bool → Exec (Call W) String
  clear u state ensure force =
      if state == ensure
      then pure state
      else bind (remove files (name u) state force)
          (λ _. bind (record_ensure u ensure "absent") (λ _. pure "absent"))

  -- The table of what is done, once the file is of the right type or absent.
  unfoldable pub bring_to : Update → String → String → Bool → Exec (Call W) (Unit {0})
  bring_to u state ensure force =
      if ensure == "file"
      then bind (if state == "absent" then create_file files (name u) else pure tt)
          (λ _. bind (update_metadata files u) (λ _. update_content files u))
      else if ensure == "directory"
      then bind (if state == "absent" then create_directory files (name u) else pure tt)
          (λ _. update_metadata files u)
      else if ensure == "link"
      then bind (update_target files u) (λ _. update_metadata files u)
      else if ensure == "absent"
      then remove files (name u) state force
      else fail ("Illegal ensure value '" <> ensure <> "'")

  unfoldable pub change_to : Update → String → String → Bool → Exec (Call W) (Unit {0})
  change_to u state ensure force =
      if is_guarded state ensure force
      then fail ("Cannot change file '" <> name u <> "' from directory to " <> ensure)
      else bind (clear u state ensure force) (λ left. bring_to u left ensure force)

  -- `set(ctx, upd)`
  unfoldable pub set_one : Update → Exec (Call W) (Unit {0})
  set_one u = change_to u (state_of u) (ensure_of u) (force_of u)

  -- `set(ctx, upds)`
  unfoldable pub set : List Update → Exec (Call W) (Unit {0})
  set [] = pure tt
  set (u ∷ us) = bind (set_one u) (λ _. set us)
