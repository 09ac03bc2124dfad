-- ===== src/File/Guard.antt =====
-- What `force` protects: a directory is not removed without it.
use libral.Base.{
  String, Bool, true, false, ◌==◌, Exec, ◌≡◌, ◌≢◌, refl, sym, eq_iff, Bool-cases, inl, inr,
  ==_false, ne_of_==_false,
}
use libral.Resource.{Update}
use libral.Provider.{Call}
use libral.File.Steps.{
  Files, update_metadata, record_metadata, change_owner, change_mode, id_of, to_id, read_mode,
}
use libral.File.Set.{state_of, ensure_of, force_of, is_guarded, set_one, change_to, clear, bring_to}

-- The file system with another `remove_all`.
abbrev pub removing_by : {W : Type 0} → (String → Exec W (Unit {0})) → Files W → Files W
removing_by r files = record files { remove_all = r }

module _ {W : Type 0} (files : Files W) (r : String → Exec W (Unit {0})) (u : Update)
    (c : Call W) where
  metadata_same : update_metadata files u c ≡ update_metadata (removing_by r files) u c
  unfolding update_metadata change_owner change_mode id_of to_id read_mode record_metadata
  metadata_same = refl

  stays_same :
      (force : Bool)
      → change_to files u "directory" "directory" force c
        ≡ change_to (removing_by r files) u "directory" "directory" force c
  unfolding change_to is_guarded clear bring_to
  stays_same true = metadata_same
  stays_same false = metadata_same

  guarded_same :
      (ensure : String)
      → ensure ≢ "directory"
      → change_to files u "directory" ensure false c
        ≡ change_to (removing_by r files) u "directory" ensure false c
  unfolding change_to is_guarded
  guarded_same ensure h = rw (==_false "directory" ensure (λ e. h (sym e))) refl

  -- Where the file is a directory and `force` is not set, what `set` does and returns is the same
  -- for every `remove_all`: it never removes anything.
  pub set_one_keeps_directory :
      state_of u ≡ "directory"
      → force_of u ≡ false
      → set_one files u c ≡ set_one (removing_by r files) u c
  unfolding set_one
  set_one_keeps_directory is_dir unforced = elim (Bool-cases (ensure_of u == "directory")) [
    | inl same ↦ rw (is_dir, unforced, (eq_iff (ensure_of u) "directory").0 same) (stays_same false)
    | inr other ↦
        rw (is_dir, unforced)
          (guarded_same (ensure_of u) (ne_of_==_false (ensure_of u) "directory" other))
  ]
