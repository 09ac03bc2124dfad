-- ===== src/File/Removal.antt =====
-- What the removal of a file does and records.
use libral.Base.{String, Bool, true, Result, ok, err, throws, Exec, bind, continue, pure, ◌≡◌, refl}
use libral.Resource.{Update, name}
use libral.Provider.{Call}
use libral.File.Steps.{Files, remove, remove_tree}
use libral.File.Set.{
  state_of, ensure_of, force_of, is_guarded, record_ensure, clear, bring_to, change_to, set_one,
}

-- What may be removed: a file, a link, and by `force` a directory.
pub data IsRemovable : String → Bool → Type 0 where
  a_file : (force : Bool) → IsRemovable "file" force
  a_link : (force : Bool) → IsRemovable "link" force
  a_directory : IsRemovable "directory" true

module _ {W : Type 0} (files : Files W) (u : Update) where
  -- The file is removed, and a change from 'absent' to 'absent' is recorded.
  abbrev pub removed : Exec (Call W) (Unit {0})
  removed = bind (remove_tree files (name u)) (λ _. record_ensure u "absent" "absent")

  abbrev cleared : Unit {0} → Exec (Call W) String
  cleared _ = bind (record_ensure u "absent" "absent") (λ _. pure "absent")

  after_removal :
      (force : Bool) (r : Result (Unit {0})) (c : Call W)
      → continue
          (continue r cleared c).0
          (λ left. bring_to files u left "absent" force)
          (continue r cleared c).1
        ≡ continue r (λ _. record_ensure u "absent" "absent") c
  unfolding bring_to remove record_ensure
  after_removal force (ok a) c = refl
  after_removal force (err e) c = refl
  after_removal force (throws x) c = refl

  change_to-removed :
      (state : String) (force : Bool) (c : Call W)
      → IsRemovable state force
      → change_to files u state "absent" force c ≡ removed c
  unfolding change_to is_guarded clear remove
  change_to-removed state force c (a_file f) =
      after_removal f (remove_tree files (name u) c).0 (remove_tree files (name u) c).1
  change_to-removed state force c (a_link f) =
      after_removal f (remove_tree files (name u) c).0 (remove_tree files (name u) c).1
  change_to-removed state force c a_directory =
      after_removal true (remove_tree files (name u) c).0 (remove_tree files (name u) c).1

  -- Where a file that may be removed is to be absent, `set` removes it once and, if that succeeds,
  -- records a change of "ensure" to 'absent' whose old value is 'absent' too.
  pub set_one_removes :
      (c : Call W)
      → IsRemovable (state_of u) (force_of u)
      → ensure_of u ≡ "absent"
      → set_one files u c ≡ removed c
  unfolding set_one
  set_one_removes c removable gone =
      rw (gone, set_one) (change_to-removed (state_of u) (force_of u) c removable)
