-- ===== src/File/Changing.antt =====
-- What a change of the file's type comes to.
use libral.Base.{
  String, Bool, true, false, Option, none, some, Result, ok, err, throws, Exec, bind, continue,
  pure, if◌then◌else◌, ◌≡◌, refl, is_ok,
}
use libral.Resource.{Update, name, lookup_text, lookup_text_or}
use libral.Provider.{Call}
use libral.File.Steps.{Files, remove, remove_tree, update_target, point_to, update_metadata}
use libral.File.Set.{
  state_of, ensure_of, force_of, is_guarded, set_one, change_to, clear, bring_to, record_ensure,
}

module _ {W : Type 0} where
  -- A failure with this file system behind it.
  abbrev pub FailsWith : {A : Type 0} → W → Result A × Call W → Type 0
  FailsWith w done = (is_ok done.0 ≡ false) × (done.1.world ≡ w)

  -- What follows a failure is not done.
  continue_fails :
      {A B : Type 0} (r : Result A) (f : A → Exec (Call W) B) (c : Call W) (w : W)
      → FailsWith w (r, c)
      → FailsWith w (continue r f c)
  continue_fails (ok a) f c w h = let e = h.0 in cc
  continue_fails (err e) f c w h = h
  continue_fails (throws x) f c w h = h

  nested_fails :
      {A B C : Type 0} (r : Result A) (f : A → Exec (Call W) B) (g : B → Exec (Call W) C)
      → (c : Call W) → ((a : A) → FailsWith c.world (bind (f a) g c))
      → FailsWith c.world (continue (continue r f c).0 g (continue r f c).1)
  nested_fails (ok a) f g c h = h a
  nested_fails (err e) f g c h = (refl, refl)
  nested_fails (throws x) f g c h = (refl, refl)

module _ {W : Type 0} (files : Files W) (u : Update) where
  point_to_fails :
      (target : Option String) (c : Call W)
      → FailsWith c.world (point_to files u "directory" target c)
  unfolding point_to remove
  point_to_fails none c = (refl, refl)
  point_to_fails (some t) c = (refl, refl)

  target_fails :
      (c : Call W)
      → lookup_text_or u.is "ensure" "absent" ≡ "directory"
      → FailsWith c.world (update_target files u c)
  unfolding update_target
  target_fails c is_dir =
      rw (is_dir, update_target) (point_to_fails (lookup_text u.should "target") c)

  link_fails :
      (c : Call W)
      → lookup_text_or u.is "ensure" "absent" ≡ "directory"
      → FailsWith c.world (bring_to files u "absent" "link" true c)
  unfolding bring_to
  link_fails c is_dir =
      continue_fails (update_target files u c).0 (λ _. update_metadata files u)
        (update_target files u c).1 c.world (target_fails c is_dir)

  -- The file system where a directory is given up: it is removed if that is forced.
  abbrev pub given_up : Bool → Call W → W
  given_up force c = if force then (remove_tree files (name u) c).1.world else c.world

  change_fails :
      (force : Bool) (c : Call W)
      → lookup_text_or u.is "ensure" "absent" ≡ "directory"
      → FailsWith (given_up force c) (change_to files u "directory" "link" force c)
  unfolding change_to is_guarded clear remove record_ensure
  change_fails false c is_dir = (refl, refl)
  change_fails true c is_dir =
      let gone = remove_tree files (name u) c in
      nested_fails gone.0 (λ _. bind (record_ensure u "link" "absent") (λ _. pure "absent"))
        (λ left. bring_to files u left "link" true) gone.1
        (λ _. link_fails (record_ensure u "link" "absent" gone.1).1 is_dir)

  -- Where a directory is to be a link, `set` does not succeed. With `force` it leaves the file system
  -- as removing the directory with all in it leaves it, and without `force` as it was: no link is
  -- made.
  pub directory_to_link_fails :
      (c : Call W)
      → lookup_text_or u.is "ensure" "absent" ≡ "directory"
      → ensure_of u ≡ "link"
      → FailsWith (given_up (force_of u) c) (set_one files u c)
  unfolding set_one state_of
  directory_to_link_fails c is_dir to_link =
      rw (is_dir, state_of, to_link, set_one) (change_fails (force_of u) c is_dir)
