-- ===== src/Mount/Saving.antt =====
-- Nothing is mounted or unmounted before the table is saved.
use libral.Base.{
  String, Bool, true, false, ◌==◌, if◌then◌else◌, Result, ok, err, throws, Exec, bind, continue,
  is_ok, ◌≡◌, refl,
}
use libral.Resource.{Update, name}
use libral.Context.{add_attr}
use libral.Provider.{Call}
use libral.Accounts.Tools.{Tool}
use libral.Mount.Set.{
  Mounts, on_system, note, base, require, set_optional, fill_base, update_base, update_fstab,
  remove_from_fstab, flush, unmount, mount, bring_to, set_one,
}

-- The same tree with other commands.
abbrev pub with_commands : {W : Type 0} → Tool W → Tool W → Mounts W → Mounts W
with_commands t s m = record m { mount_cmd = t; umount_cmd = s }

-- Saving fails in every state of the system.
abbrev pub NeverSaves : {W : Type 0} → Mounts W → Type 0
NeverSaves {W} m = (w : W) → is_ok (m.aug.save w).0 ≡ false

module _ {A B S : Type 0} where
  continue_same :
      (r : Result A) (f g : A → Exec S B) (s : S)
      → ((a : A) (s' : S) → f a s' ≡ g a s')
      → continue r f s ≡ continue r g s
  continue_same (ok a) f g s h = h a s
  continue_same (err e) f g s h = refl
  continue_same (throws x) f g s h = refl

  continue_failed :
      (r : Result A) (f g : A → Exec S B) (s : S)
      → is_ok r ≡ false
      → continue r f s ≡ continue r g s
  continue_failed (ok a) f g s h = cc
  continue_failed (err e) f g s h = refl
  continue_failed (throws x) f g s h = refl

  bind_same :
      (p q : Exec S A) (f g : A → Exec S B)
      → ((s : S) → p s ≡ q s)
      → ((a : A) (s : S) → f a s ≡ g a s)
      → (s : S) → bind p f s ≡ bind q g s
  bind_same p q f g h k s = rw (h s) (continue_same (q s).0 f g (q s).1 k)

if_same :
    {A S : Type 0} (b : Bool) (x x' y y' : Exec S A)
    → ((s : S) → x s ≡ x' s)
    → ((s : S) → y s ≡ y' s)
    → (s : S) → (if b then x else y) s ≡ (if b then x' else y') s
if_same true x x' y y' h k s = h s
if_same false x x' y y' h k s = k s

module _ {W : Type 0} (m : Mounts W) (t s : Tool W) (unsaved : NeverSaves m) where
  mount_same :
      (n state : String) (c : Call W) → mount m n state c ≡ mount (with_commands t s m) n state c
  unfolding mount flush on_system
  mount_same n state c = continue_failed (m.aug.save c.world).0 _ _ _ (unsaved c.world)

  unmount_same :
      (n state : String) (c : Call W)
      → unmount m n state c ≡ unmount (with_commands t s m) n state c
  unfolding unmount flush on_system
  unmount_same n state c = continue_failed (m.aug.save c.world).0 _ _ _ (unsaved c.world)

  fstab_same :
      (u : Update) (c : Call W) → update_fstab m u c ≡ update_fstab (with_commands t s m) u c
  unfolding update_fstab update_base base require set_optional fill_base
  fstab_same u c = refl

  remove_same :
      (u : Update) (c : Call W)
      → remove_from_fstab m u c ≡ remove_from_fstab (with_commands t s m) u c
  unfolding remove_from_fstab base
  remove_same u c = refl

  bring_to_same :
      (u : Update) (state ensure : String) (c : Call W)
      → bring_to m u state ensure c ≡ bring_to (with_commands t s m) u state ensure c
  unfolding bring_to
  bring_to_same u state ensure =
      let n = name u in
      if_same (ensure == "present") _ _ _ _ (fstab_same u) (
        if_same (ensure == "absent") _ _ _ _
          (bind_same _ _ _ _ (unmount_same n state) (λ _. remove_same u))
          (if_same (ensure == "unmounted") _ _ _ _
            (bind_same _ _ _ _ (unmount_same n state) (λ _. fstab_same u))
            (if_same (ensure == "mounted") _ _ _ _
              (bind_same _ _ _ _ (fstab_same u) (λ _. mount_same n state)) (λ c. refl))))

  -- While the tree cannot be saved, what `set` does and returns for an update is the same whatever
  -- the commands `mount` and `umount` are: neither of them is run.
  pub set_one_unsaved :
      (u : Update) (c : Call W) → set_one m u c ≡ set_one (with_commands t s m) u c
  unfolding set_one
  set_one_unsaved u c =
      continue_same (note u (add_attr "ensure" u) c).0 _ _ _ (λ _ c'. bring_to_same u _ _ c')
