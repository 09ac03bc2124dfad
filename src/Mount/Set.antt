-- ===== src/Mount/Set.antt =====
-- `mount_provider::set`
use libral.Base.{
  String, Bool, not, ◌&&◌, List, [], ◌∷◌, ◌==◌, if◌then◌else◌, Result, ok, Exec, bind, continue,
  pure, fail, lift,
}
use libral.Base.Text.{◌<>◌}
use libral.Value.{Value, text, is_present}
use libral.Resource.{Update, name, current, present, lookup_text_or}
use libral.Context.{Changes, changes_for, record_changes, add_attr, add_attrs}
use libral.Provider.{Call}
use libral.Accounts.Tools.{Tool}
use libral.Mount.Tree.{Handle, set as set_node, set_or, erase, rm, resolve}

-- The tree, and the commands `mount` and `umount`.
pub record Mounts (W : Type 0) : Type 0 where
  pub aug : Handle W
  pub mount_cmd : Tool W
  pub umount_cmd : Tool W

-- A method on the system within a call of the provider.
unfoldable pub on_system : {W A : Type 0} → Exec W A → Exec (Call W) A
on_system m c = ((m c.world).0, record c { world = (m c.world).1 })

-- changes that are added to those of the update's resource
unfoldable pub note :
    {W : Type 0} → Update → (Changes → Result (Bool × Changes)) → Exec (Call W) (Unit {0})
note u adding c =
    continue (adding (changes_for (name u) c.recorded))
      (λ added c'. (ok tt, record c' { recorded = record_changes (name u) added.1 c'.recorded })) c

module _ {W : Type 0} (m : Mounts W) where
  -- `base(upd)`
  unfoldable pub base : Update → Exec W String
  base u w =
      if present u
      then (ok (resolve m.aug ("/files/etc/fstab/*[file = '" <> name u <> "']") w), w)
      else m.aug.next "/files/etc/fstab" w

  unfoldable pub require : Update → String → Exec W Value
  require u key = bind (lift (current u key)) (λ v.
      if is_present v
      then pure v
      else fail ("The mount " <> name u <> " is missing the '" <> key <> "' field"))

  unfoldable pub set_optional : Update → String → String → String → String → Exec W (Unit {0})
  set_optional u node label key dflt =
      bind (lift (current u key)) (λ v. set_or m.aug node label v dflt)

  unfoldable pub fill_base : Update → Value → Value → String → Exec W (Unit {0})
  fill_base u device fstype node = bind (erase m.aug node) (λ _.
      bind (set_node m.aug node "spec" device) (λ _.
        bind (set_node m.aug node "file" (text (name u))) (λ _.
          bind (set_node m.aug node "vfstype" fstype) (λ _.
            bind (set_optional u node "options" "options" "defaults") (λ _.
              bind (set_optional u node "dump" "dump" "0")
                (λ _. set_optional u node "passno" "pass" "0"))))))

  -- `update_base(upd)`
  unfoldable pub update_base : Update → Exec W (Unit {0})
  update_base u =
      bind (require u "device")
        (λ device. bind (require u "fstype") (λ fstype. bind (base u) (fill_base u device fstype)))

  -- `update_fstab(upd, changes)`
  unfoldable pub update_fstab : Update → Exec (Call W) (Unit {0})
  update_fstab u =
      bind (note u (add_attrs ("device" ∷ "fstype" ∷ "options" ∷ "dump" ∷ "pass" ∷ []) u))
        (λ _. on_system (update_base u))

  unfoldable pub remove_from_fstab : Update → Exec (Call W) (Unit {0})
  remove_from_fstab u = on_system (bind (base u) (rm m.aug))

  -- `flush()`
  unfoldable pub flush : Exec (Call W) (Unit {0})
  flush = on_system m.aug.save

  unfoldable pub unmount : String → String → Exec (Call W) (Unit {0})
  unmount n state = bind flush (λ _.
      if not (state == "unmounted") && not (state == "absent")
      then on_system (m.umount_cmd (n ∷ []))
      else pure tt)

  unfoldable pub mount : String → String → Exec (Call W) (Unit {0})
  mount n state =
      bind flush
        (λ _. if not (state == "mounted") then on_system (m.mount_cmd (n ∷ [])) else pure tt)

  -- the branches of `set` by the value of `ensure`
  unfoldable pub bring_to : Update → String → String → Exec (Call W) (Unit {0})
  bring_to u state ensure =
      if ensure == "present"
      then update_fstab u
      else if ensure == "absent"
      then bind (unmount (name u) state) (λ _. remove_from_fstab u)
      else if ensure == "unmounted"
      then bind (unmount (name u) state) (λ _. update_fstab u)
      else if ensure == "mounted"
      then bind (update_fstab u) (λ _. mount (name u) state)
      else fail ("ensure has illegal value '" <> ensure <> "'")

  -- `set(ctx, upd)`
  unfoldable pub set_one : Update → Exec (Call W) (Unit {0})
  set_one u =
      let state = lookup_text_or u.is "ensure" "absent" in
      bind (note u (add_attr "ensure" u))
        (λ _. bring_to u state (lookup_text_or u.should "ensure" state))

  unfoldable pub set_all : List Update → Exec (Call W) (Unit {0})
  set_all [] = pure tt
  set_all (u ∷ us) = bind (set_one u) (λ _. set_all us)

  -- `set(ctx, upds)`
  unfoldable pub set : List Update → Exec (Call W) (Unit {0})
  set us = bind (set_all us) (λ _. flush)
