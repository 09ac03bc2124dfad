-- ===== src/Mount/Described.antt =====
-- What the mount provider holds once it is described.
use libral.Base.{false, true, String, ◌≡◌, arith, Result, ok, err, throws}
use libral.Base.Text.{empty}
use libral.Provider.{ProvSpec}
use libral.Augeas.Tree.{Library, Tree}
use libral.Targets.Local.{System}
use libral.Targets.Opening.{open_tree}
use libral.Metadata.Suitable.{
  Yaml, Items, Entries, hash, array, string, item, no_items, hash_get, entry_at, read_suitable,
  all_allow,
}
use libral.Metadata.Read.{provider_node}
use libral.Metadata.Environment.{parse_spec-read_suitable, IsFound, command-IsFound}
use libral.Metadata.Builtin.{describe_mount, mount_from, mount_lenses}

-- 'commands' of the provider's metadata, lib/src/mount.yaml
abbrev pub mount_commands : Items
mount_commands = item (string "mount") (item (string "umount") no_items)

both_found :
    (which : String → String) (name : String)
    → all_allow which name mount_commands ≡ ok true
    → (empty (which "mount") ≡ false) × (empty (which "umount") ≡ false)
unfolding all_allow libral.Metadata.Suitable.text_of libral.Metadata.Suitable.allows
both_found which name h = ground arith

suitable-all_allow :
    (which : String → String) (name : String) (node : Yaml) (es : Entries)
    → hash_get node "suitable" ≡ ok (hash es)
    → entry_at "commands" es ≡ array mount_commands
    → read_suitable which node name ≡ ok true
    → all_allow which name mount_commands ≡ ok true
unfolding read_suitable libral.Metadata.Suitable.suitable_of libral.Metadata.Suitable.commands_allow
suitable-all_allow which name node es asks all h = ground arith

module _ {W : Type 0} (sys : System W) (w : W) {A : Type 0} (lib : Library A)
    (opened : Tree A) where
  mount_from-IsFound :
      (doc node : Yaml) (es : Entries) (spec : ProvSpec)
      → provider_node doc ≡ ok node
      → hash_get node "suitable" ≡ ok (hash es)
      → entry_at "commands" es ≡ array mount_commands
      → spec.suitable ≡ true
      → (opening : Result (Tree A)) → (mount_from sys lib opened (ok doc) w opening).0 ≡ ok spec
      → let held = (mount_from sys lib opened (ok doc) w opening).1 in
        IsFound sys w "mount" held.mount × IsFound sys w "umount" held.umount
  mount_from-IsFound doc node es spec there asks all fine (ok t) made =
      let which = λ (cmd : String). sys.which cmd w in
      let passes = parse_spec-read_suitable sys w "mount" doc node spec there made fine in
      let (mounts, umounts) =
        both_found which "mount" (suitable-all_allow which "mount" node es asks all passes) in
      (command-IsFound sys w "mount" mounts, command-IsFound sys w "umount" umounts)
  mount_from-IsFound doc node es spec there asks all fine (err e) made = cc
  mount_from-IsFound doc node es spec there asks all fine (throws x) made = cc

  -- On this system: where the metadata of mounts asks for the commands `mount` and `umount` in this
  -- order and for no others, a mount provider that is suitable holds both, each by the path at which
  -- it is found.
  describe_mount-IsFound :
      (doc node : Yaml) (es : Entries) (spec : ProvSpec)
      → provider_node doc ≡ ok node
      → hash_get node "suitable" ≡ ok (hash es)
      → entry_at "commands" es ≡ array mount_commands
      → (describe_mount sys lib opened (ok doc) w).0 ≡ ok spec
      → spec.suitable ≡ true
      → let held = (describe_mount sys lib opened (ok doc) w).1 in
        IsFound sys w "mount" held.mount × IsFound sys w "umount" held.umount
  unfolding describe_mount
  describe_mount-IsFound doc node es spec there asks all made fine =
      mount_from-IsFound doc node es spec there asks all fine (open_tree lib opened mount_lenses)
        made
