-- ===== src/Metadata/Builtin.antt =====
-- `describe` of the file, host and mount providers. Those of hosts and mounts open the files of the
-- target with augeas; the target is this system here.
use libral.Base.{
  String, Bool, true, Option, none, some, List, [], ◌∷◌, Result, ok, err, throws, ◌≡◌,
}
use libral.Command.{Command}
use libral.Provider.{ProvSpec}
use libral.Augeas.Tree.{Library, Tree}
use libral.Targets.Local.{System, command}
use libral.Targets.Opening.{open_tree}
use libral.Metadata.Suitable.{Yaml}
use libral.Metadata.Environment.{parse_spec, parse_spec-flag}

-- The members that `describe` sets: the tree, and the commands of mounts.
pub record Members (A : Type 0) : Type 0 where
  pub aug : Option (Tree A)
  pub mount : Option Command
  pub umount : Option Command

abbrev pub no_members : {A : Type 0} → Members A
no_members = record { aug = none; mount = none; umount = none }

abbrev pub hosts_lenses : List (String × String)
hosts_lenses = ("Hosts.lns", "/etc/hosts") ∷ []

abbrev pub mount_lenses : List (String × String)
mount_lenses = ("Mount_Fstab.lns", "/etc/fstab") ∷ ("Mount_Fstab.lns", "/etc/mtab") ∷ []

module _ {W : Type 0} (sys : System W) where
  -- `file_provider::describe(env)`
  unfoldable pub describe_file : Result Yaml → Bool → W → Result ProvSpec
  describe_file loaded is_local w = parse_spec sys "file" loaded is_local w

  module _ {A : Type 0} (lib : Library A) (opened : Tree A) where
    abbrev pub host_from : Result Yaml → W → Result (Tree A) → Result ProvSpec × Members A
    host_from loaded w (ok t) =
        (parse_spec sys "host" loaded true w, record no_members { aug = some t })
    host_from loaded w (err e) = (err e, no_members)
    host_from loaded w (throws x) = (throws x, no_members)

    -- `host_provider::describe(env)`
    unfoldable pub describe_host : Result Yaml → W → Result ProvSpec × Members A
    describe_host loaded w = host_from loaded w (open_tree lib opened hosts_lenses)

    abbrev pub mount_from : Result Yaml → W → Result (Tree A) → Result ProvSpec × Members A
    mount_from loaded w (ok t) = (
      parse_spec sys "mount" loaded true w,
      record { aug = some t; mount = command sys "mount" w; umount = command sys "umount" w },
    )
    mount_from loaded w (err e) = (err e, no_members)
    mount_from loaded w (throws x) = (throws x, no_members)

    -- `mount_provider::describe(env)`
    unfoldable pub describe_mount : Result Yaml → W → Result ProvSpec × Members A
    describe_mount loaded w = mount_from loaded w (open_tree lib opened mount_lenses)

  -- A file provider that is suitable is on a local system.
  describe_file-local :
      (w : W) (loaded : Result Yaml) (is_local : Bool) (spec : ProvSpec)
      → describe_file loaded is_local w ≡ ok spec
      → spec.suitable ≡ true
      → is_local ≡ true
  unfolding describe_file
  describe_file-local w loaded is_local = parse_spec-flag sys w "file" loaded is_local
