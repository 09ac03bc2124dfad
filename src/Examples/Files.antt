-- ===== src/Examples/Files.antt =====
-- Files and mounts at concrete inputs.
use libral.Base.{
  ℕ, suc, String, Bool, true, false, not, Option, none, some, List, [], ◌∷◌, ◌++◌, ◌==◌,
  if◌then◌else◌, Result, ok, err, Exec, ◌≡◌, refl, arith, inl, is_ok, All,
}
use libral.Value.{text, array, nothing}
use libral.Resource.{Resource, Update, lookup_text, lookup_text_or}
use libral.Context.{changes_for}
use libral.Provider.{fresh}
use libral.File.Steps.{Files}
use libral.File.Set.{set_one, state_of, ensure_of, force_of, is_guarded}
use libral.File.Content.{ReadsBack, set_one-read}
use libral.File.Guard.{removing_by, set_one_keeps_directory}
use libral.File.Changing.{FailsWith, directory_to_link_fails}
use libral.File.Settled.{IsSettled, equal, set_one_unchanged}
use libral.Mount.Tree.{Handle}
use libral.Mount.Set.{Mounts, set_one as set_mount}
use libral.Mount.Saving.{with_commands, set_one_unsaved}

-- A file system of one text file, or none, that nothing else is done to.
abbrev disk : Files (Option String)
disk = record {
  remove_all = λ path w. (ok tt, none);
  create_symlink = λ target path w. (ok tt, w);
  create_directory = λ path w. (ok tt, w);
  truncate = λ path w. some (some "");
  read = λ path w. w;
  write = λ path content w. some (some content);
  lchown = λ path uid gid w. (ok tt, w);
  permissions = λ path mode w. (ok tt, w);
  stoi = λ base s. ok (0, 1);
  size = λ s. 1;
}

-- A directory that is to be a file, without `force`.
abbrev to_file : Update
to_file = record {
  is = record { name = "/tmp/d"; attrs = ("ensure", text "directory") ∷ [] };
  should = record { name = "/tmp/d"; attrs = ("ensure", text "file") ∷ [] };
}

abbrev to_link : Update
to_link = record {
  is = to_file.is;
  should = record {
    name = "/tmp/d";
    attrs = ("ensure", text "link") ∷ ("force", text "true") ∷ ("target", text "/etc") ∷ [];
  };
}

abbrev refuse : String → Exec (Option String) (Unit {0})
refuse path w = (err "no", w)

to_file_state : state_of to_file ≡ "directory"
unfolding state_of lookup_text_or libral.Base.Dict.find libral.Value.as_text
to_file_state = refl

to_file_force : force_of to_file ≡ false
unfolding force_of lookup_text_or libral.Base.Dict.find
to_file_force = refl

set_one_keeps_directory_example :
    set_one disk to_file (fresh none) ≡ set_one (removing_by refuse disk) to_file (fresh none)
set_one_keeps_directory_example =
    set_one_keeps_directory disk refuse to_file (fresh none) to_file_state to_file_force

to_link_is : lookup_text_or to_link.is "ensure" "absent" ≡ "directory"
unfolding lookup_text_or libral.Base.Dict.find libral.Value.as_text
to_link_is = refl

to_link_ensure : ensure_of to_link ≡ "link"
unfolding ensure_of libral.File.Set.settle lookup_text_or libral.Base.Dict.find libral.Value.as_text
to_link_ensure = refl

directory_to_link_fails_example :
    FailsWith none (set_one disk to_link (fresh (some "what is in it")))
unfolding force_of lookup_text_or libral.Base.Dict.find libral.Value.as_text
    libral.File.Steps.remove_tree libral.File.Steps.on_files
directory_to_link_fails_example =
    directory_to_link_fails disk to_link (fresh (some "what is in it")) to_link_is to_link_ensure

-- A file that is to be a directory, and a device that is to be one.
abbrev from : String → Update
from state = record {
  is = record { name = "/tmp/d"; attrs = ("ensure", text state) ∷ [] };
  should = record { name = "/tmp/d"; attrs = ("ensure", text "directory") ∷ [] };
}

-- A file that has its text already.
abbrev motd : Update
motd = record {
  is = record { name = "/etc/motd"; attrs = ("ensure", text "file") ∷ [] };
  should = record {
    name = "/etc/motd";
    attrs = ("content", text "hi") ∷ ("ensure", text "present") ∷ [];
  };
}

motd-IsSettled : IsSettled disk motd (fresh (some "hi"))
unfolding state_of lookup_text_or libral.Base.Dict.find libral.Value.as_text ensure_of
    libral.File.Set.settle libral.Resource.changed libral.Value.is_present changes_for
motd-IsSettled = record {
  is_there = inl refl;
  stays = refl;
  same_metadata = (refl, (refl, (refl, tt)));
  same_content = equal "hi" refl refl;
  quiet = refl;
}

set_one_unchanged_example :
    ((set_one disk motd (fresh (some "hi"))).0 ≡ ok tt)
    × ((set_one disk motd (fresh (some "hi"))).1.world ≡ some "hi")
    × (changes_for "/etc/motd" (set_one disk motd (fresh (some "hi"))).1.recorded ≡ [])
set_one_unchanged_example = set_one_unchanged disk motd (fresh (some "hi")) motd-IsSettled

-- The same file with another text before.
disk_reads_back : ReadsBack disk motd
disk_reads_back path content w w' e = ground (arith, e)

motd_updated :
    set_one disk motd (fresh (some "old")) ≡ (ok tt, (set_one disk motd (fresh (some "old"))).1)
unfolding set_one libral.File.Set.change_to is_guarded state_of lookup_text_or libral.Base.Dict.find
    libral.Value.as_text libral.File.Set.clear ensure_of libral.File.Set.settle
    libral.File.Set.bring_to libral.File.Steps.update_metadata libral.File.Steps.record_metadata
    libral.Context.add_attrs libral.Context.add_attr libral.Resource.changed libral.Value.is_present
    changes_for libral.Context.exists libral.File.Steps.compare_with libral.File.Steps.fill
    libral.File.Steps.opening libral.File.Steps.rewrite libral.File.Steps.update_content
motd_updated = refl

motd_ensure : ensure_of motd ≡ "file"
unfolding ensure_of libral.File.Set.settle lookup_text_or libral.Base.Dict.find libral.Value.as_text
    state_of
motd_ensure = refl

motd_content : lookup_text motd.should "content" ≡ some "hi"
unfolding lookup_text libral.Base.Dict.find libral.Value.as_text
motd_content = refl

set_one-read_example :
    disk.read "/etc/motd" (set_one disk motd (fresh (some "old"))).1.world ≡ some "hi"
set_one-read_example =
    set_one-read disk motd "hi" (fresh (some "old")) (set_one disk motd (fresh (some "old"))).1
      disk_reads_back motd_ensure motd_content motd_updated

-- A tree with one entry, in the table and mounted, that cannot be saved.
abbrev tree : Handle ℕ
tree = record {
  match_paths = λ path n. ok ("/files/etc/fstab/1" ∷ []);
  get = λ path n. ok (some "/home");
  set = λ path v n. (ok tt, n);
  rm = λ path n. (ok tt, n);
  clear = λ path n. (ok tt, n);
  save = λ n. (err "read-only", n);
  next = λ path n. (ok "/files/etc/fstab/01", n);
}

abbrev mounts : Mounts ℕ
mounts = record {
  aug = tree;
  mount_cmd = λ args n. (ok tt, suc n);
  umount_cmd = λ args n. (ok tt, suc n);
}

abbrev home : Update
home = record {
  is = record { name = "/home"; attrs = ("ensure", text "mounted") ∷ [] };
  should = record { name = "/home"; attrs = ("ensure", text "absent") ∷ [] };
}

abbrev other : List String → Exec ℕ (Unit {0})
other args n = (err "no", 9)

set_one_unsaved_example :
    set_mount mounts home (fresh 0) ≡ set_mount (with_commands other other mounts) home (fresh 0)
set_one_unsaved_example = set_one_unsaved mounts other other (λ w. refl) home (fresh 0)
