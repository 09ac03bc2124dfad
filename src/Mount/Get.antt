-- ===== src/Mount/Get.antt =====
-- `mount_provider::get`
use libral.Base.{String, Option, none, some, List, [], ◌∷◌, Result, ok, err, ◌>>=◌}
use libral.Base.Dict.{Dict, find, put, insert}
use libral.Value.{text}
use libral.Resource.{Resource, new, assign}
use libral.Mount.Tree.{Handle, read, extract}

-- The resources of a map, in the order of their names.
abbrev pub values : Dict Resource → List Resource
values [] = []
values ((k, r) ∷ m) = r ∷ values m

module _ {W : Type 0} (aug : Handle W) (w : W) where
  -- `make(name, base, ens)`
  unfoldable pub make : String → String → String → Result Resource
  make n node ens = extract aug node (new n) "device" "spec" none w >>= λ r.
      extract aug node r "fstype" "vfstype" none w >>= λ r.
      extract aug node r "options" "options" (some "defaults") w >>= λ r.
      extract aug node r "dump" "dump" (some "0") w >>= λ r.
      extract aug node r "pass" "passno" (some "0") w >>= λ r.
      assign r "ensure" (text ens) >>= λ r. assign r "target" (text "/etc/fstab")

  -- the name of an entry
  unfoldable pub file_of : Option String → Result String
  file_of none = err "Missing file/mountpoint"
  file_of (some n) = ok n

  -- the loop over fstab
  unfoldable pub read_fstab : List String → Dict Resource → Result (Dict Resource)
  read_fstab [] rs = ok rs
  read_fstab (node ∷ nodes) rs = do
    found ← read aug node "file" w
    n ← file_of found
    r ← make n node "unmounted"
    read_fstab nodes (insert n r rs)

  -- one round of the loop over mtab, with what the map has for the name
  unfoldable pub mark : String → String → Option Resource → Dict Resource → Result (Dict Resource)
  mark n node (some r) rs = do r' ← assign r "ensure" (text "mounted"); ok (put n r' rs)
  mark n node none rs = do r ← make n node "ghost"; ok (insert n r rs)

  unfoldable pub read_mtab : List String → Dict Resource → Result (Dict Resource)
  read_mtab [] rs = ok rs
  read_mtab (node ∷ nodes) rs = do
    found ← read aug node "file" w
    n ← file_of found
    rs' ← mark n node (find n rs) rs
    read_mtab nodes rs'

  -- `get(ctx, names, config)`
  unfoldable pub get : Result (List Resource)
  get = aug.match_paths "/files/etc/fstab/*[label() != '#comment']" w >>= λ fstab.
      read_fstab fstab [] >>= λ rs.
      aug.match_paths "/files/etc/mtab/*[label() != '#comment']" w >>= λ mtab.
      read_mtab mtab rs >>= λ all. ok (values all)
