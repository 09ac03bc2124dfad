-- ===== src/File/Load.antt =====
-- `file_provider::get`, `load` and `find_from_stat`: what is read of a file.
use libral.Base.{
  ℕ, String, Option, none, some, List, [], ◌∷◌, nat_eq, if◌then◌else◌, Result, ok, err, ◌>>=◌,
  traverse, is_empty,
}
use libral.Value.{text}
use libral.Resource.{Resource, new, assign}
use libral.File.Mode.{mode_text}

-- `boost::filesystem::file_type`
pub data FileType : Type 0 where
  status_error file_not_found regular_file directory_file : FileType
  symlink_file block_file character_file fifo_file socket_file : FileType
  type_unknown : FileType

abbrev number : FileType → ℕ
number status_error = 0
number file_not_found = 1
number regular_file = 2
number directory_file = 3
number symlink_file = 4
number block_file = 5
number character_file = 6
number fifo_file = 7
number socket_file = 8
number type_unknown = 10

-- `fdesc`
pub record Desc : Type 0 where
  pub ftyp : FileType
  pub ensure : String
  pub typ : String

-- `ftype_ensure`: the first entry is the one that is taken where none fits.
abbrev unknown_desc : Desc
unknown_desc = record { ftyp = type_unknown; ensure = "absent"; typ = "unknown" }

abbrev desc : FileType → String → String → Desc
desc t ensure typ = record { ftyp = t; ensure = ensure; typ = typ }

abbrev pub ftype_ensure : List Desc
ftype_ensure =
    unknown_desc
    ∷ desc status_error "absent" "error"
    ∷ desc file_not_found "absent" "absent"
    ∷ desc regular_file "file" "file"
    ∷ desc regular_file "present" "file"
    ∷ desc directory_file "directory" "directory"
    ∷ desc symlink_file "link" "link"
    ∷ desc block_file "present" "block"
    ∷ desc character_file "present" "char"
    ∷ desc fifo_file "present" "fifo"
    ∷ desc socket_file "present" "socket"
    ∷ []

-- `fdesc_from_ftype`
unfoldable pub search_desc : FileType → List Desc → Desc
search_desc t [] = unknown_desc
search_desc t (d ∷ ds) = if nat_eq (number t) (number d.ftyp) then d else search_desc t ds

-- What `lstat` tells, as texts: the time of the last change of the status and the ids.
pub record Stat : Type 0 where
  pub ctime : String
  pub uid : String
  pub gid : String

-- What is called on a file system `W`: `symlink_status`, whose error code is `none`, with the type and
-- the permissions; `read_symlink` and `last_write_time`, which throw, the latter as ISO text and as
-- a number; `lstat`; and `absolute`.
pub record Reads (W : Type 0) : Type 0 where
  pub absolute : String → W → String
  pub symlink_status : String → W → Option (FileType × ℕ)
  pub read_symlink : String → W → Result String
  pub last_write_time : String → W → Result (String × String)
  pub lstat : String → W → Option Stat

module _ {W : Type 0} (fs : Reads W) where
  -- `find_from_stat`; what it prints where `lstat` fails is left out
  unfoldable pub add_stat : Option Stat → Resource → Result Resource
  add_stat none r = ok r
  add_stat (some b) r = do
    r₁ ← assign r "ctime" (text b.ctime)
    r₂ ← assign r₁ "owner" (text b.uid)
    assign r₂ "group" (text b.gid)

  abbrev pub add_target : String → FileType → W → Resource → Result Resource
  add_target path symlink_file w r = do
    target ← fs.read_symlink path w
    assign r "target" (text target)
  add_target path _ w r = ok r

  -- the part of `load` for a file that is there
  unfoldable pub load_there : FileType → ℕ → W → Resource → Result Resource
  load_there t perms w r = do
    let d = search_desc t ftype_ensure
    r₁ ← assign r "ensure" (text d.ensure)
    r₂ ← assign r₁ "type" (text d.typ)
    r₃ ← add_target r.name t w r₂
    r₄ ← assign r₃ "mode" (text (mode_text perms))
    mtime ← fs.last_write_time r.name w
    r₅ ← assign r₄ "mtime" (text mtime.0)
    r₆ ← assign r₅ "checksum_value" (text mtime.1)
    r₇ ← assign r₆ "checksum" (text "mtime")
    add_stat (fs.lstat r.name w) r₇

  abbrev pub load_status : Option (FileType × ℕ) → W → Resource → Result Resource
  load_status none w r = assign r "ensure" (text "absent")
  load_status (some (t, perms)) w r = load_there t perms w r

  -- `load(res)`
  unfoldable pub load : W → Resource → Result Resource
  load w r = load_status (fs.symlink_status r.name w) w r

  -- `get(ctx, names, config)`
  unfoldable pub get : List String → W → Result (List Resource)
  get names w =
      if is_empty names
      then err "the file provider does not support listing all files"
      else traverse (λ n. load w (new (fs.absolute n w))) names
