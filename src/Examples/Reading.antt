-- ===== src/Examples/Reading.antt =====
-- Files that are read, at concrete inputs.
use Prim.Native.String.{[] as nil, ◌∷◌ as cons}
use libral.Base.{
  ℕ, zero, suc, ◌+◌, ◌-◌, ◌*◌, ◌≤◌, ◌<◌, code, Char, String, Bool, true, false, ◌&&◌, leb, Option,
  none, some, List, ◌∷◌, [], ◌==◌, if◌then◌else◌, Result, ok, err, throws, filesystem_error, ◌≡◌,
  ◌≢◌, refl, arith, ap, map, eq_iff, length, ◌∙◌,
}
use libral.Base.Text.{◌<>◌, size}
use libral.Value.{text}
use libral.Resource.{Resource, Update, new}
use libral.Provider.Set.{updates}
use libral.File.Steps.{Files, read_mode}
use libral.File.Mode.{
  oct_char, digits_text, value_from, AreOctal, ReadsOctal, mode_text, read_mode-mode_text,
}
use libral.File.Load.{Reads, symlink_file, load, get}
use libral.File.Relative.{relative_unpaired}

-- `std::stoi` with base 8, and with no white space or sign.
abbrev scan : ℕ → ℕ → String → ℕ × ℕ
scan acc n nil = (acc, n)
scan acc n (cons c s) =
    let rest = scan (acc * 8 + (code c - 48)) (suc n) s in
    if leb 48 (code c) && leb (code c) 55 then rest else (acc, n)

code-oct_char : (d : ℕ) → d < 8 → code (oct_char d) ≡ 48 + d
code-oct_char zero h = refl
code-oct_char (suc zero) h = refl
code-oct_char (suc (suc zero)) h = refl
code-oct_char (suc (suc (suc zero))) h = refl
code-oct_char (suc (suc (suc (suc zero)))) h = refl
code-oct_char (suc (suc (suc (suc (suc zero))))) h = refl
code-oct_char (suc (suc (suc (suc (suc (suc zero)))))) h = refl
code-oct_char (suc (suc (suc (suc (suc (suc (suc zero))))))) h = refl
code-oct_char (suc (suc (suc (suc (suc (suc (suc (suc d)))))))) h = absurd (omega (arith, h))

scan_digit :
    (d : ℕ) (c : Char) (s : String) (acc n : ℕ)
    → d < 8
    → code c ≡ 48 + d
    → scan acc n (cons c s) ≡ scan (acc * 8 + d) (suc n) s
scan_digit d c s acc n h e = ground (
  arith,
  h,
  e,
  ap (λ (k : ℕ). scan (acc * 8 + k) (suc n) s) {x = code c - 48} {y = d} (omega (arith, e)),
)

scan_digits :
    (ds : List ℕ) (acc n : ℕ)
    → AreOctal ds
    → scan acc n (digits_text ds) ≡ (value_from acc ds, n + length ds)
scan_digits [] acc n h = ap (λ (k : ℕ). (acc, k)) {x = n} {y = n + 0} (omega arith)
scan_digits (d ∷ ds) acc n h =
    scan_digit d (oct_char d) (digits_text ds) acc n h.0 (code-oct_char d h.0)
    ∙ scan_digits ds (acc * 8 + d) (suc n) h.1
    ∙ ap (λ (k : ℕ). (value_from (acc * 8 + d) ds, k)) {x = suc n + length ds}
        {y = n + suc (length ds)} (omega arith)

size-digits : (ds : List ℕ) → size (digits_text ds) ≡ length ds
unfolding size
size-digits [] = refl
size-digits (d ∷ ds) = ap suc (size-digits ds)

-- A file system on which nothing succeeds but reading numbers.
abbrev files : Files ℕ
files = record {
  remove_all = λ p w. (err "", w);
  create_symlink = λ p q w. (err "", w);
  create_directory = λ p w. (err "", w);
  truncate = λ p w. none;
  read = λ p w. none;
  write = λ p s w. none;
  lchown = λ p u g w. (err "", w);
  permissions = λ p m w. (err "", w);
  stoi = λ base s. ok (scan 0 0 s);
  size = size;
}

reads_octal : ReadsOctal files
reads_octal = record {
  stoi_reads = λ ds h longer small. ap ok (
      scan_digits ds 0 0 h
      ∙ ap (λ (k : ℕ). (value_from 0 ds, k)) {x = 0 + length ds} {y = length ds} (omega arith));
  size_counts = size-digits;
}

read_mode-mode_text_example : read_mode files (mode_text 420) ≡ ok 420
read_mode-mode_text_example = read_mode-mode_text files 420 reads_octal (omega arith)

-- Every path is a link whose target is gone.
abbrev dangling : Reads ℕ
dangling = record {
  absolute = λ p w. "/home/" <> p;
  symlink_status = λ p w. some (symlink_file, 511);
  read_symlink = λ p w. ok "gone";
  last_write_time = λ p w. throws filesystem_error;
  lstat = λ p w. none;
}

-- No path names a file.
abbrev missing : Reads ℕ
missing = record dangling { symlink_status = λ p w. none }

abbrev nothing_there : List Resource
nothing_there = record { name = "/home/notes"; attrs = ("ensure", text "absent") ∷ [] } ∷ []

notes_read : get missing ("notes" ∷ []) 0 ≡ ok nothing_there
unfolding get load libral.Resource.assign libral.Base.Dict.put
notes_read = refl

abbrev notes : Resource
notes = record { name = "notes"; attrs = ("ensure", text "file") ∷ [] }

home_ne : ◌≢◌ {A = String} "/home/notes" "notes"
home_ne = ground (arith, eq_iff "/home/notes" "notes")

relative_unpaired_example :
    updates (notes ∷ []) nothing_there ≡ record { is = new "notes"; should = notes } ∷ []
relative_unpaired_example = relative_unpaired missing notes 0 nothing_there home_ne notes_read
