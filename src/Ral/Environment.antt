-- ===== src/Ral/Environment.antt =====
-- `ral::create`: the directories with providers, and the variables that are set for the programs that
-- providers run.
use Prim.Native.Nat.{◌^◌}
use Prim.Native.String.{[] as nil, ◌∷◌ as cons}
use libral.Base.{
  ℕ, zero, suc, ◌+◌, ◌-◌, code, nat_eq, String, Option, none, some, List, [], ◌∷◌, ◌++◌, map,
  if◌then◌else◌,
}
use libral.Base.Text.{◌<>◌, join}

-- What is left of a text from a position on, and its first characters.
unfoldable pub drop : ℕ → String → String
drop zero s = s
drop (suc n) nil = nil
drop (suc n) (cons c s) = drop n s

unfoldable pub first : ℕ → String → String
first zero s = nil
first (suc n) nil = nil
first (suc n) (cons c s) = cons c (first n s)

-- `s.substr(start, count)`, for a position within the text
abbrev pub substr : String → ℕ → ℕ → String
substr s start count = first count (drop start s)

abbrev pub shift : Option ℕ → Option ℕ
shift none = none
shift (some n) = some (suc n)

-- where a character stands for the first time
unfoldable pub position : ℕ → String → Option ℕ
position k nil = none
position k (cons c s) =
    let rest = shift (position k s) in if nat_eq (code c) k then some 0 else rest

abbrev pub add_start : ℕ → Option ℕ → Option ℕ
add_start start none = none
add_start start (some n) = some (start + n)

-- `s.find(c, start)`
abbrev pub find_from : ℕ → String → ℕ → Option ℕ
find_from k s start = add_start start (position k (drop start s))

-- `std::string::npos`
abbrev pub npos : ℕ
npos = 2 ^ 64 - 1

-- the word that ends at the separator that was found, if one was found
abbrev pub word : String → ℕ → Option ℕ → String
word s start none = substr s start (npos - start)
word s start (some end) = substr s start (end - start)

abbrev pub next_words : Option ℕ → (ℕ → Option (List String)) → Option (List String)
next_words none more = some []
next_words (some end) more = more (end + 1)

abbrev pub with_word : String → Option (List String) → Option (List String)
with_word w none = none
with_word w (some ws) = some (w ∷ ws)

-- The loop over RALSH_DATA_DIR; `none` where the fuel does not last.
unfoldable pub dir_words : ℕ → String → ℕ → Option (List String)
dir_words zero s start = none
dir_words (suc fuel) s start =
    let end = find_from b':' s start in
    with_word (word s start end) (next_words end (λ at. dir_words fuel s at))

-- `util::environment`, on the state `E` of the process's environment; `absolute` is `absolute_path`.
pub record Process (E : Type 0) : Type 0 where
  pub get : String → E → Option String
  pub set : String → String → E → E
  pub reload : E → E
  pub absolute : String → String

module _ {E : Type 0} (p : Process E) where
  abbrev appended : String → Option String → String → String
  appended sep none value = value
  appended sep (some old) value = old <> sep <> value

  abbrev prepended : String → Option String → String
  prepended value none = value
  prepended value (some old) = value <> ":" <> old

  -- `update_augeas_lens_lib`
  unfoldable pub update_augeas_lens_lib : List String → E → E
  update_augeas_lens_lib dirs e =
      p.set "AUGEAS_LENS_LIB"
        (appended ":" (p.get "AUGEAS_LENS_LIB" e) (join ":" (map (λ d. d <> "/lenses") dirs))) e

  abbrev or_default : Option String → String → String
  or_default none d = d
  or_default (some s) d = s

  -- the part of `create` that makes programs of libral found first
  unfoldable pub update_path : String → E → E
  update_path libexec e = p.reload (
      p.set "PATH" (prepended (or_default (p.get "RALSH_LIBEXEC_DIR" e) libexec) (p.get "PATH" e))
        e)

  abbrev pub env_dirs : Option String → ℕ → Option (List String)
  env_dirs none fuel = some []
  env_dirs (some dirs) fuel = dir_words fuel dirs 0

  abbrev pub all_dirs : List String → String → Option (List String) → Option (List String)
  all_dirs given default none = none
  all_dirs given default (some found) =
      some (map p.absolute given ++ (map p.absolute found ++ (p.absolute default ∷ [])))

  -- the data directories
  unfoldable pub data_dirs : ℕ → List String → String → E → Option (List String)
  data_dirs fuel given default e = all_dirs given default (env_dirs (p.get "RALSH_DATA_DIR" e) fuel)

  abbrev finish : String → E → Option (List String) → Option (List String × E)
  finish libexec e none = none
  finish libexec e (some dirs) = some (dirs, update_augeas_lens_lib dirs (update_path libexec e))

  -- `create(data_dirs)`, with the directories that were set when the program was built
  unfoldable pub create : ℕ → List String → String → String → E → Option (List String × E)
  create fuel given default libexec e = finish libexec e (data_dirs fuel given default e)
