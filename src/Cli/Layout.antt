-- ===== src/Cli/Layout.antt =====
-- Where the directories of a fixed layout are found again by `ral::create`.
use Prim.Native.String.{[] as nil, ◌∷◌ as cons}
use Prim.Native.String.append as clauses
use Prim.Native.Char.{char}
use libral.Base.{
  ℕ, suc, ◌<◌, Char, code, nat_eq, String, true, false, Option, none, some, List, [], ◌∷◌, ◌++◌,
  map, ◌==◌, ◌||◌, ok, ◌≡◌, refl, ap, ◌∙◌, arith, Bool-cases, inl, inr,
}
use libral.Base.Text.{◌<>◌, size, split}
use libral.Base.Text.Laws.{Free, split_id}
use libral.Ral.Environment.{Process, data_dirs, all_dirs, npos}
use libral.Ral.Directories.{dir_words-split}
use libral.Cli.Start.{Paths, append_to_env, appended, lay_out, use_fixed_layout}

split-words : (k : ℕ) (s : String) → (w : String) × ((ws : List String) × (split k s ≡ w ∷ ws))
unfolding split
split-words k nil = (nil, ([], refl))
split-words k (cons c s) =
    let (w, (ws, e)) = split-words k s in
    elim (Bool-cases (nat_eq (code c) k)) [
      | inl y ↦ (nil, (split k s, rw y refl))
      | inr y ↦ (cons c w, (ws, rw (y, e) refl))
    ]

-- A separator and a text without one add one word.
split-last :
    (k : ℕ) (a : String) (c : Char) (b : String)
    → code c ≡ k
    → Free k b
    → split k (a <> cons c b) ≡ split k a ++ (b ∷ [])
unfolding split
split-last k nil c b e h = rw (clauses.nil (cons c b)) (ground (arith, split_id k b h))
split-last k (cons d a) c b e h =
    let rest = split-last k a c b e h in
    let (w, (ws, first)) = split-words k a in
    ap (split k) (clauses.cons d a (cons c b)) ∙ (elim (Bool-cases (nat_eq (code d) k)) [
      | inl y ↦ rw (y, rest) refl
      | inr y ↦ rw (y, rest, first) refl
    ])

-- The words of RALSH_DATA_DIR before the layout is added.
abbrev pub words_of : Option String → List String
words_of none = []
words_of (some s) = split b':' s

split-appended :
    (old : Option String) (path : String)
    → Free b':' path
    → split b':' (appended path old) ≡ words_of old ++ (path ∷ [])
split-appended none path h = split_id b':' path h
split-appended (some s) path h =
    ap (λ (t : String). split b':' (s <> t))
      (clauses.cons (char 58 tt) nil path ∙ ap (cons (char 58 tt)) (clauses.nil path))
    ∙ split-last b':' s (char 58 tt) path refl h

module _ {E : Type 0} (p : Process E) where
  -- `util::environment` gives back what was set, and keeps variables apart.
  abbrev pub IsEnvironment : Type 0
  IsEnvironment =
      ((var value : String) (e : E) → p.get var (p.set var value e) ≡ some value)
      × ((var other value : String) (e : E)
          → (var == other) ≡ false
          → p.get other (p.set var value e) ≡ p.get other e)

  lay_out-get :
      IsEnvironment
      → (fs : Paths) (name topdir : String) (e : E)
      → p.get "RALSH_DATA_DIR" (lay_out p fs name topdir e)
        ≡ some (appended (fs.below topdir "data") (p.get "RALSH_DATA_DIR" e))
  unfolding lay_out append_to_env
  lay_out-get (set, apart) fs name topdir e =
      let found = apart "RALSH_LIBEXEC_DIR" "RALSH_DATA_DIR" _ _ refl ∙ set "RALSH_DATA_DIR" _ e in
      elim (Bool-cases (name == "mruby" || name == "mirb")) [
        | inl y ↦ rw y (apart "AUGEAS_LENS_LIB" "RALSH_DATA_DIR" _ _ refl ∙ found)
        | inr y ↦ rw y found
      ]

  -- Built with a fixed layout: where the program's directory is found, the directory `data` in it is
  -- searched by `ral::create` behind those that are given and those that the variable RALSH_DATA_DIR
  -- had, and before the default; it is all one word, if its path has no colon. This is the order of
  -- the code; README.md has the variable's directories before those that are given.
  pub use_fixed_layout-data_dirs :
      IsEnvironment
      → (fs : Paths) (argv0 name topdir : String) (e : E) → (given : List String) (default : String)
      → fs.canonical (fs.parent_path (fs.parent_path argv0)) ≡ ok topdir
      → Free b':' (fs.below topdir "data")
      → size (appended (fs.below topdir "data") (p.get "RALSH_DATA_DIR" e)) < npos
      → data_dirs p
          (suc (size (appended (fs.below topdir "data") (p.get "RALSH_DATA_DIR" e))))
          given
          default
          (use_fixed_layout p true fs argv0 name e).1
        ≡ some (
            map p.absolute given
            ++ (map p.absolute
                  (words_of (p.get "RALSH_DATA_DIR" e) ++ (fs.below topdir "data" ∷ []))
                ++ (p.absolute default ∷ [])))
  unfolding data_dirs use_fixed_layout
  use_fixed_layout-data_dirs env fs argv0 name topdir e given default there plain short =
      let old = p.get "RALSH_DATA_DIR" e in
      let path = fs.below topdir "data" in
      rw (there, lay_out-get env fs name topdir e)
        (ap (all_dirs p given default)
          (dir_words-split (appended path old) short ∙ ap some (split-appended old path plain)))
