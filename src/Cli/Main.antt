-- ===== src/Cli/Main.antt =====
-- `main` of exe/ralsh.cc for the name `ralsh`.
use libral.Base.{
  ℕ, String, Bool, true, false, ◌&&◌, ◌||◌, Option, none, some, List, [], ◌∷◌, ◌++◌, if◌then◌else◌,
  Result, ok, err, throws, ◌>>=◌, Exec, bind, is_ok, is_empty,
}
use libral.Base.Text.{◌<>◌}
use libral.Value.{text, value_eq}
use libral.Resource.{Resource, Update, index}
use libral.Context.{Changes}
use libral.Provider.{Provider, ProvSpec, create}
use libral.Provider as Provider
use libral.Provider.Find.{find}
use libral.Provider.Set.{set}
use libral.Emitter.Console.{Line, out, error, Console, Emitter, Loaded, quiet_emitter}
use libral.Cli.Arguments.{read_args}

-- The variables map: what was given on the command line.
pub record Options : Type 0 where
  pub version : Bool
  pub explain : Bool
  pub absent : Bool
  pub json : Bool
  pub quiet : Bool
  pub sudo : Bool
  pub keep : Bool
  pub target : Option String
  pub type : Option String
  pub name : Option String
  pub attr_values : List String

-- A provider that was found, with what is printed about it.
pub record Found (W : Type 0) : Type 0 where
  pub provider : Provider W
  pub loaded : Loaded

-- The library as `main` uses it, and `error_has_been_logged`.
pub record Library (W : Type 0) : Type 0 where
  pub connect : String → Bool → Bool → Exec W (Unit {0})
  pub find_provider : String → W → Option (Found W) × W
  pub providers : W → List Loaded × W
  pub logged : W → Bool

-- What `main` works on: the console, and the system.
pub record Screen (W : Type 0) : Type 0 where
  pub console : Console
  pub world : W

abbrev pub print : {W : Type 0} → List Line → Screen W → Screen W
print ls s = record s { console = s.console ++ ls }

abbrev pub no_target : Option String → Bool
no_target none = true
no_target (some t) = false

-- the message for an argument that the provider refuses
abbrev pub complaint : String → String → String
complaint attr detail = "failed to read attribute " <> attr <> ": " <> detail

module _ {W : Type 0} (lib : Library W) (em : Emitter) (explained : Loaded → List Line) where
  -- A method of a provider, whose error or value is kept; an exception is not.
  abbrev pub held : {A : Type 0} → Exec W A → Screen W → Result A × Screen W
  held m s = let (r, w) = m s.world in (r, record s { world = w })

  -- the last line of `main`
  unfoldable pub ending : Screen W → Result ℕ × Screen W
  ending s = (ok (if lib.logged s.world then 2 else 0), s)

  abbrev pub on_console : Exec Console (Unit {0}) → Exec (Screen W) (Unit {0})
  on_console m s = let (r, console) = m s.console in (r, record s { console = console })

  -- what is done with the result of `set`
  abbrev pub after_set : Loaded → Result (List (Update × Changes)) → Screen W → Result ℕ × Screen W
  after_set p (throws x) s = (throws x, s)
  after_set p r s =
      bind (on_console (em.print_set p r)) (λ _ s'. if is_ok r then ending s' else (ok 2, s')) s

  -- the part for arguments ATTRIBUTE=VALUE, given what they were read as
  abbrev pub set_should : Found W → Result Resource → Screen W → Result ℕ × Screen W
  set_should f (ok should) s =
      let (r, s') = held (set f.provider (should ∷ [])) s in after_set f.loaded r s'
  set_should f (err e) s = (
    ok 2,
    print
        (error e
          ∷ error (
              "run 'ralsh -e " <> f.loaded.spec.qname
              <> "' to get a list of attributes and valid values")
          ∷ [])
        s,
  )
  set_should f (throws x) s = (throws x, s)

  unfoldable pub modify : Found W → String → List String → Screen W → Result ℕ × Screen W
  modify f n av s = set_should f (read_args f.provider complaint av (create n)) s

  -- whether a resource that was found counts as missing
  abbrev pub counts_as_missing : Bool → Resource → Result Bool
  counts_as_missing false r = ok false
  counts_as_missing true r = do v ← index r "ensure"; ok (value_eq v (text "absent"))

  abbrev pub exit_for : Result Bool → Screen W → Result ℕ × Screen W
  exit_for (ok true) s = (ok 1, s)
  exit_for (ok false) s = ending s
  exit_for (err e) s = (err e, s)
  exit_for (throws x) s = (throws x, s)

  abbrev pub after_find : Bool → Result (Option Resource) → Screen W → Result ℕ × Screen W
  after_find absent (ok none) s = (ok 1, s)
  after_find absent (ok (some r)) s = exit_for (counts_as_missing absent r) s
  after_find absent (err e) s = (ok 2, s)
  after_find absent (throws x) s = (throws x, s)

  unfoldable pub show_one : Found W → String → Bool → Screen W → Result ℕ × Screen W
  show_one f n absent s =
      let (r, s') = held (find f.provider n) s in
      after_find absent r (print (em.print_find f.loaded r) s')

  abbrev pub after_list : Result (List Resource) → Screen W → Result ℕ × Screen W
  after_list (ok rs) s = ending s
  after_list (err e) s = (ok 2, s)
  after_list (throws x) s = (throws x, s)

  unfoldable pub show_all : Found W → Screen W → Result ℕ × Screen W
  show_all f s =
      let (r, s') = held (Provider.get f.provider []) s in
      after_list r (print (em.print_list f.loaded r) s')

  abbrev pub with_name : Options → Found W → Option String → Screen W → Result ℕ × Screen W
  with_name o f none s = show_all f s
  with_name o f (some n) s =
      if is_empty o.attr_values then show_one f n o.absent s else modify f n o.attr_values s

  -- what is done with a type, once it was looked up
  unfoldable pub with_provider :
      Options → String → Option (Found W) → Screen W → Result ℕ × Screen W
  with_provider o t none s = (
    ok 2,
    print
        (out ("unknown provider: '" <> t <> "'")
          ∷ out "run 'ralsh' to see a list of all providers"
          ∷ [])
        s,
  )
  with_provider o t (some f) s =
      if o.explain then (ok 0, print (explained f.loaded) s) else with_name o f o.name s

  -- what is done without a type
  unfoldable pub without_type : Options → Screen W → Result ℕ × Screen W
  without_type o s =
      if o.explain
      then (
        ok 2,
        print (out "please provide a type" ∷ out "run 'ralsh' to see a list of all types" ∷ []) s,
      )
      else (let (ps, w) = lib.providers s.world in
          ending (print (em.print_providers ps) (record s { world = w })))

  abbrev pub with_type : Options → Option String → Screen W → Result ℕ × Screen W
  with_type o none s = without_type o s
  with_type o (some t) s =
      let (found, w) = lib.find_provider t s.world in
      with_provider o t found (record s { world = w })

  unfoldable pub dispatch : Options → Screen W → Result ℕ × Screen W
  dispatch o s = with_type o o.type s

  abbrev pub connected : Options → String → Result (Unit {0}) × W → Screen W → Result ℕ × Screen W
  connected o t (ok _, w) s = dispatch o (record s { world = w })
  connected o t (err e, w) s = (
    ok 2,
    print (error ("failed to connect to " <> t <> "\n" <> e) ∷ []) (record s { world = w }),
  )
  connected o t (throws x, w) s = (throws x, record s { world = w })

  abbrev pub with_target : Options → Option String → Screen W → Result ℕ × Screen W
  with_target o none s = dispatch o s
  with_target o (some t) s = connected o t (lib.connect t o.sudo o.keep s.world) s

  unfoldable pub connect_first : Options → Screen W → Result ℕ × Screen W
  connect_first o s = with_target o o.target s

  -- The warnings about options that do not go together. They end nothing.
  unfoldable pub warnings : Options → List Line
  warnings o =
      (if o.explain && o.json
        then error "error: you can not specify --json and --explain at the same time"
          ∷ error "error: running 'ralsh --json' will contain explanations for all providers"
          ∷ []
        else [])
      ++ (if (o.sudo || o.keep) && no_target o.target
          then error "warning: using --keep or --sudo without --target has no effect" ∷ []
          else [])

  -- `main` once the options are parsed; `version` is what `--version` prints.
  unfoldable pub main : String → Options → Screen W → Result ℕ × Screen W
  main version o s =
      if o.version
      then (ok 0, print (out version ∷ []) s)
      else connect_first o (print (warnings o) s)

-- the emitter that the options ask for
abbrev pub emitter_for : Options → Emitter → Emitter → Emitter → Emitter
emitter_for o quiet json puppet = if o.quiet then quiet else if o.json then json else puppet

-- `main` with the emitters that there are
abbrev pub ralsh :
    {W : Type 0}
    → Library W
    → Emitter
    → Emitter
    → (Loaded → List Line)
    → String
    → Options
    → Screen W
    → Result ℕ × Screen W
ralsh lib json puppet explained version o =
    main lib (emitter_for o quiet_emitter json puppet) explained version o
