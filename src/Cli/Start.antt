-- ===== src/Cli/Start.antt =====
-- exe/ralsh.cc before the options are known: the name of the program, the layout of directories, the
-- colors, the help text and what is made of the command line.
use Prim.Native.String.{[] as nil, ◌∷◌ as cons}
use libral.Base.{
  ℕ, Char, code, nat_eq, String, Bool, true, false, ◌||◌, Option, none, some, List, [], ◌∷◌, ◌++◌,
  ◌==◌, if◌then◌else◌, Result, ok, err, throws, Exec, bind,
}
use libral.Base.Text.{◌<>◌}
use libral.Ral.Environment.{Process}
use libral.Emitter.Console.{Line, out, error, Emitter, Loaded}
use libral.Emitter.Puppet.{Colors}
use libral.Cli.Main.{Options, Library, Screen, print, main}

-- `color::init()`, of the colors that the model uses; `tty` is `isatty(1)`.
unfoldable pub init_colors : Bool → Colors
init_colors tty =
    if tty
    then record {
      green = "\u{1b}[0;32m";
      red = "\u{1b}[0;31m";
      blue = "\u{1b}[0;34m";
      reset = "\u{1b}[0m";
    }
    else record { green = ""; red = ""; blue = ""; reset = "" }

abbrev pub keep_last : Char → String → Option String → Option String
keep_last c s (some t) = some t
keep_last c s none = if nat_eq (code c) b'/' then some s else none

-- `rindex(s, '/')`, as what stands behind the last slash
unfoldable pub behind_slash : String → Option String
behind_slash nil = none
behind_slash (cons c s) = keep_last c s (behind_slash s)

abbrev pub or_all : String → Option String → String
or_all argv0 none = argv0
or_all argv0 (some t) = t

-- `progname(argv0)`
unfoldable pub progname : String → String
progname argv0 = or_all argv0 (behind_slash argv0)

-- What boost::filesystem does with paths; `canonical` throws where there is no such file.
pub record Paths : Type 0 where
  pub parent_path : String → String
  pub below : String → String → String
  pub canonical : String → Result String

abbrev pub appended : String → Option String → String
appended path none = path
appended path (some value) = value <> ":" <> path

module _ {E : Type 0} (p : Process E) where
  -- `append_to_env(var, path)`
  unfoldable pub append_to_env : String → String → E → E
  append_to_env var path e = p.set var (appended path (p.get var e)) e

  -- the variables for a directory that holds the whole program
  unfoldable pub lay_out : Paths → String → String → E → E
  lay_out fs name topdir e =
      let e₁ = append_to_env "RALSH_DATA_DIR" (fs.below topdir "data") e in
      let e₂ = append_to_env "RALSH_LIBEXEC_DIR" (fs.below topdir "bin") e₁ in
      if name == "mruby" || name == "mirb"
      then append_to_env "AUGEAS_LENS_LIB" (fs.below topdir "data/lenses") e₂
      else e₂

  abbrev laid_out : Paths → String → Result String → E → Result (Unit {0}) × E
  laid_out fs name (ok topdir) e = (ok tt, lay_out fs name topdir e)
  laid_out fs name (err d) e = (err d, e)
  laid_out fs name (throws x) e = (throws x, e)

  -- `use_fixed_layout(argv0, progname)`; `fixed` is whether the program is built with it.
  unfoldable pub use_fixed_layout : Bool → Paths → String → String → E → Result (Unit {0}) × E
  use_fixed_layout fixed fs argv0 name e =
      if fixed
      then laid_out fs name (fs.canonical (fs.parent_path (fs.parent_path argv0))) e
      else (ok tt, e)

-- What `help` prints; `described` are the lines that boost makes of the options.
abbrev pub usage : List Line
usage =
    out "Usage: ralsh [OPTION]... [TYPE [NAME [ATTRIBUTE=VALUE] ... ] ]"
    ∷ out "Print resources managed by libral and modify them."
    ∷ out ""
    ∷ out "The positional arguments make ralsh behave in the following way:"
    ∷ out "  ralsh           : list all the types that libral knows about."
    ∷ out "  ralsh TYPE      : list all instances of TYPE"
    ∷ out "  ralsh TYPE NAME : list just TYPE[NAME]"
    ∷ out "  ralsh TYPE NAME ATTRIBUTE=VALUE ... :"
    ∷ out "                    modify TYPE[NAME] by setting the provided attributes"
    ∷ out "                    to the corresponding values. Print the resulting resource"
    ∷ out "                    and a list of the changes that were made."
    ∷ out ""
    ∷ out "Options:"
    ∷ []

abbrev pub exits : List Line
exits =
    out "Exit status:"
    ∷ out "  0 on success"
    ∷ out "  1 when no resource was found"
    ∷ out "  2 when an error happened"
    ∷ out ""
    ∷ []

unfoldable pub help : List Line → List Line
help described = usage ++ described ++ (out "" ∷ exits)

-- What boost makes of the command line: the variables, and whether `help` is among them, or the
-- words of an exception. `notify` may throw as well.
pub data Parsed : Type 0 where
  refused : String → Parsed
  given : Bool → Options → Parsed

pub record Parser : Type 0 where
  pub store : List String → Parsed
  pub notify : Options → Option String
  pub described : List Line

unfoldable pub bad_usage : String → List Line
bad_usage what =
    error ("error: " <> what <> "\n") ∷ error "try 'ralsh -h' for more information." ∷ []

module _ {W : Type 0} (lib : Library W) (em : Options → Emitter) (explained : Loaded → List Line)
    (version : String) (parser : Parser) where
  abbrev pub notified : Options → Option String → Screen W → Result ℕ × Screen W
  notified o (some what) s = (ok 2, print (bad_usage what) s)
  notified o none s = main lib (em o) explained version o s

  abbrev pub with_parsed : Parsed → Screen W → Result ℕ × Screen W
  with_parsed (refused what) s = (ok 2, print (bad_usage what) s)
  with_parsed (given true o) s = (ok 0, print (help parser.described) s)
  with_parsed (given false o) s = notified o (parser.notify o) s

  -- the programs `mruby` and `mirb`, which stand in the same file
  abbrev pub Prog : Type 0
  Prog = List String → Screen W → Result ℕ × Screen W

  module _ (p : Process W) (fs : Paths) (prog_mruby prog_mirb : Prog) where
    unfoldable pub by_name : String → List String → Screen W → Result ℕ × Screen W
    by_name name args s =
        if name == "mruby"
        then prog_mruby args s
        else if name == "mirb"
        then prog_mirb args s
        else with_parsed (parser.store args) s

    abbrev on_world : (W → Result (Unit {0}) × W) → Exec (Screen W) (Unit {0})
    on_world m s = ((m s.world).0, record s { world = (m s.world).1 })

    -- `main(argc, argv)`
    unfoldable pub start : Bool → String → List String → Screen W → Result ℕ × Screen W
    start fixed argv0 args s =
        bind (on_world (use_fixed_layout p fixed fs argv0 (progname argv0)))
          (λ _. by_name (progname argv0) args) s
