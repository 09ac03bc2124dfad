-- ===== src/Examples/Commands.antt =====
-- The command line at concrete inputs.
use libral.Base.{
  ℕ, String, Bool, true, false, Option, none, some, List, ◌∷◌, [], Result, ok, err, throws,
  invalid_argument, ◌≡◌, ◌≤◌, ◌<◌, refl, All, map, arith, suc, ◌==◌, if◌then◌else◌, ◌↔◌, eq_refl,
}
use libral.Base.Text.{◌<>◌, size}
use libral.Base.Dict.{Dict}
use libral.Value.{Value, text}
use libral.Attr as Attr
use libral.Provider.{Provider, ProvSpec}
use libral.Emitter.Console.{quiet_emitter}
use libral.Emitter.Puppet.{pad, maxlen}
use libral.Emitter.Width.{IsShort, maxlen_aligns}
use libral.Cli.Main.{Options, Found, Library, Screen}
use libral.Cli.Status.{IsExit}
use libral.Cli.Start.{Parser, given, Paths, start, progname, use_fixed_layout}
use libral.Cli.Starting.{AsksForOne, start-IsExit, IsBase, progname-IsBase}
use libral.Cli.Layout.{IsEnvironment, use_fixed_layout-data_dirs}
use libral.Ral.Environment.{Process, data_dirs, npos}

abbrev string_attr : String → String × Attr.Spec
string_attr n =
    (n, record { name = n; desc = ""; data_type = Attr.string_type; kind = Attr.read_write })

abbrev pack_spec : ProvSpec
pack_spec = record {
  name = "demo";
  type_name = "package";
  desc = "";
  invoke = "simple";
  qname = "package::demo";
  suitable = true;
  attr_specs = string_attr "ensure" ∷ string_attr "name" ∷ [];
}

-- A provider without resources, which counts its calls.
abbrev demo : Provider ℕ
demo = record {
  spec = some pack_spec;
  get_in = λ names config c. (ok [], c);
  set_in = λ us c. (ok tt, c);
}

abbrev found : Found ℕ
found = record {
  provider = demo;
  loaded = record { spec = pack_spec; source = "/usr/share/libral/demo.prov" };
}

abbrev library : Library ℕ
library = record {
  connect = λ t sudo keep w. (ok tt, w);
  find_provider = λ n w. (some found, w);
  providers = λ w. ([], w);
  logged = λ w. false;
}

abbrev blank_screen : Screen ℕ
blank_screen = record { console = []; world = 0 }

-- `ralsh package gcc`
abbrev query : Options
query = record {
  version = false;
  explain = false;
  absent = false;
  json = false;
  quiet = true;
  sudo = false;
  keep = false;
  target = none;
  type = some "package";
  name = some "gcc";
  attr_values = [];
}

-- Boost that takes every command line for that one, and a process without variables.
abbrev parser : Parser
parser = record { store = λ args. given false query; notify = λ o. none; described = [] }

abbrev no_variables : Process ℕ
no_variables = record {
  get = λ var e. none;
  set = λ var value e. e;
  reload = λ e. e;
  absolute = λ path. path;
}

abbrev paths : Paths
paths = record {
  parent_path = λ path. if path == "/opt/ral/bin/ralsh" then "/opt/ral/bin" else "/opt/ral";
  below = λ dir name. dir <> "/" <> name;
  canonical = λ path. ok path;
}

abbrev other_program : List String → Screen ℕ → Result ℕ × Screen ℕ
other_program args s = (ok 3, s)

start-IsExit_example :
    IsExit
      (AsksForOne parser ("package" ∷ "gcc" ∷ []))
      (start library
        (λ o. quiet_emitter)
        (λ p. [])
        "0.5.0"
        parser
        no_variables
        paths
        other_program
        other_program
        true
        "/opt/ral/bin/ralsh"
        ("package" ∷ "gcc" ∷ [])
        blank_screen).0
unfolding progname libral.Cli.Start.behind_slash
start-IsExit_example =
    start-IsExit library (λ o. quiet_emitter) (λ p. []) "0.5.0" parser no_variables paths
      other_program other_program true "/opt/ral/bin/ralsh" ("package" ∷ "gcc" ∷ []) blank_screen
      refl refl

progname-IsBase_example :
    (progname "/opt/ral/bin/mirb" ≡ "mirb") ↔ IsBase "/opt/ral/bin/mirb" "mirb"
progname-IsBase_example = progname-IsBase "/opt/ral/bin/mirb" "mirb"

-- The variables of a process, as a function.
abbrev Variables : Type 0
Variables = String → Option String

abbrev process : Process Variables
process = record {
  get = λ var e. e var;
  set = λ var value e other. if var == other then some value else e other;
  reload = λ e. e;
  absolute = λ path. path;
}

process-IsEnvironment : IsEnvironment process
process-IsEnvironment =
    (λ var value e. rw (eq_refl var) refl, λ var other value e differ. rw differ refl)

abbrev started : Variables
started other = if "RALSH_DATA_DIR" == other then some "/srv/ral:/home/ral" else none

data_short : size "/srv/ral:/home/ral:/opt/ral/data" < npos
unfolding size
data_short = omega arith

use_fixed_layout-data_dirs_example :
    data_dirs process
      (suc (size "/srv/ral:/home/ral:/opt/ral/data"))
      ("/tmp/ral" ∷ [])
      "/usr/share/ral"
      (use_fixed_layout process true paths "/opt/ral/bin/ralsh" "ralsh" started).1
    ≡ some ("/tmp/ral" ∷ "/srv/ral" ∷ "/home/ral" ∷ "/opt/ral/data" ∷ "/usr/share/ral" ∷ [])
unfolding libral.Base.Text.split libral.Base.Text.all_chars
use_fixed_layout-data_dirs_example =
    use_fixed_layout-data_dirs process process-IsEnvironment paths "/opt/ral/bin/ralsh" "ralsh"
      "/opt/ral" started ("/tmp/ral" ∷ []) "/usr/share/ral" refl refl data_short

abbrev attrs : Dict Value
attrs = ("arch", text "x86") ∷ ("ensure", text "present") ∷ []

attrs-IsShort : IsShort attrs
unfolding size
attrs-IsShort = (omega arith, (omega arith, tt))

maxlen_aligns_example : All (λ e. size (pad (maxlen 0 attrs) e.0) ≡ maxlen 0 attrs) attrs
maxlen_aligns_example = maxlen_aligns attrs attrs-IsShort
