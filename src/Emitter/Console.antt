-- ===== src/Emitter/Console.antt =====
-- `emitter`, as the console sees it, and `quiet_emitter`.
use libral.Base.{String, Option, List, [], ◌++◌, Result, ok, Exec}
use libral.Resource.{Resource, Update}
use libral.Context.{Changes}
use libral.Provider.{ProvSpec}

-- A line on the standard output or on the standard error.
pub data Line : Type 0 where
  out error : String → Line

abbrev pub Console : Type 0
Console = List Line

abbrev pub say : List Line → Exec Console (Unit {0})
say ls console = (ok tt, console ++ ls)

-- A provider that is loaded, with its `source()`.
pub record Loaded : Type 0 where
  pub spec : ProvSpec
  pub source : String

-- The virtual methods of `emitter`. `print_set` may throw where the resource is made that it shows.
pub record Emitter : Type 0 where
  pub print_set : Loaded → Result (List (Update × Changes)) → Exec Console (Unit {0})
  pub print_find : Loaded → Result (Option Resource) → List Line
  pub print_list : Loaded → Result (List Resource) → List Line
  pub print_providers : List Loaded → List Line

-- `quiet_emitter`
abbrev pub quiet_emitter : Emitter
quiet_emitter = record {
  print_set = λ p r console. (ok tt, console);
  print_find = λ p r. [];
  print_list = λ p r. [];
  print_providers = λ ps. [];
}
