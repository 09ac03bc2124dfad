-- ===== src/Examples/Interpreting.antt =====
-- A session of the interpreter at concrete inputs.
use libral.Base.{false, true, ℕ, suc, String, none, some, ok, err, ◌≡◌, refl, ◌==◌, if◌then◌else◌}
use libral.Metadata.Suitable.{Yaml}
use libral.Metadata.Interpreter.{
  Session, Interpreter, open_mruby, has_exc, error_of, exc_as_error, check, funcall, funcall_text,
}
use libral.Metadata.Exceptions.{IsClear, IsQuiet, done, asking, finding, funcall_text-reports}

data RubyObject : Type 0 where
  yaml_module : RubyObject
  string exception : String → RubyObject

-- The heap is the number of objects in it.
abbrev State : Type 0
State = Session ℕ RubyObject

abbrev made : State → State
made s = record s { heap = suc s.heap }

abbrev load : RubyObject → State → RubyObject × State
load (string text) s =
    if text == "{"
    then (string "", record (made s) { exc = some (exception "did not find '}'") })
    else (string text, made s)
load v s = (v, made s)

abbrev inside : RubyObject → String
inside yaml_module = "YAML"
inside (string s) = s
inside (exception s) = s

abbrev mruby : Interpreter ℕ RubyObject
mruby = record {
  mrb_open = some 0;
  module_get = λ name s. (yaml_module, s);
  str_new = λ text s. (string text, made s);
  funcall_0 = λ x name s. (string (inside x), made s);
  funcall_1 = λ obj name arg s. load arg s;
  hash_get = λ hash key s. (hash, s);
  hash_keys = λ hash s. (hash, s);
  show = λ v s. s;
  is_hash = λ v. false;
  is_string = λ v. true;
  text = λ v s. inside v;
  tree = λ v s. Yaml.string (inside v);
}

abbrev opened : State
opened = record { exc = none; heap = 0 }

mruby-IsQuiet : IsQuiet mruby
mruby-IsQuiet = record {
  makes = λ text s h. h;
  finds = λ name s h. h;
  looks = λ hash key s h. h;
  lists = λ hash s h. h;
  prints = λ v s h. h;
}

-- a document that cannot be read, before one that can
abbrev after_error : State
after_error = (funcall_text mruby yaml_module "load" "{" opened).1

funcall_text-reports_example :
    (funcall_text mruby yaml_module "load" "a" after_error
      ≡ (ok (string "a"), record { exc = none; heap = 5 }))
    × IsClear (funcall_text mruby yaml_module "load" "a" after_error).1
unfolding funcall_text open_mruby check has_exc exc_as_error error_of
    libral.Metadata.Interpreter.module_get
funcall_text-reports_example =
    funcall_text-reports mruby mruby-IsQuiet (some 0) opened after_error refl
      (asking yaml_module "load" "{" (finding "YAML" done)) yaml_module "load" "a"

-- The error of the first document is that of the exception.
funcall_text_test : (funcall_text mruby yaml_module "load" "{" opened).0 ≡ err "did not find '}'"
unfolding funcall_text check has_exc exc_as_error error_of
funcall_text_test = refl

-- Where there is no room for a string, the exception stays and is reported by the next call.
abbrev full : Interpreter ℕ RubyObject
full = record mruby {
  str_new = λ text s. (string "", record s { exc = some (exception "no memory") });
}

stale_test :
    (funcall mruby yaml_module "size"
      (string "a")
      (funcall_text full yaml_module "load" "a" opened).1).0
    ≡ err "no memory"
unfolding funcall funcall_text check has_exc exc_as_error error_of
stale_test = refl
