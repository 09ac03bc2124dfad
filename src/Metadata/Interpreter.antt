-- ===== src/Metadata/Interpreter.antt =====
-- A session of the interpreter mruby and the exception that is pending in it.
-- lib/inc/libral/mruby.hpp, and how `spec::read` of lib/src/prov/spec.cc loads the metadata with it.
use libral.Base.{
  String, Bool, true, false, Option, none, some, Result, ok, err, Exec, ◌>>=◌, if◌then◌else◌,
}
use libral.Provider.{ProvSpec}
use libral.Metadata.Suitable.{Yaml}
use libral.Metadata.Read.{read}

-- `mrb_state`: `exc`, and all else in it.
pub record Session (H V : Type 0) : Type 0 where
  pub exc : Option V
  pub heap : H

-- The functions of mruby that the code calls. `text` is what `RSTRING_PTR` shows of a value, `show` is
-- `mrb_p`, and `tree` is what the methods that look into a value see of it.
pub record Interpreter (H V : Type 0) : Type 0 where
  pub mrb_open : Option H
  pub module_get : String → Session H V → V × Session H V
  pub str_new : String → Session H V → V × Session H V
  pub funcall_0 : V → String → Session H V → V × Session H V
  pub funcall_1 : V → String → V → Session H V → V × Session H V
  pub hash_get : V → V → Session H V → V × Session H V
  pub hash_keys : V → Session H V → V × Session H V
  pub show : V → Session H V → Session H V
  pub is_hash : V → Bool
  pub is_string : V → Bool
  pub text : V → Session H V → String
  pub tree : V → Session H V → Yaml

-- `mruby::open()`
unfoldable pub open_mruby : {H V : Type 0} → Option H → Result (Session H V)
open_mruby none = err "Failed to open MRuby"
open_mruby (some heap) = ok (record { exc = none; heap = heap })

module _ {H V : Type 0} (mrb : Interpreter H V) where
  -- `has_exc()`
  unfoldable pub has_exc : Session H V → Bool
  has_exc s = elim s.exc [ none ↦ false | some x ↦ true ]

  abbrev no_exception : String
  no_exception = "internal error: exc_as_error called even though there was no exception"

  -- `exc_as_error()`: its message, and the session that has dropped the exception
  unfoldable pub error_of : Option V → Session H V → String × Session H V
  error_of none s = (no_exception, s)
  error_of (some x) s =
      let (val, s') = mrb.funcall_0 x "message" s in
      let dropped = record s' { exc = none } in (mrb.text val dropped, dropped)

  unfoldable pub exc_as_error : Session H V → String × Session H V
  exc_as_error s = error_of s.exc s

  -- `check(v)`, given what a call has returned and the session behind it
  unfoldable pub check : V × Session H V → Result V × Session H V
  check (v, s) =
      if has_exc s then (let (detail, s') = exc_as_error s in (err detail, s')) else (ok v, s)

  -- `str_new(s)`
  unfoldable pub str_new : String → Exec (Session H V) V
  str_new text s = check (mrb.str_new text s)

  -- `funcall(obj, name, arg)` on an object; on a class it is the same, with the class as an object
  unfoldable pub funcall : V → String → V → Exec (Session H V) V
  funcall obj name arg s = check (mrb.funcall_1 obj name arg s)

  -- `funcall(rc, name, arg)` with a string, once that has been made
  unfoldable pub funcall_text : V → String → String → Exec (Session H V) V
  funcall_text obj name arg s =
      let (made, s') = mrb.str_new arg s in
      if has_exc s'
      then (err "Failed to make string", s')
      else check (mrb.funcall_1 obj name made s')

  -- `module_get(name)`, `hash_get(hash, key)` and `hash_keys(hash)`, which do not check
  unfoldable pub module_get : String → Session H V → V × Session H V
  module_get name s = mrb.module_get name s

  unfoldable pub hash_get : V → V → Session H V → V × Session H V
  hash_get hash key s = mrb.hash_get hash key s

  unfoldable pub hash_keys : V → Session H V → V × Session H V
  hash_keys hash s = mrb.hash_keys hash s

  -- `hash_get(hash, key)` with a string
  unfoldable pub hash_get_text : V → String → Session H V → V × Session H V
  hash_get_text hash key s = let (k, s') = mrb.str_new key s in mrb.hash_get hash k s'

  -- `hash_get_string(hash, key, dflt)`; neither nil nor anything else that is no string counts
  unfoldable pub get_string : V → String → String → Session H V → String × Session H V
  get_string hash key dflt s =
      if mrb.is_hash hash
      then (let (v, s') = hash_get_text hash key s in
          ((if mrb.is_string v then mrb.text v s' else dflt), s'))
      else (dflt, s)

  -- `p(v)`
  unfoldable pub p : V → Session H V → Session H V
  p v s = mrb.show v s

  -- What `YAML.load` makes of the text, as `spec::read` asks for it in a session
  unfoldable pub load_in : String → Session H V → Result Yaml
  load_in text s =
      let (yaml_class, s') = mrb.module_get "YAML" s in
      let (hash, s'') = funcall_text yaml_class "load" text s' in hash >>= λ h. ok (mrb.tree h s'')

  -- `spec::read(env, prov_name, yaml, suitable)`, from its first line
  unfoldable pub read_text : (String → String) → String → String → Bool → Result ProvSpec
  read_text which prov_name text suitable =
      open_mruby mrb.mrb_open >>= λ s. read which (load_in text s) prov_name suitable
