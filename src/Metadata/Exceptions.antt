-- ===== src/Metadata/Exceptions.antt =====
-- Which exceptions the methods of lib/inc/libral/mruby.hpp report, and what they leave pending.
use libral.Base.{
  String, Bool, Option, none, some, Result, ok, err, ◌≡◌, refl, ap, ◌∙◌, arith, ◌>>=◌,
}
use libral.Base.Text.{◌<>◌}
use libral.Provider.{ProvSpec}
use libral.Metadata.Read.{read, parse_failed}
use libral.Metadata.Interpreter.{
  Session, Interpreter, open_mruby, has_exc, error_of, exc_as_error, check, str_new, funcall,
  funcall_text, module_get, hash_get, hash_get_text, get_string, hash_keys, p, load_in, read_text,
}

abbrev pub IsClear : {H V : Type 0} → Session H V → Type 0
IsClear s = s.exc ≡ none

module _ {H V : Type 0} (mrb : Interpreter H V) where
  -- What `message` of an exception says.
  abbrev pub message : V → Session H V → String
  message x s =
      let (val, s') = mrb.funcall_0 x "message" s in mrb.text val (record s' { exc = none })

  -- A call is reported by the exception that it leaves pending, which is then dropped.
  check-none : (v : V) (s : Session H V) → IsClear s → check mrb (v, s) ≡ (ok v, s)
  unfolding check has_exc
  check-none v s h = ground arith

  check-some :
      (v x : V) (s : Session H V)
      → s.exc ≡ some x
      → check mrb (v, s)
        ≡ (err (message x s), record (mrb.funcall_0 x "message" s).1 { exc = none })
  unfolding check has_exc exc_as_error error_of
  check-some v x s h = ground arith

  check_cases : (v : V) (s : Session H V) (e : Option V) → s.exc ≡ e → IsClear (check mrb (v, s)).1
  check_cases v s none h = let done = check-none v s h in cc
  check_cases v s (some x) h = let done = check-some v x s h in cc

  check-IsClear : (v : V) (s : Session H V) → IsClear (check mrb (v, s)).1
  check-IsClear v s = check_cases v s s.exc refl

  infix 4 ◌⟶*◌
  -- What can be done in a session with the methods that change it, in any order.
  pub data ◌⟶*◌ : Session H V → Session H V → Type 0 where
    done : {a : Session H V} → a ⟶* a
    making : {a b : Session H V} (text : String) → a ⟶* b → a ⟶* (str_new mrb text b).1
    calling :
        {a b : Session H V} (obj arg : V) (name : String)
        → a ⟶* b
        → a ⟶* (funcall mrb obj name arg b).1
    asking :
        {a b : Session H V} (obj : V) (name arg : String)
        → a ⟶* b
        → a ⟶* (funcall_text mrb obj name arg b).1
    finding : {a b : Session H V} (name : String) → a ⟶* b → a ⟶* (module_get mrb name b).1
    looking : {a b : Session H V} (hash key : V) → a ⟶* b → a ⟶* (hash_get mrb hash key b).1
    looking_up :
        {a b : Session H V} (hash : V) (key : String)
        → a ⟶* b
        → a ⟶* (hash_get_text mrb hash key b).1
    reading :
        {a b : Session H V} (hash : V) (key dflt : String)
        → a ⟶* b
        → a ⟶* (get_string mrb hash key dflt b).1
    listing : {a b : Session H V} (hash : V) → a ⟶* b → a ⟶* (hash_keys mrb hash b).1
    printing : {a b : Session H V} (v : V) → a ⟶* b → a ⟶* p mrb v b

  -- `mrb_str_new` raises nothing.
  abbrev pub MakesStrings : Type 0
  MakesStrings = (text : String) (s : Session H V) → IsClear s → IsClear (mrb.str_new text s).1

  -- The functions whose callers do not check raise nothing: making a string, finding a module, looking
  -- into a hash, and printing.
  pub record IsQuiet : Type 0 where
    pub makes : MakesStrings
    pub finds : (name : String) (s : Session H V) → IsClear s → IsClear (mrb.module_get name s).1
    pub looks : (hash key : V) (s : Session H V) → IsClear s → IsClear (mrb.hash_get hash key s).1
    pub lists : (hash : V) (s : Session H V) → IsClear s → IsClear (mrb.hash_keys hash s).1
    pub prints : (v : V) (s : Session H V) → IsClear s → IsClear (mrb.show v s)

  -- A string that is made is handed to the method.
  funcall_text-check :
      MakesStrings
      → (obj : V) (name arg : String) (s : Session H V) → IsClear s
      → funcall_text mrb obj name arg s
        ≡ check mrb (mrb.funcall_1 obj name (mrb.str_new arg s).0 (mrb.str_new arg s).1)
  unfolding funcall_text has_exc
  funcall_text-check makes obj name arg s h = let clear = makes arg s h in ground arith

  get_string-IsClear :
      IsQuiet
      → (hash : V) (key dflt : String) (s : Session H V) → IsClear s
      → IsClear (get_string mrb hash key dflt s).1
  unfolding get_string hash_get_text
  get_string-IsClear quiet hash key dflt s h =
      let found =
        quiet.looks hash (mrb.str_new key s).0 (mrb.str_new key s).1 (quiet.makes key s h) in
      ground arith

  reached-IsClear : {a b : Session H V} → IsQuiet → a ⟶* b → IsClear a → IsClear b
  unfolding str_new funcall module_get hash_get hash_get_text hash_keys p
  reached-IsClear quiet done h = h
  reached-IsClear quiet (making {b = b} text steps) h =
      check-IsClear (mrb.str_new text b).0 (mrb.str_new text b).1
  reached-IsClear quiet (calling {b = b} obj arg name steps) h =
      check-IsClear (mrb.funcall_1 obj name arg b).0 (mrb.funcall_1 obj name arg b).1
  reached-IsClear quiet (asking {b = b} obj name arg steps) h =
      let called = mrb.funcall_1 obj name (mrb.str_new arg b).0 (mrb.str_new arg b).1 in
      let checked = check-IsClear called.0 called.1 in
      let same = funcall_text-check quiet.makes obj name arg b (reached-IsClear quiet steps h) in cc
  reached-IsClear quiet (finding {b = b} name steps) h =
      quiet.finds name b (reached-IsClear quiet steps h)
  reached-IsClear quiet (looking {b = b} hash key steps) h =
      quiet.looks hash key b (reached-IsClear quiet steps h)
  reached-IsClear quiet (looking_up {b = b} hash key steps) h =
      quiet.looks hash (mrb.str_new key b).0 (mrb.str_new key b).1
        (quiet.makes key b (reached-IsClear quiet steps h))
  reached-IsClear quiet (reading {b = b} hash key dflt steps) h =
      get_string-IsClear quiet hash key dflt b (reached-IsClear quiet steps h)
  reached-IsClear quiet (listing {b = b} hash steps) h =
      quiet.lists hash b (reached-IsClear quiet steps h)
  reached-IsClear quiet (printing {b = b} v steps) h =
      quiet.prints v b (reached-IsClear quiet steps h)

  opened-IsClear : (heap : Option H) (s : Session H V) → open_mruby heap ≡ ok s → IsClear s
  unfolding open_mruby
  opened-IsClear none s h = cc
  opened-IsClear (some heap) s h = ground arith

  -- What a call is to end with, by the exception that mruby has left pending.
  abbrev pub reported : Option V → V × Session H V → Result V × Session H V
  reported none called = (ok called.0, called.1)
  reported (some x) called =
      (err (message x called.1), record (mrb.funcall_0 x "message" called.1).1 { exc = none })

  check-reported :
      (called : V × Session H V) (e : Option V)
      → called.1.exc ≡ e
      → check mrb called ≡ reported e called
  check-reported called none h = check-none called.0 called.1 h
  check-reported called (some x) h = check-some called.0 x called.1 h

  -- After any methods called in a session that has been opened, where making strings, finding modules,
  -- looking into hashes and printing raise nothing: a method called with a string gives what mruby
  -- returns if that very call has raised nothing, and else the message of what it has raised. Either
  -- way nothing is pending behind it.
  pub funcall_text-reports :
      IsQuiet
      → (heap : Option H) (a b : Session H V) → open_mruby heap ≡ ok a
      → a ⟶* b
      → (obj : V) (name arg : String)
      → let called = mrb.funcall_1 obj name (mrb.str_new arg b).0 (mrb.str_new arg b).1 in
        (funcall_text mrb obj name arg b ≡ reported called.1.exc called)
        × IsClear (funcall_text mrb obj name arg b).1
  funcall_text-reports quiet heap a b opened steps obj name arg =
      let called = mrb.funcall_1 obj name (mrb.str_new arg b).0 (mrb.str_new arg b).1 in
      let clear = reached-IsClear quiet steps (opened-IsClear heap a opened) in
      let same = funcall_text-check quiet.makes obj name arg b clear in
      let checked = check-IsClear called.0 called.1 in
      let told = check-reported called called.1.exc refl in (cc, cc)

  -- Where the string could not be made, what has been raised stays pending, and the next call that
  -- keeps it is reported as failed.
  pub funcall_text_leaves :
      (obj : V) (name arg : String) (s : Session H V) (x : V)
      → (mrb.str_new arg s).1.exc ≡ some x
      → funcall_text mrb obj name arg s ≡ (err "Failed to make string", (mrb.str_new arg s).1)
  unfolding funcall_text has_exc
  funcall_text_leaves obj name arg s x h = ground arith

  -- What `YAML.load` is called with and returns, in a session in which it is found.
  abbrev pub loading : String → H → V × Session H V
  loading text heap =
      let (yaml_class, s) = mrb.module_get "YAML" (record { exc = none; heap = heap }) in
      let (made, s') = mrb.str_new text s in mrb.funcall_1 yaml_class "load" made s'

  -- What reading the metadata is to end with, by the exception that `YAML.load` leaves.
  abbrev pub outcome :
      (String → String) → String → Bool → Option V → V × Session H V → Result ProvSpec
  outcome which name flag none called = read which (ok (mrb.tree called.0 called.1)) name flag
  outcome which name flag (some x) called =
      err ("failed to parse provider metadata: " <> message x called.1)

  read_reported :
      (which : String → String) (name : String) (flag : Bool) (e : Option V)
      (called : V × Session H V)
      → let (hash, s) = reported e called in
        read which (hash >>= λ h. ok (mrb.tree h s)) name flag ≡ outcome which name flag e called
  unfolding read parse_failed
  read_reported which name flag none called = refl
  read_reported which name flag (some x) called = refl

  -- Where mruby opens, knows YAML and makes strings, reading a text of metadata fails with the message
  -- of what `YAML.load` has raised, if anything, and else is reading the tree that it has made.
  pub read_text_lem :
      MakesStrings
      → (heap : H) → mrb.mrb_open ≡ some heap
      → IsClear (mrb.module_get "YAML" (record { exc = none; heap = heap })).1
      → (which : String → String) (name text : String) (flag : Bool)
      → let called = loading text heap in
        read_text mrb which name text flag ≡ outcome which name flag called.1.exc called
  unfolding read_text open_mruby load_in
  read_text_lem makes heap opens finds which name text flag =
      let called = loading text heap in
      let (yaml_class, s) = mrb.module_get "YAML" (record { exc = none; heap = heap }) in
      let same = funcall_text-check makes yaml_class "load" text s finds in
      let told = check-reported called called.1.exc refl in
      ap (λ o. open_mruby o >>= λ s. read which (load_in mrb text s) name flag) opens
      ∙ ap
          (λ (done : Result V × Session H V).
            read which (done.0 >>= λ h. ok (mrb.tree h done.1)) name flag)
          (same ∙ told)
      ∙ read_reported which name flag called.1.exc called
