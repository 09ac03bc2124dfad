-- ===== src/Cli/Starting.antt =====
-- The name of the program, its exit status, and where a fixed layout of directories is looked for.
use Prim.Native.String.{[] as nil, ◌∷◌ as cons}
use Prim.Native.String.append as clauses
use Prim.Native.Char.{char}
use package.text.Mathlib.TextEquality.{Char-path}
use mathlib.Core.Path.{subst}
use libral.Base.{
  ℕ, Char, code, String, Bool, true, false, Option, none, some, List, ◌==◌, Result, ok, err, throws,
  ◌≡◌, ◌↔◌, ◌⊎◌, inl, inr, refl, sym, ap, ◌∙◌, arith, Option-cases,
}
use libral.Base.Text.{◌<>◌, all_chars}
use libral.Base.Text.Laws.{Free}
use libral.Ral.Environment.{Process}
use libral.Emitter.Console.{Line, Emitter, Loaded, quiet_emitter}
use libral.Cli.Main.{Options, Library, Screen}
use libral.Cli.Status.{IsExit, IsQuery, main-IsExit, failing, passing, continue-IsExit}
use libral.Cli.Start.{
  behind_slash, keep_last, or_all, progname, Paths, use_fixed_layout, Parsed, refused, given,
  Parser, notified, with_parsed, by_name, start, Prog,
}

-- What stands behind the last slash of a path, or the whole path.
abbrev pub IsBase : String → String → Type 0
IsBase s b = Free b'/' b × ((s ≡ b) ⊎ ((dir : String) × (s ≡ dir <> "/" <> b)))

behind_slash-none : (s : String) → Free b'/' s → behind_slash s ≡ none
unfolding behind_slash all_chars
behind_slash-none nil h = refl
behind_slash-none (cons c s) h = ground (arith, behind_slash-none s)

behind_slash-Free : (s : String) → behind_slash s ≡ none → Free b'/' s
unfolding behind_slash all_chars
behind_slash-Free nil h = refl
behind_slash-Free (cons c s) h = ground (arith, behind_slash-Free s)

slash_cons : (b : String) → "/" <> b ≡ cons (char 47 tt) b
slash_cons b = clauses.cons (char 47 tt) nil b ∙ ap (cons (char 47 tt)) (clauses.nil b)

behind_slash-append : (dir b : String) → Free b'/' b → behind_slash (dir <> "/" <> b) ≡ some b
unfolding behind_slash
behind_slash-append nil b h =
    ap behind_slash (clauses.nil ("/" <> b) ∙ slash_cons b)
    ∙ ap (keep_last (char 47 tt) b) (behind_slash-none b h)
behind_slash-append (cons c dir) b h =
    rw (clauses.cons c dir ("/" <> b)) (ground (arith, behind_slash-append dir b h))

-- A slash, with nothing before it and with a character more before it.
slash_first : (c : Char) (s : String) → code c ≡ b'/' → cons c s ≡ "" <> "/" <> s
slash_first c s e =
    ap (λ (d : Char). cons d s) (Char-path c (char 47 tt) e)
    ∙ sym (clauses.nil ("/" <> s) ∙ slash_cons s)

slash_later :
    (c : Char) (s b : String)
    → ((dir : String) × (s ≡ dir <> "/" <> b))
    → (dir : String) × (cons c s ≡ dir <> "/" <> b)
slash_later c s b (dir, e) = (cons c dir, ap (cons c) e ∙ sym (clauses.cons c dir ("/" <> b)))

found_here : (c : Char) (s b : String) → keep_last c s none ≡ some b → (code c ≡ b'/') × (s ≡ b)
found_here c s b h = ground (arith, h)

behind_slash-some :
    (s b : String)
    → behind_slash s ≡ some b
    → Free b'/' b × ((dir : String) × (s ≡ dir <> "/" <> b))
unfolding behind_slash
behind_slash-some nil b h = cc
behind_slash-some (cons c s) b h = elim (Option-cases (behind_slash s)) [
  | inl e ↦
      let (slash, same) = found_here c s b (ap (keep_last c s) (sym e) ∙ h) in
      (
        subst (Free b'/') same (behind_slash-Free s e),
        subst (λ (d : String). (dir : String) × (cons c s ≡ dir <> "/" <> d)) same
            ("", slash_first c s slash),
      )
  | inr (t, e) ↦
      let (plain, dir) = behind_slash-some s b (ground (arith, e, h)) in
      (plain, slash_later c s b dir)
]

IsBase-found : (s b : String) → progname s ≡ b → IsBase s b
unfolding progname
IsBase-found s b h = elim (Option-cases (behind_slash s)) [
  | inl e ↦
      let same = ap (or_all s) (sym e) ∙ h in
      (subst (Free b'/') same (behind_slash-Free s e), inl same)
  | inr (t, e) ↦
      let same = ap (or_all s) (sym e) ∙ h in
      let (plain, dir) = behind_slash-some s b (e ∙ ap some same) in (plain, inr dir)
]

IsBase-progname : (s b : String) → IsBase s b → progname s ≡ b
unfolding progname
IsBase-progname s b (plain, inl same) =
    ap (or_all s) (behind_slash-none s (subst (Free b'/') (sym same) plain)) ∙ same
IsBase-progname s b (plain, inr (dir, e)) =
    ap (or_all s) (ap behind_slash e ∙ behind_slash-append dir b plain)

-- The name of the program is what stands behind the last slash of how it was called, or all of it if
-- there is no slash, and nothing else is.
pub progname-IsBase : (argv0 b : String) → (progname argv0 ≡ b) ↔ IsBase argv0 b
progname-IsBase argv0 b = (IsBase-found argv0 b, IsBase-progname argv0 b)

IsExit-mono : {P Q : Type 0} → (P → Q) → (r : Result ℕ) → IsExit P r → IsExit Q r
IsExit-mono f (ok n) (below, one) = (below, λ e. f (one e))
IsExit-mono f (err e) h = tt
IsExit-mono f (throws x) h = tt

-- A command line that asks for one resource, and is taken as it is.
abbrev pub AsksForOne : Parser → List String → Type 0
AsksForOne parser args = (o : Options) × (parser.store args ≡ given false o) × IsQuery o

module _ {W : Type 0} (lib : Library W) (em : Options → Emitter) (explained : Loaded → List Line)
    (version : String) (parser : Parser) where
  notified-IsExit :
      (o : Options) (words : Option String) (s : Screen W)
      → IsExit (IsQuery o) (notified lib em explained version parser o words s).0
  notified-IsExit o (some what) s = failing lib (em o) explained (IsQuery o)
  notified-IsExit o none s = main-IsExit lib (em o) explained o version s

  with_parsed-IsExit :
      (args : List String) (read : Parsed) (s : Screen W)
      → parser.store args ≡ read
      → IsExit (AsksForOne parser args) (with_parsed lib em explained version parser read s).0
  with_parsed-IsExit args (refused what) s e =
      failing lib quiet_emitter explained (AsksForOne parser args)
  with_parsed-IsExit args (given true o) s e = passing lib (em o) explained (AsksForOne parser args)
  with_parsed-IsExit args (given false o) s e =
      IsExit-mono (λ q. (o, e, q)) _ (notified-IsExit o (parser.notify o) s)

  module _ (p : Process W) (fs : Paths)
      (prog_mruby prog_mirb : Prog lib em explained version parser) where
    -- Under every name but those of `mruby` and `mirb`, for every command line and layout: where the
    -- program ends with a status, it is 0, 1 or 2, and it is 1 only if the command line was taken and
    -- has a type and a name and no attributes.
    pub start-IsExit :
        (fixed : Bool) (argv0 : String) (args : List String) (s : Screen W)
        → (progname argv0 == "mruby") ≡ false
        → (progname argv0 == "mirb") ≡ false
        → IsExit
            (AsksForOne parser args)
            (start lib em explained version parser p fs prog_mruby prog_mirb fixed argv0 args s).0
    unfolding start by_name
    start-IsExit fixed argv0 args s not_mruby not_mirb =
        continue-IsExit lib quiet_emitter explained (AsksForOne parser args)
          (use_fixed_layout p fixed fs argv0 (progname argv0) s.world).0 _ _
          (λ _ s'. rw (not_mruby, not_mirb) (with_parsed-IsExit args (parser.store args) s' refl))
