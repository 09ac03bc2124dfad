-- ===== src/Cli/Arguments.antt =====
-- The arguments ATTRIBUTE=VALUE, as `ralsh` and the C interface read them.
use Prim.Native.String.{[] as nil, ◌∷◌ as cons}
use Prim.Native.String.append as clauses
use mathlib.Core.Path.{fun_ext}
use libral.Base.{
  String, Char, code, Bool, true, false, Option, none, some, List, [], ◌∷◌, ◌==◌, if◌then◌else◌,
  Result, ok, err, throws, invalid_argument, ◌>>=◌, ◌≡◌, ◌≢◌, refl, map, All, ap, ◌∙◌,
}
use libral.Base.Text.{◌<>◌, split_at}
use libral.Base.Text.Laws.{Free, split_at-append}
use libral.Value.{Value}
use libral.Resource.{Resource, assign}
use libral.Provider.{Provider, parse}

equals-append : (v : String) → "=" <> v ≡ cons "=" v
equals-append v = clauses.cons "=" nil v ∙ ap (cons "=") (clauses.nil v)

module _ {W : Type 0} (p : Provider W) (complaint : String → String → String) where
  -- What becomes of a value that was read; an error ends the loop with a message.
  abbrev pub set_read : String → Resource → Result Value → Result Resource
  set_read attr r (ok v) = assign r attr v
  set_read attr r (err e) = err (complaint attr e)
  set_read attr r (throws x) = throws x

  abbrev pub read_split : Resource → Option (String × String) → Result Resource
  read_split r none = ok r
  read_split r (some (attr, value)) = set_read attr r (parse p attr value)

  -- the body of the loop: an argument without '=' is passed over
  unfoldable pub read_arg : String → Resource → Result Resource
  read_arg arg r = read_split r (split_at b'=' arg)

  -- the loop over the arguments
  unfoldable pub read_args : List String → Resource → Result Resource
  read_args [] r = ok r
  read_args (arg ∷ args) r = do r' ← read_arg arg r; read_args args r'

  -- What the arguments ask for: each attribute with the text of its value, in order.
  unfoldable pub set_all : List (String × String) → Resource → Result Resource
  set_all [] r = ok r
  set_all ((attr, value) ∷ rest) r = do r' ← set_read attr r (parse p attr value); set_all rest r'

  abbrev pub argument : String × String → String
  argument (attr, value) = attr <> "=" <> value

  read_arg-argument :
      (attr value : String) (r : Resource)
      → Free b'=' attr
      → read_arg (argument (attr, value)) r ≡ set_read attr r (parse p attr value)
  unfolding read_arg
  read_arg-argument attr value r h =
      rw (equals-append value) (rw (split_at-append b'=' attr "=" value h refl) refl)

  -- Arguments that are written as an attribute without a '=', a '=' and a text, which may have a
  -- '=' of its own, are read as exactly these attributes and texts, in order, up to the first that
  -- the provider refuses.
  pub read_args-argument :
      (avs : List (String × String)) (r : Resource)
      → All (λ av. Free b'=' av.0) avs
      → read_args (map argument avs) r ≡ set_all avs r
  unfolding read_args set_all
  read_args-argument [] r h = refl
  read_args-argument ((attr, value) ∷ avs) r h =
      rw (read_arg-argument attr value r h.0, fun_ext (λ r'. read_args-argument avs r' h.1)) refl

  -- An argument for the attribute "name" is not refused: if the provider can read its value, the
  -- assignment throws.
  pub name_argument_throws :
      (value : String) (args : List String) (r : Resource) (v : Value)
      → parse p "name" value ≡ ok v
      → read_args (argument ("name", value) ∷ args) r ≡ throws invalid_argument
  unfolding read_args libral.Base.Text.all_chars assign
  name_argument_throws value args r v e = rw (read_arg-argument "name" value r refl, e) refl
