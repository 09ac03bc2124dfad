-- ===== src/Attr/RoundTrip.antt =====
-- `attr::spec::create` reads back what is printed.
use Prim.Native.String.{[] as nil, ◌∷◌ as cons}
use Prim.Native.String.append as clauses
use text.Mathlib.TextLemmas.{append_assoc}
use text.Mathlib.TextPositions.{starts_with-append}
use libral.Base.{
  ℕ, code, String, Bool, true, false, List, [], ◌∷◌, ◌==◌, traverse_id, ok, ◌≡◌, ◌≢◌, refl, sym, ap,
  ◌∙◌, arith, All, ==_false,
}
use libral.Base.Text.{◌<>◌, join, erase_spaces, all_chars}
use libral.Base.Text.Laws.{
  not_space, erase_spaces_id, erase_spaces-append, split_at-append, all_chars_mono,
  all_chars-append,
}
use libral.Attr.{
  Kind, DataType, string_type, boolean_type, array_type, enum_type, Spec, create_kind, show_kind,
  show_type,
}
use libral.Attr.Reads.{split-join, empty-append, empty-join}
use libral.Attr.Create.{
  option_char, check_option, read_options, read_brackets, read_enum_type, read_type, create,
}
use libral.Attr.WellFormed.{
  IsOption, WellFormed, option_not_space, option_no_comma, option_no_bracket, check_option_id,
  create-WellFormed,
}

IsOption-All :
    (p : ℕ → Bool)
    → ((c : ℕ) → option_char c ≡ true → p c ≡ true)
    → (os : List String) → All IsOption os
    → All (λ o. all_chars p o ≡ true) os
IsOption-All p h [] a = tt
IsOption-All p h (o ∷ os) a = (all_chars_mono option_char p o h a.0.plain, IsOption-All p h os a.1)

erase_spaces-join :
    (o : String) (os : List String)
    → All (λ o. all_chars not_space o ≡ true) (o ∷ os)
    → erase_spaces (join ", " (o ∷ os)) ≡ join "," (o ∷ os)
unfolding join
erase_spaces-join o [] h = erase_spaces_id o h.0
erase_spaces-join o (v ∷ os) h =
    rw
      (
        erase_spaces-append o (", " <> join ", " (v ∷ os)),
        erase_spaces-append ", " (join ", " (v ∷ os)),
        erase_spaces_id o h.0,
        erase_spaces-join v os h.1,
      )
      (unfold erase_spaces in refl)

join-chars :
    (p : ℕ → Bool) (o : String) (os : List String)
    → p b',' ≡ true
    → All (λ o. all_chars p o ≡ true) (o ∷ os)
    → all_chars p (join "," (o ∷ os)) ≡ true
unfolding join
join-chars p o [] k h = h.0
join-chars p o (v ∷ os) k h =
    all_chars-append p o _ h.0
      (all_chars-append p "," _ (unfold all_chars in rw k refl) (join-chars p v os k h.1))

check_option-All : (os : List String) → All IsOption os → All (λ o. check_option o ≡ ok o) os
check_option-All [] h = tt
check_option-All (o ∷ os) h = (check_option_id o h.0, check_option-All os h.1)

read_options-join :
    (t o : String) (os : List String)
    → All IsOption (o ∷ os)
    → read_options t (join "," (o ∷ os)) ≡ ok (enum_type (o ∷ os))
unfolding read_options
read_options-join t o os h =
    rw (split-join o os (IsOption-All _ option_no_comma (o ∷ os) h))
      (rw (traverse_id check_option (o ∷ os) (check_option-All (o ∷ os) h)) refl)

-- The text of an enum as it is printed, without its spaces.
abbrev tight : List String → String
tight os = "enum" <> cons "[" (join "," os <> "]")

enum-append : (x : String) → "enum[" <> x ≡ "enum" <> cons "[" x
enum-append x =
    append_assoc "enum" "[" x
    ∙ ap (λ y. "enum" <> y) (clauses.cons "[" nil x ∙ ap (cons "[") (clauses.nil x))

first : String → ℕ
first nil = 0
first (cons c s) = code c

first-enum : (x : String) → first ("enum" <> x) ≡ b'e'
unfolding first
first-enum x = rw (clauses.cons "e" "num" x) refl

-- A text that begins with "enum" is none of the other types.
enum_other : (x s : String) → first s ≢ b'e' → (("enum" <> x) == s) ≡ false
enum_other x s h = ==_false ("enum" <> x) s (λ e. h (ap first (sym e) ∙ first-enum x))

erase_spaces-show :
    (o : String) (os : List String)
    → All IsOption (o ∷ os)
    → erase_spaces (show_type (enum_type (o ∷ os))) ≡ tight (o ∷ os)
unfolding show_type
erase_spaces-show o os h =
    rw
      (
        erase_spaces-append "enum[" (join ", " (o ∷ os) <> "]"),
        erase_spaces-append (join ", " (o ∷ os)) "]",
        erase_spaces-join o os (IsOption-All not_space option_not_space (o ∷ os) h),
      )
      (unfold erase_spaces in enum-append (join "," (o ∷ os) <> "]"))

read_brackets-join :
    (t o : String) (os : List String)
    → All IsOption (o ∷ os)
    → read_brackets t (join "," (o ∷ os) <> "]") ≡ ok (enum_type (o ∷ os))
unfolding read_brackets
read_brackets-join t o os h =
    let free = join-chars _ o os refl (IsOption-All _ option_no_bracket (o ∷ os) h) in
    rw
      (
        empty-append (join "," (o ∷ os)) "]" (empty-join o os h.0.filled),
        split_at-append b']' (join "," (o ∷ os)) "]" nil free refl,
        read_brackets,
      )
      (read_options-join t o os h)

read_enum_type-tight :
    (t o : String) (os : List String)
    → All IsOption (o ∷ os)
    → read_enum_type t (tight (o ∷ os)) ≡ ok (enum_type (o ∷ os))
unfolding read_enum_type
read_enum_type-tight t o os h =
    rw
      (
        split_at-append b'[' "enum" "[" (join "," (o ∷ os) <> "]") (unfold all_chars in refl) refl,
        read_enum_type,
      )
      (read_brackets-join t o os h)

read_type-tight :
    (t o : String) (os : List String)
    → All IsOption (o ∷ os)
    → read_type t (tight (o ∷ os)) ≡ ok (enum_type (o ∷ os))
unfolding read_type
read_type-tight t o os h =
    rw
      (
        enum_other _ "boolean" (unfold first in omega arith),
        enum_other _ "string" (unfold first in omega arith),
        enum_other _ "array[string]" (unfold first in omega arith),
        starts_with-append "enum" (cons "[" (join "," (o ∷ os) <> "]")),
      )
      (read_enum_type-tight t o os h)

read_type-show :
    (t : String) (dt : DataType) → WellFormed dt → read_type t (erase_spaces (show_type dt)) ≡ ok dt
read_type-show t string_type h = unfold show_type erase_spaces read_type in refl
read_type-show t boolean_type h = unfold show_type erase_spaces read_type in refl
read_type-show t array_type h = unfold show_type erase_spaces read_type in refl
read_type-show t (enum_type []) h = absurd h
read_type-show t (enum_type (o ∷ os)) h = rw (erase_spaces-show o os h) (read_type-tight t o os h)

create_kind-show : (k : Kind) → create_kind (show_kind k) ≡ ok k
unfolding create_kind show_kind
create_kind-show Kind.read = refl
create_kind-show Kind.write = refl
create_kind-show Kind.read_write = refl

-- A well-formed type and a kind, as they are printed, are read back.
pub create-show :
    (s : Spec)
    → WellFormed s.data_type
    → create s.name s.desc (show_type s.data_type) (show_kind s.kind) ≡ ok s
unfolding create
create-show s h = rw (create_kind-show s.kind, read_type-show _ s.data_type h) refl

-- Printing a specification that was created and reading it again gives the same specification.
pub create-show-create :
    (name desc type kind : String) (s : Spec)
    → create name desc type kind ≡ ok s
    → create s.name s.desc (show_type s.data_type) (show_kind s.kind) ≡ ok s
create-show-create name desc type kind s e =
    create-show s (create-WellFormed name desc type kind s e)
