-- ===== src/Attr/WellFormed.antt =====
-- What `attr::spec::create` accepts.
use Prim.Native.String.{[] as nil, ◌∷◌ as cons}
use mathlib.Core.Path.{subst}
use text.Mathlib.Text.{starts_with}
use libral.Base.{
  ℕ, String, true, false, not, nat_eq, List, [], ◌∷◌, ◌==◌, traverse, traverse-All, traverse_cons,
  is_empty, Result, ok, >>=-eq-ok, ◌≡◌, refl, arith, All, Bool-cases, Option-cases, inl, inr,
}
use libral.Base.Text.{empty, split, split_at, erase_spaces, all_chars}
use libral.Base.Text.Laws.{not_space, trim_id, all_chars_mono}
use libral.Attr.{DataType, string_type, boolean_type, array_type, enum_type, Spec, create_kind}
use libral.Attr.Reads.{NotBlank}
use libral.Attr.Create.{
  option_char, check_option, read_options, read_brackets, read_enum_type, read_type, create,
}

pub record IsOption (o : String) : Type 0 where
  pub filled : NotBlank o
  pub plain : all_chars option_char o ≡ true

-- The options of an enum: at least one, and each of lower case letters and digits.
abbrev pub IsOptions : List String → Type 0
IsOptions [] = ⊥
IsOptions (o ∷ os) = IsOption o × All IsOption os

abbrev pub WellFormed : DataType → Type 0
WellFormed (enum_type os) = IsOptions os
WellFormed _ = Unit

pub option_not_space : (c : ℕ) → option_char c ≡ true → not_space c ≡ true
option_not_space c h = ground arith

pub option_no_comma : (c : ℕ) → option_char c ≡ true → not (nat_eq c b',') ≡ true
option_no_comma c h = ground arith

pub option_no_bracket : (c : ℕ) → option_char c ≡ true → not (nat_eq c b']') ≡ true
option_no_bracket c h = ground arith

IsOption-spaces : (o : String) → IsOption o → all_chars not_space o ≡ true
IsOption-spaces o h = all_chars_mono option_char not_space o option_not_space h.plain

check_option-IsOption : (s o : String) → check_option s ≡ ok o → IsOption o
unfolding check_option
check_option-IsOption s o e = record { filled = ground arith; plain = ground arith }

pub check_option_id : (o : String) → IsOption o → check_option o ≡ ok o
unfolding check_option
check_option_id o h = rw (trim_id o (IsOption-spaces o h), h.filled, h.plain)

is_empty-split : (k : ℕ) (s : String) → is_empty (split k s) ≡ false
unfolding split
is_empty-split k nil = refl
is_empty-split k (cons c s) = ground (arith, is_empty-split k s)

is_empty-traverse {ℓ} :
    {A B : Type ℓ} (f : A → Result B) (xs : List A) (ys : List B)
    → traverse f xs ≡ ok ys
    → is_empty xs ≡ false
    → is_empty ys ≡ false
is_empty-traverse f [] ys e h = cc
is_empty-traverse f (x ∷ xs) ys e h =
    let (_, _, _, _, same) = traverse_cons f x xs ys e in rw same refl

All-IsOptions : (os : List String) → All IsOption os → is_empty os ≡ false → IsOptions os
All-IsOptions [] a h = cc
All-IsOptions (o ∷ os) a h = a

read_options-WellFormed : (t s : String) (dt : DataType) → read_options t s ≡ ok dt → WellFormed dt
unfolding read_options
read_options-WellFormed t s dt e =
    let (os, e₁, last) =
      >>=-eq-ok (traverse check_option (split b',' s)) (λ os. ok (enum_type os))
        (rw (is_empty-split b',' s) at e) in
    subst WellFormed {x = enum_type os} (cc) (
      All-IsOptions os
        (traverse-All check_option IsOption check_option-IsOption (split b',' s) os e₁)
        (is_empty-traverse check_option (split b',' s) os e₁ (is_empty-split b',' s)))

read_brackets-WellFormed :
    (t s : String) (dt : DataType) → read_brackets t s ≡ ok dt → WellFormed dt
unfolding read_brackets
read_brackets-WellFormed t s dt e = elim (Bool-cases (empty s)) [
  | inl blank ↦ let refused = rw blank at e in cc
  | inr more ↦ elim (Option-cases (split_at b']' s)) [
    | inl open_end ↦ let refused = rw (more, open_end) at e in cc
    | inr ((options, rest), closed) ↦ read_options-WellFormed t options dt (rw (more, closed) at e)
  ]
]

read_enum_type-WellFormed :
    (t s : String) (dt : DataType) → read_enum_type t s ≡ ok dt → WellFormed dt
unfolding read_enum_type
read_enum_type-WellFormed t s dt e = elim (Option-cases (split_at b'[' s)) [
  | inl bare ↦ let refused = rw (bare, read_enum_type) at e in cc
  | inr ((front, rest), opened) ↦
      read_brackets-WellFormed t rest dt (rw (opened, read_enum_type) at e)
]

read_type-WellFormed : (t s : String) (dt : DataType) → read_type t s ≡ ok dt → WellFormed dt
unfolding read_type
read_type-WellFormed t s dt e = elim (Bool-cases (s == "boolean")) [
  | inl b ↦ plain boolean_type tt (rw b at e)
  | inr nb ↦ elim (Bool-cases (s == "string")) [
    | inl st ↦ plain string_type tt (rw (nb, st) at e)
    | inr ns ↦ elim (Bool-cases (s == "array[string]")) [
      | inl a ↦ plain array_type tt (rw (nb, ns, a) at e)
      | inr na ↦ elim (Bool-cases (starts_with s "enum")) [
        | inl en ↦ read_enum_type-WellFormed t s dt (rw (nb, ns, na, en) at e)
        | inr other ↦ let refused = rw (nb, ns, na, other) at e in cc
      ]
    ]
  ]
]
  where
    plain : (d : DataType) → WellFormed d → ok d ≡ ok dt → WellFormed dt
    plain d w same = subst WellFormed {x = d} (cc) w

-- A specification that is created has a well-formed type: an enum has options, and they consist of
-- lower case letters and digits.
pub create-WellFormed :
    (name desc type kind : String) (s : Spec)
    → create name desc type kind ≡ ok s
    → WellFormed s.data_type
unfolding create
create-WellFormed name desc type kind s e =
    let (k, e₁, e') = >>=-eq-ok (create_kind kind) _ e in
    let (dt, e₂, last) = >>=-eq-ok (read_type type (erase_spaces type)) _ e' in
    subst WellFormed {x = dt} (ground arith) (read_type-WellFormed type _ dt e₂)
