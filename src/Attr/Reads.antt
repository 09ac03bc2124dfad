-- ===== src/Attr/Reads.antt =====
-- The values that an attribute reads are of its type, and what a type accepts.
use Prim.Native.String.{[] as nil, ◌∷◌ as cons}
use Prim.Native.String.append as clauses
use mathlib.Core.Path.{subst}
use libral.Base.{
  sym, ◌∙◌, traverse-All, traverse_id, String, Bool, true, false, List, [], ◌∷◌, traverse, contains,
  ok, >>=-eq-ok, ◌≡◌, refl, arith, All, Bool-cases, inl, inr, ap,
}
use libral.Base.Text.{◌<>◌, empty, split, trim, join, iequals}
use libral.Base.Text.Laws.{Free, split_id, split-append}
use libral.Base.Text.Trim.{trim_twice}
use libral.Value.{Value, text, boolean, array}
use libral.Attr.{
  DataType, string_type, boolean_type, array_type, enum_type, read_string, read_boolean, read_array,
  read_enum, read_entry,
}

abbrev pub NotBlank : String → Type 0
NotBlank s = empty s ≡ false

-- An entry of an array: not empty, and with no white space at its ends, so that it is more than white
-- space.
abbrev pub IsEntry : String → Type 0
IsEntry s = NotBlank s × (trim s ≡ s)

-- The values of a type: an array holds entries, and an enum one of its options.
pub data HasType : DataType → Value → Type 0 where
  a_string : (s : String) → HasType string_type (text s)
  a_boolean : (b : Bool) → HasType boolean_type (boolean b)
  an_array : (ss : List String) → All IsEntry ss → HasType array_type (array ss)
  an_option :
      (os : List String) (s : String) → contains os s ≡ true → HasType (enum_type os) (text s)

read_entry_ok : (s elt e : String) → read_entry s elt ≡ ok e → NotBlank e × (e ≡ trim elt)
unfolding read_entry
read_entry_ok s elt e h = ground arith

read_entry-IsEntry : (s elt e : String) → read_entry s elt ≡ ok e → IsEntry e
read_entry-IsEntry s elt e h =
    let (full, same) = read_entry_ok s elt e h in (full, ap trim same ∙ trim_twice elt ∙ sym same)

read_boolean_ok : (s : String) (v : Value) → read_boolean s ≡ ok v → v ≡ boolean (iequals s "true")
unfolding read_boolean
read_boolean_ok s v e = ground arith

read_enum_ok :
    (os : List String) (s : String) (v : Value)
    → read_enum os s ≡ ok v
    → (contains os s ≡ true) × (v ≡ text s)
unfolding read_enum
read_enum_ok os s v e = ground arith

read_array_ok :
    (s : String) (v : Value)
    → read_array s ≡ ok v
    → (ss : List String) × (v ≡ array ss) × All IsEntry ss
unfolding read_array
read_array_ok s v e = elim (Bool-cases (empty s)) [
  | inl none_there ↦ ([], ground arith, tt)
  | inr some_there ↦
      let (ss, e₁, e₂) =
        >>=-eq-ok (traverse (read_entry s) (split b',' s)) (λ ary. ok (array ary))
          (rw some_there at e) in
      (ss, cc, traverse-All (read_entry s) IsEntry (read_entry-IsEntry s) (split b',' s) ss e₁)
]

-- Whatever an attribute reads from a text is a value of its type: the entries of an array are not
-- empty and have no white space at their ends, so that none is blank, and a value of an enum is one
-- of its options.
pub read_string-HasType :
    (dt : DataType) (s : String) (v : Value) → read_string dt s ≡ ok v → HasType dt v
unfolding read_string
read_string-HasType string_type s v e = subst (HasType string_type) (cc) (a_string s)
read_string-HasType boolean_type s v e =
    subst (HasType boolean_type) (sym (read_boolean_ok s v e)) (a_boolean _)
read_string-HasType array_type s v e =
    let (ss, same, full) = read_array_ok s v e in
    subst (HasType array_type) (sym same) (an_array ss full)
read_string-HasType (enum_type os) s v e =
    let (there, same) = read_enum_ok os s v e in
    subst (HasType (enum_type os)) (sym same) (an_option os s there)

-- A word that can stand in an array: not blank, with no comma and no white space at its ends.
pub record IsWord (w : String) : Type 0 where
  pub filled : NotBlank w
  pub no_comma : Free b',' w
  pub trimmed : trim w ≡ w

comma-append : (t : String) → "," <> t ≡ cons "," t
comma-append t = clauses.cons "," nil t ∙ ap (cons ",") (clauses.nil t)

pub split-join :
    (w : String) (ws : List String)
    → All (Free b',') (w ∷ ws)
    → split b',' (join "," (w ∷ ws)) ≡ w ∷ ws
unfolding join
split-join w [] h = split_id b',' w h.0
split-join w (v ∷ ws) h =
    rw comma-append
      (split-append b',' w "," (join "," (v ∷ ws)) h.0 refl ∙ ap (◌∷◌ w) (split-join v ws h.1))

pub empty-append : (w t : String) → NotBlank w → empty (w <> t) ≡ false
empty-append nil t h = cc
empty-append (cons c w) t h = rw (clauses.cons c w t) refl

pub empty-join : (w : String) (ws : List String) → NotBlank w → empty (join "," (w ∷ ws)) ≡ false
unfolding join
empty-join w [] h = h
empty-join w (v ∷ ws) h = empty-append w _ h

Words-Free : (ws : List String) → All IsWord ws → All (Free b',') ws
Words-Free [] h = tt
Words-Free (w ∷ ws) h = (h.0.no_comma, Words-Free ws h.1)

read_entry_word : (s w : String) → IsWord w → read_entry s w ≡ ok w
unfolding read_entry
read_entry_word s w h = rw (h.trimmed, h.filled)

read_entry_words :
    (s : String) (ws : List String) → All IsWord ws → All (λ w. read_entry s w ≡ ok w) ws
read_entry_words s [] h = tt
read_entry_words s (w ∷ ws) h = (read_entry_word s w h.0, read_entry_words s ws h.1)

-- The words of a list, none of them blank, with a comma or with white space at its ends, are read
-- back as the array of these words when they are joined by commas.
pub read_array-join :
    (ws : List String) → All IsWord ws → read_string array_type (join "," ws) ≡ ok (array ws)
unfolding read_string read_array
read_array-join [] h = unfold join in refl
read_array-join (w ∷ ws) h =
    rw (empty-join w ws h.0.filled, split-join w ws (Words-Free (w ∷ ws) h))
      (rw (traverse_id (read_entry (join "," (w ∷ ws))) (w ∷ ws) (read_entry_words _ (w ∷ ws) h))
        refl)
