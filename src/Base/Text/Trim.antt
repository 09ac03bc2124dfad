-- ===== src/Base/Text/Trim.antt =====
-- A text that has been trimmed is not changed by trimming it again.
use Prim.Native.String.{[] as nil, ◌∷◌ as cons}
use text.Mathlib.TextLemmas.{nil≢cons, tail-eq_of_cons-eq}
use libral.Base.{Char, code, String, ◌≡◌, refl, ap, ◌∙◌, Bool-cases, inl, inr}
use libral.Base.Text.{is_space, cons_unless_blank, trim_left, trim_right, trim}

kept_again :
    (c : Char) (t : String)
    → trim_right t ≡ t
    → trim_right (cons_unless_blank c t) ≡ cons_unless_blank c t
unfolding trim_right
kept_again c nil h = elim (Bool-cases (is_space (code c))) [
  | inl y ↦ rw y refl
  | inr n ↦ rw n (rw n refl)
]
kept_again c (cons d t) h = ap (cons_unless_blank c) h

trim_right_twice : (s : String) → trim_right (trim_right s) ≡ trim_right s
unfolding trim_right
trim_right_twice nil = refl
trim_right_twice (cons c s) = kept_again c (trim_right s) (trim_right_twice s)

tail_kept : (c : Char) (s t : String) → cons_unless_blank c t ≡ cons c s → t ≡ s
tail_kept c s nil h = elim (Bool-cases (is_space (code c))) [
  | inl y ↦ absurd (nil≢cons (rw y at h))
  | inr n ↦ tail-eq_of_cons-eq (rw n at h)
]
tail_kept c s (cons d t) h = tail-eq_of_cons-eq h

-- What is left of a text with nothing to trim at its end has nothing to trim there either.
trim_right-trim_left : (s : String) → trim_right s ≡ s → trim_right (trim_left s) ≡ trim_left s
unfolding trim_left trim_right
trim_right-trim_left nil h = refl
trim_right-trim_left (cons c s) h = elim (Bool-cases (is_space (code c))) [
  | inl y ↦ rw y (trim_right-trim_left s (tail_kept c s (trim_right s) h))
  | inr n ↦ rw n h
]

trim_left_twice : (s : String) → trim_left (trim_left s) ≡ trim_left s
unfolding trim_left
trim_left_twice nil = refl
trim_left_twice (cons c s) = elim (Bool-cases (is_space (code c))) [
  | inl y ↦ rw y (trim_left_twice s)
  | inr n ↦ rw n (rw n refl)
]

pub trim_twice : (s : String) → trim (trim s) ≡ trim s
unfolding trim
trim_twice s =
    ap trim_left (trim_right-trim_left (trim_right s) (trim_right_twice s))
    ∙ trim_left_twice (trim_right s)
