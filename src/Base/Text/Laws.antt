-- ===== src/Base/Text/Laws.antt =====
-- Laws of the text functions: texts free of a separator, or of white space, are taken as they are.
use Prim.Native.String.{[] as nil, ◌∷◌ as cons}
use Prim.Native.String.append as clauses
use libral.Base.{
  ℕ, Char, code, String, Bool, true, not, ◌≡◌, refl, some, none, [], ◌∷◌, arith, nat_eq,
}
use libral.Base.Text.{
  ◌<>◌, is_space, all_chars, erase_spaces, trim_left, trim_right, trim, split_at, split,
  cons_unless_blank, c_str,
}

abbrev pub not_space : ℕ → Bool
not_space c = not (is_space c)

-- `k` does not stand in the text.
abbrev pub Free : ℕ → String → Type 0
Free k s = all_chars (λ c. not (nat_eq c k)) s ≡ true

pub erase_spaces_id : (s : String) → all_chars not_space s ≡ true → erase_spaces s ≡ s
unfolding erase_spaces all_chars
erase_spaces_id nil h = refl
erase_spaces_id (cons c s) h = ground (arith, erase_spaces_id s)

pub erase_spaces-append : (s t : String) → erase_spaces (s <> t) ≡ erase_spaces s <> erase_spaces t
unfolding erase_spaces
erase_spaces-append nil t = rw (clauses.nil t, clauses.nil (erase_spaces t))
erase_spaces-append (cons c s) t =
    rw (clauses.cons c s t)
      (ground (arith, erase_spaces-append s t, clauses.cons c (erase_spaces s) (erase_spaces t)))

pub split_at-append :
    (k : ℕ) (s : String) (c : Char) (t : String)
    → Free k s
    → code c ≡ k
    → split_at k (s <> cons c t) ≡ some (s, t)
unfolding split_at all_chars
split_at-append k nil c t h e = rw (clauses.nil (cons c t)) (ground arith)
split_at-append k (cons d s) c t h e =
    rw (clauses.cons d s (cons c t)) (ground (arith, split_at-append k s c t))

pub split_at-none : (k : ℕ) (s : String) → Free k s → split_at k s ≡ none
unfolding split_at all_chars
split_at-none k nil h = refl
split_at-none k (cons d s) h = ground (arith, split_at-none k s)

-- A text without a NUL is a C string.
pub c_str_id : (s : String) → Free 0 s → c_str s ≡ s
unfolding c_str all_chars
c_str_id nil h = refl
c_str_id (cons c s) h = ground (arith, c_str_id s)

pub split_id : (k : ℕ) (s : String) → Free k s → split k s ≡ s ∷ []
unfolding split all_chars
split_id k nil h = refl
split_id k (cons d s) h = ground (arith, split_id k s)

pub split-append :
    (k : ℕ) (s : String) (c : Char) (t : String)
    → Free k s
    → code c ≡ k
    → split k (s <> cons c t) ≡ s ∷ split k t
unfolding split all_chars
split-append k nil c t h e = rw (clauses.nil (cons c t)) (ground arith)
split-append k (cons d s) c t h e =
    rw (clauses.cons d s (cons c t)) (ground (arith, split-append k s c t))

cons_kept : (c : Char) (s : String) → not_space (code c) ≡ true → cons_unless_blank c s ≡ cons c s
cons_kept c nil h = ground arith
cons_kept c (cons d s) h = refl

all_chars-cons :
    (p : ℕ → Bool) (c : Char) (s : String)
    → all_chars p (cons c s) ≡ true
    → (p (code c) ≡ true) × (all_chars p s ≡ true)
unfolding all_chars
all_chars-cons p c s h = ground arith

pub trim_right_id : (s : String) → all_chars not_space s ≡ true → trim_right s ≡ s
unfolding trim_right
trim_right_id nil h = refl
trim_right_id (cons c s) h =
    let (hc, hs) = all_chars-cons not_space c s h in rw (trim_right_id s hs) (cons_kept c s hc)

pub trim_left_id : (s : String) → all_chars not_space s ≡ true → trim_left s ≡ s
unfolding trim_left all_chars
trim_left_id nil h = refl
trim_left_id (cons c s) h = ground arith

pub trim_id : (s : String) → all_chars not_space s ≡ true → trim s ≡ s
unfolding trim
trim_id s h = rw (trim_right_id s h) (trim_left_id s h)

-- A property that implies another holds of the characters of fewer texts.
pub all_chars_mono :
    (p q : ℕ → Bool) (s : String)
    → ((c : ℕ) → p c ≡ true → q c ≡ true)
    → all_chars p s ≡ true
    → all_chars q s ≡ true
unfolding all_chars
all_chars_mono p q nil h a = refl
all_chars_mono p q (cons c s) h a = ground (arith, h (code c), all_chars_mono p q s h)

pub all_chars-append :
    (p : ℕ → Bool) (s t : String)
    → all_chars p s ≡ true
    → all_chars p t ≡ true
    → all_chars p (s <> t) ≡ true
unfolding all_chars
all_chars-append p nil t a b = rw (clauses.nil t) b
all_chars-append p (cons c s) t a b =
    rw (clauses.cons c s t) (ground (arith, all_chars-append p s t))

trim_left_blank :
    (c : Char) (t : String)
    → is_space (code c) ≡ true
    → trim_left (cons_unless_blank c t) ≡ trim_left t
unfolding trim_left
trim_left_blank c nil h = rw h refl
trim_left_blank c (cons d t) h = rw h refl

-- White space in front of a text is trimmed away.
pub trim_space : (c : Char) (s : String) → is_space (code c) ≡ true → trim (cons c s) ≡ trim s
unfolding trim trim_right
trim_space c s h = trim_left_blank c (trim_right s) h
