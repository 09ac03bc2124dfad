-- ===== src/Ral/Directories.antt =====
-- The loop over RALSH_DATA_DIR ends, and what it gives.
use Prim.Native.String.{[] as nil, ◌∷◌ as cons}
use libral.Base.{
  ℕ, zero, suc, ◌+◌, ◌-◌, ◌≤◌, ◌<◌, code, nat_eq, String, Option, none, some, List, [], ◌∷◌, ◌≡◌,
  refl, arith, ap, sym, ◌∙◌, Char, Bool-cases, Option-cases, inl, inr,
}
use libral.Base.Text.{split, size, cons_first}
use libral.Ral.Environment.{drop, first, position, npos, dir_words, shift, with_word}

first_all : (n : ℕ) (s : String) → size s ≤ n → first n s ≡ s
unfolding first size
first_all zero nil h = refl
first_all zero (cons c s) h = absurd (omega (arith, h))
first_all (suc n) nil h = refl
first_all (suc n) (cons c s) h = ap (cons c) (first_all n s (omega (arith, h)))

drop-nil : (n : ℕ) → drop n nil ≡ nil
unfolding drop
drop-nil zero = refl
drop-nil (suc n) = refl

at_index : (s : String) (m n : ℕ) → m ≡ n → drop m s ≡ drop n s
at_index s m n e = ap (λ (i : ℕ). drop i s) e

drop-drop : (m n : ℕ) (s : String) → drop n (drop m s) ≡ drop (m + n) s
unfolding drop
drop-drop zero n s = at_index s n (0 + n) (omega arith)
drop-drop (suc m) n nil = drop-nil n ∙ sym (drop-nil (suc m + n))
drop-drop (suc m) n (cons c s) =
    drop-drop m n s ∙ at_index (cons c s) (suc (m + n)) (suc m + n) (omega arith)

size-drop : (m : ℕ) (s : String) → size (drop m s) ≡ size s - m
unfolding drop size
size-drop zero s = omega arith
size-drop (suc m) nil = omega arith
size-drop (suc m) (cons c s) = omega (arith, size-drop m s)

-- The words of a text, from the position of the first separator.
abbrev parts : ℕ → String → Option ℕ → List String
parts k s none = s ∷ []
parts k s (some n) = first n s ∷ split k (drop (suc n) s)

parts-cons :
    (k : ℕ) (c : Char) (s : String) (o : Option ℕ)
    → cons_first c (parts k s o) ≡ parts k (cons c s) (shift o)
unfolding first drop
parts-cons k c s none = refl
parts-cons k c s (some n) = refl

split-position : (k : ℕ) (s : String) → split k s ≡ parts k s (position k s)
unfolding split position drop first
split-position k nil = refl
split-position k (cons c s) = elim (Bool-cases (nat_eq (code c) k)) [
  | inl e ↦ rw e refl
  | inr e ↦ rw e (ap (cons_first c) (split-position k s) ∙ parts-cons k c s (position k s))
]

shift-some : (o : Option ℕ) (n : ℕ) → shift o ≡ some n → (m : ℕ) × (o ≡ some m) × (n ≡ suc m)
shift-some none n e = cc
shift-some (some m) n e = (m, refl, ground (arith, e))

position-size : (k n : ℕ) (s : String) → position k s ≡ some n → n < size s
unfolding position size
position-size k n nil e = cc
position-size k n (cons c s) e = elim (Bool-cases (nat_eq (code c) k)) [
  | inl same ↦ let zeroth : some 0 ≡ some n = rw same at e in ground (arith, zeroth)
  | inr other ↦
      let (m, found, next) = shift-some (position k s) n (rw other at e) in
      omega (arith, next, position-size k m s found)
]

-- The loop over RALSH_DATA_DIR ends after at most one round more than the text has characters, and
-- gives the words between the colons, if the text is shorter than `std::string::npos`.
words-split :
    (fuel : ℕ) (s : String) (start : ℕ)
    → size s < npos
    → size (drop start s) < fuel
    → dir_words fuel s start ≡ some (split b':' (drop start s))
unfolding dir_words
words-split zero s start short h = absurd (omega (arith, h))
words-split (suc fuel) s start short h = elim (Option-cases (position b':' (drop start s))) [
  | inl e ↦ rw e (
      ap (λ (w : String). some (w ∷ []))
        (first_all (npos - start) (drop start s) (omega (arith, short, size-drop start s)))
      ∙ ap some (sym (split-position b':' (drop start s) ∙ ap (parts b':' (drop start s)) e)))
  | inr (n, e) ↦
      let fits = position-size b':' n (drop start s) e in
      let rest : dir_words fuel s (start + n + 1)
          ≡ some (split b':' (drop (suc n) (drop start s))) =
        words-split fuel s (start + n + 1) short
          (omega (arith, h, fits, size-drop start s, size-drop (start + n + 1) s))
        ∙ ap (λ (t : String). some (split b':' t))
            (at_index s (start + n + 1) (start + suc n) (omega arith)
              ∙ sym (drop-drop start (suc n) s)) in
      rw e (
        ap (λ (i : ℕ). with_word (first i (drop start s)) (dir_words fuel s (start + n + 1)))
          {x = start + n - start} {y = n} (omega arith)
        ∙ ap (with_word (first n (drop start s))) rest
        ∙ ap some (sym (split-position b':' (drop start s) ∙ ap (parts b':' (drop start s)) e)))
]

-- With one round of fuel more than RALSH_DATA_DIR has characters, the loop over it ends and gives the
-- words between its colons, in order, if it is shorter than `std::string::npos`.
pub dir_words-split :
    (s : String) → size s < npos → dir_words (suc (size s)) s 0 ≡ some (split b':' s)
unfolding drop
dir_words-split s short = words-split (suc (size s)) s 0 short (omega arith)
