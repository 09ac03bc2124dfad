-- ===== src/File/Mode.antt =====
-- The octal text that `load` makes of a file's permissions, and `update_metadata` reads back.
use Prim.Native.Nat.{◌/◌, ◌%◌, ◌^◌}
use Prim.Native.String.{◌∷◌ as cons}
use libral.Base.{
  ℕ, zero, suc, ◌+◌, ◌-◌, ◌*◌, ◌<◌, ◌≤◌, Char, String, ltb, nat_eq, List, [], ◌∷◌, ◌++◌,
  if◌then◌else◌, ok, ◌≡◌, refl, arith, All, All-append, length, length-append, ap, ◌∙◌, Bool-cases,
  inl, inr,
}
use libral.File.Steps.{Files, read_mode}

-- an octal digit
abbrev pub oct_char : ℕ → Char
oct_char zero = "0"
oct_char (suc zero) = "1"
oct_char (suc (suc zero)) = "2"
oct_char (suc (suc (suc zero))) = "3"
oct_char (suc (suc (suc (suc zero)))) = "4"
oct_char (suc (suc (suc (suc (suc zero))))) = "5"
oct_char (suc (suc (suc (suc (suc (suc zero)))))) = "6"
oct_char _ = "7"

abbrev pub digits_text : List ℕ → String
digits_text [] = ""
digits_text (d ∷ ds) = cons (oct_char d) (digits_text ds)

-- The digits of a number in front of others; each round divides it by eight.
unfoldable pub emit : ℕ → ℕ → List ℕ → List ℕ
emit zero n ds = ds
emit (suc fuel) n ds = let more = emit fuel (n / 8) (n % 8 ∷ ds) in if nat_eq n 0 then ds else more

-- `std::oct`: an `int` has at most eleven octal digits.
unfoldable pub octal : ℕ → List ℕ
octal n = if nat_eq n 0 then 0 ∷ [] else emit 11 n []

-- the fill character of the stream
abbrev pub zeros : ℕ → List ℕ
zeros zero = []
zeros (suc n) = 0 ∷ zeros n

-- the digits of `mode`, filled up to a width of four or, for special bits, five
unfoldable pub mode_digits : ℕ → List ℕ
mode_digits m = let ds = octal m in zeros ((if ltb 511 m then 5 else 4) - length ds) ++ ds

unfoldable pub mode_text : ℕ → String
mode_text m = digits_text (mode_digits m)

mode_test : mode_text 420 ≡ "0644"
unfolding mode_text mode_digits octal emit
mode_test = refl

setuid_test : mode_text 2541 ≡ "04755"
unfolding mode_text mode_digits octal emit
setuid_test = refl

-- The number that octal digits stand for, behind a number that was read.
abbrev pub value_from : ℕ → List ℕ → ℕ
value_from acc [] = acc
value_from acc (d ∷ ds) = value_from (acc * 8 + d) ds

abbrev pub AreOctal : List ℕ → Type 0
AreOctal ds = All (λ d. d < 8) ds

emit-value :
    (fuel n : ℕ) (ds : List ℕ) → n < 8 ^ fuel → value_from 0 (emit fuel n ds) ≡ value_from n ds
unfolding emit
emit-value zero n ds h = ap (λ (k : ℕ). value_from k ds) {x = 0} {y = n} (omega (arith, h))
emit-value (suc fuel) n ds h = elim (Bool-cases (nat_eq n 0)) [
  | inl e ↦ rw e (ap (λ (k : ℕ). value_from k ds) {x = 0} {y = n} (ground (arith, e)))
  | inr e ↦ rw e (
      emit-value fuel (n / 8) (n % 8 ∷ ds) (omega (arith, h))
      ∙ ap (λ (k : ℕ). value_from k ds) {x = (n / 8) * 8 + n % 8} {y = n} (omega arith))
]

emit-AreOctal : (fuel n : ℕ) (ds : List ℕ) → AreOctal ds → AreOctal (emit fuel n ds)
unfolding emit
emit-AreOctal zero n ds h = h
emit-AreOctal (suc fuel) n ds h = elim (Bool-cases (nat_eq n 0)) [
  | inl e ↦ rw e h
  | inr e ↦ rw e (emit-AreOctal fuel (n / 8) (n % 8 ∷ ds) (omega arith, h))
]

zeros-value : (n : ℕ) (ds : List ℕ) → value_from 0 (zeros n ++ ds) ≡ value_from 0 ds
zeros-value zero ds = refl
zeros-value (suc n) ds = zeros-value n ds

zeros-AreOctal : (n : ℕ) → AreOctal (zeros n)
zeros-AreOctal zero = tt
zeros-AreOctal (suc n) = (omega arith, zeros-AreOctal n)

octal-AreOctal : (n : ℕ) → AreOctal (octal n)
unfolding octal
octal-AreOctal n = elim (Bool-cases (nat_eq n 0)) [
  | inl e ↦ rw e (omega arith, tt)
  | inr e ↦ rw e (emit-AreOctal 11 n [] tt)
]

-- Eleven digits are enough for every number that has 32 bits: the text stands for the number.
pub octal-value : (n : ℕ) → n < 2 ^ 32 → value_from 0 (octal n) ≡ n
unfolding octal
octal-value n h = elim (Bool-cases (nat_eq n 0)) [
  | inl e ↦ rw e (ground (arith, e))
  | inr e ↦ rw e (emit-value 11 n [] (omega (arith, h)))
]

emit-longer : (fuel n : ℕ) (ds : List ℕ) → length ds ≤ length (emit fuel n ds)
unfolding emit
emit-longer zero n ds = omega arith
emit-longer (suc fuel) n ds = elim (Bool-cases (nat_eq n 0)) [
  | inl e ↦ rw e (omega arith)
  | inr e ↦ rw e (omega (arith, emit-longer fuel (n / 8) (n % 8 ∷ ds)))
]

octal-longer : (n : ℕ) → 0 < length (octal n)
unfolding octal emit
octal-longer n = elim (Bool-cases (nat_eq n 0)) [
  | inl e ↦ rw e (omega arith)
  | inr e ↦ rw e (omega (arith, emit-longer 10 (n / 8) (n % 8 ∷ [])))
]

mode_digits-longer : (m : ℕ) → 0 < length (mode_digits m)
unfolding mode_digits
mode_digits-longer m =
    let fill = zeros ((if ltb 511 m then 5 else 4) - length (octal m)) in
    omega (arith, length-append fill (octal m), octal-longer m)

mode_digits-AreOctal : (m : ℕ) → AreOctal (mode_digits m)
unfolding mode_digits
mode_digits-AreOctal m =
    All-append (λ d. d < 8) (zeros _) (octal m) (zeros-AreOctal _) (octal-AreOctal m)

mode_digits-value : (m : ℕ) → m < 2 ^ 32 → value_from 0 (mode_digits m) ≡ m
unfolding mode_digits
mode_digits-value m h =
    zeros-value ((if ltb 511 m then 5 else 4) - length (octal m)) (octal m) ∙ octal-value m h

-- What `std::stoi` does with octal digits for a number below 2^31, and what the length of a text is.
pub record ReadsOctal {W : Type 0} (files : Files W) : Type 0 where
  pub stoi_reads :
      (ds : List ℕ)
      → AreOctal ds
      → 0 < length ds
      → value_from 0 ds < 2 ^ 31
      → files.stoi 8 (digits_text ds) ≡ ok (value_from 0 ds, length ds)
  pub size_counts : (ds : List ℕ) → files.size (digits_text ds) ≡ length ds

read_mode-read :
    {W : Type 0} (files : Files W) (s : String) (m : ℕ)
    → files.stoi 8 s ≡ ok (m, files.size s)
    → m ≤ 4095
    → read_mode files s ≡ ok m
unfolding read_mode
read_mode-read files s m e h = ground (arith, e, h)

-- The permissions that are loaded from a file are read back as the same number, and none of them is
-- refused: setting a file's mode to what it is asks for the permissions that it has.
pub read_mode-mode_text :
    {W : Type 0} (files : Files W) (m : ℕ)
    → ReadsOctal files
    → m ≤ 4095
    → read_mode files (mode_text m) ≡ ok m
unfolding mode_text
read_mode-mode_text files m reads h =
    let same = mode_digits-value m (omega (arith, h)) in
    let read : files.stoi 8 (digits_text (mode_digits m)) ≡ ok (m, length (mode_digits m)) =
      reads.stoi_reads (mode_digits m) (mode_digits-AreOctal m) (mode_digits-longer m)
        (omega (arith, h, same))
      ∙ ap (λ (k : ℕ). ok (k, length (mode_digits m))) same in
    read_mode-read files (mode_text m) m (rw (reads.size_counts (mode_digits m)) read) h
