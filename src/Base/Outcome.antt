-- ===== src/Base/Outcome.antt =====
-- `result<T>` of lib/inc/libral/result.hpp as a value. C++ exceptions that the code throws, and
-- undefined behaviour, are a third way for a call to end.
use Prim.Native.String.{String}
use mathlib.Core.Path.{◌≡◌, refl}
use mathlib.Core.Bool.{Bool, true, false}
use mathlib.Core.List.{List, [], ◌∷◌}

pub data Exception : Type 0 where
  invalid_argument logic_error out_of_range data_error filesystem_error undefined : Exception

pub data Result {ℓ} (A : Type ℓ) : Type ℓ where
  throws : Exception → Result A
  err : String → Result A
  ok : A → Result A

module _ {ℓ κ} {A : Type ℓ} {B : Type κ} where
  -- `err_ret`: an error is returned at once, and an exception goes up.
  infixl 5 ◌>>=◌
  abbrev pub ◌>>=◌ : Result A → (A → Result B) → Result B
  throws x >>= next = throws x
  err detail >>= next = err detail
  ok value >>= next = next value

  -- A sequence that succeeds has a first part that does, and goes on from its value.
  pub >>=-eq-ok :
      (first : Result A) (next : A → Result B) {b : B}
      → first >>= next ≡ ok b
      → (value : A) × (first ≡ ok value) × (next value ≡ ok b)
  >>=-eq-ok (throws x) next h = cc
  >>=-eq-ok (err detail) next h = cc
  >>=-eq-ok (ok value) next h = (value, refl, h)

-- The conversion of a `result<T>` to `bool`, and `is_err`.
abbrev pub is_ok {ℓ} : {A : Type ℓ} → Result A → Bool
is_ok (ok a) = true
is_ok _ = false

abbrev pub is_err {ℓ} : {A : Type ℓ} → Result A → Bool
is_err (err e) = true
is_err _ = false

-- A loop over a vector whose body may fail.
abbrev pub traverse {ℓ κ} : {A : Type ℓ} {B : Type κ} → (A → Result B) → List A → Result (List B)
traverse f [] = ok []
traverse f (x ∷ xs) = f x >>= λ y. traverse f xs >>= λ ys. ok (y ∷ ys)

-- What holds of every result of the second part holds of the whole.
pub >>=-elim {ℓ κ} :
    {A B : Type ℓ} (P : B → Type κ) (m : Result A) (f : A → Result B)
    → ((a : A) → m ≡ ok a → (b : B) → f a ≡ ok b → P b)
    → (b : B) → (m >>= f) ≡ ok b
    → P b
>>=-elim P (ok a) f step b h = step a refl b h
>>=-elim P (err e) f step b h = cc
>>=-elim P (throws x) f step b h = cc
