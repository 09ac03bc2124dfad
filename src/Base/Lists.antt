-- ===== src/Base/Lists.antt =====
-- Lists measured by the native numbers, and the predicates on lists that the components share.
use Prim.Native.Nat.{ℕ, suc, ◌+◌}
use Prim.Native.String.{String}
use mathlib.Core.Path.{◌≡◌, refl, sym, subst}
use mathlib.Core.Bool.{Bool, true, false, ◌||◌}
use mathlib.Core.List.{List, [], ◌∷◌, ◌++◌}
use native.Mathlib.Omega.{arith}
use text.Mathlib.Text.{◌==◌}
use libral.Base.Outcome.{Result, ok, >>=-eq-ok, traverse}

module _ {ℓ} {A : Type ℓ} where
  abbrev pub length : List A → ℕ
  length [] = 0
  length (x ∷ xs) = suc (length xs)

  pub length-append : (xs ys : List A) → length (xs ++ ys) ≡ length xs + length ys
  length-append [] ys = omega arith
  length-append (x ∷ xs) ys = omega (arith, length-append xs ys)

  abbrev pub is_empty : List A → Bool
  is_empty [] = true
  is_empty (x ∷ xs) = false

module _ {ℓ κ} {A : Type ℓ} (Holds : A → Type κ) where
  -- The predicate holds of every element.
  abbrev pub All : List A → Type κ
  All [] = Unit
  All (a ∷ as') = Holds a × All as'

  pub All-append : (front back : List A) → All front → All back → All (front ++ back)
  All-append [] back now later = later
  All-append (a ∷ front) back (here, now) later = (here, All-append front back now later)

-- `std::find(xs.begin(), xs.end(), s) != xs.end()`
abbrev pub contains : List String → String → Bool
contains [] s = false
contains (x ∷ xs) s = x == s || contains xs s

module _ {ℓ} {A B : Type ℓ} (f : A → Result B) where
  -- One round of a loop, and then the rest.
  pub traverse_cons :
      (x : A) (xs : List A) (ys : List B)
      → traverse f (x ∷ xs) ≡ ok ys
      → (y : B) × (rest : List B) × (f x ≡ ok y) × (traverse f xs ≡ ok rest) × (ys ≡ y ∷ rest)
  traverse_cons x xs ys e =
      let (y, e₁, e') = >>=-eq-ok (f x) _ e in
      let (rest, e₂, last) = >>=-eq-ok (traverse f xs) _ e' in (y, rest, e₁, e₂, cc)

  -- What holds of every result of the body holds of the results of the loop.
  pub traverse-All {κ} :
      (P : B → Type κ)
      → ((a : A) (b : B) → f a ≡ ok b → P b)
      → (xs : List A) (ys : List B) → traverse f xs ≡ ok ys
      → All P ys
  traverse-All P h [] ys e = subst (All P) {x = []} {y = ys} (cc) tt
  traverse-All P h (x ∷ xs) ys e =
      let (y, rest, e₁, e₂, s) = traverse_cons x xs ys e in
      subst (All P) (sym s) (h x y e₁, traverse-All P h xs rest e₂)

module _ {ℓ} {A : Type ℓ} (f : A → Result A) where
  -- A loop whose body returns its argument returns the list.
  pub traverse_id : (xs : List A) → All (λ x. f x ≡ ok x) xs → traverse f xs ≡ ok xs
  traverse_id [] h = refl
  traverse_id (x ∷ xs) h = rw (h.0, traverse_id xs h.1)
