-- ===== src/Value/Laws.antt =====
-- `operator==` on values decides equality.
use libral.Base.{
  String, Bool, true, false, List, [], ◌∷◌, ◌≡◌, refl, ◌↔◌, ap, arith, eq_iff, eq_refl,
}
use libral.Value.{Value, nothing, boolean, text, array, bool_eq, array_eq, value_eq}

bool_eq_sound : (a b : Bool) → bool_eq a b ≡ true → a ≡ b
unfolding bool_eq
bool_eq_sound true b h = ground arith
bool_eq_sound false true h = ground arith
bool_eq_sound false false h = refl

array_eq_sound : (a b : List String) → array_eq a b ≡ true → a ≡ b
unfolding array_eq
array_eq_sound [] [] h = refl
array_eq_sound [] (y ∷ ys) h = cc
array_eq_sound (x ∷ xs) [] h = cc
array_eq_sound (x ∷ xs) (y ∷ ys) h = ground (arith, eq_iff x y, array_eq_sound xs ys)

array_eq_refl : (a : List String) → array_eq a a ≡ true
unfolding array_eq
array_eq_refl [] = refl
array_eq_refl (x ∷ xs) = rw (eq_refl x) (array_eq_refl xs)

pub value_eq_sound : (a b : Value) → value_eq a b ≡ true → a ≡ b
unfolding value_eq
value_eq_sound nothing nothing h = refl
value_eq_sound (boolean a) (boolean b) h = ap boolean (bool_eq_sound a b h)
value_eq_sound (text a) (text b) h = ap text ((eq_iff a b).0 h)
value_eq_sound (array a) (array b) h = ap array (array_eq_sound a b h)
value_eq_sound _ _ h = cc

pub value_eq_refl : (a : Value) → value_eq a a ≡ true
unfolding value_eq bool_eq
value_eq_refl nothing = refl
value_eq_refl (boolean true) = refl
value_eq_refl (boolean false) = refl
value_eq_refl (text s) = eq_refl s
value_eq_refl (array ss) = array_eq_refl ss

-- The test for equality is true of two values exactly when they are equal.
pub value_eq_iff : (a b : Value) → (value_eq a b ≡ true) ↔ (a ≡ b)
value_eq_iff a b = (value_eq_sound a b, λ e. rw e (value_eq_refl b))
