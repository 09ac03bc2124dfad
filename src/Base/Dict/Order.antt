-- ===== src/Base/Dict/Order.antt =====
-- The order of texts, and dictionaries that are filled in the order of their keys.
use Prim.Native.String.{[] as nil, ◌∷◌ as cons}
use Prim.Native.String.compare as clauses
use libral.Base.{String, true, false, List, [], ◌∷◌, ◌++◌, ◌==◌, ◌≡◌, refl, arith, All}
use libral.Base.Dict.{Dict, before, put, IsOrdered}

pub before_asym : (s t : String) → before s t ≡ true → before t s ≡ false
before_asym nil nil h = refl
before_asym nil (cons d t) h = rw (clauses.cons-nil d t) refl
before_asym (cons c s) nil h = let h' = rw (clauses.cons-nil c s) at h in cc
before_asym (cons c s) (cons d t) h =
    rw (clauses.cons-cons d c t s) (ground (arith, clauses.cons-cons c d s t, before_asym s t))

-- A text before another is not that text.
pub before-ne : (s t : String) → before s t ≡ true → (s == t) ≡ false
before-ne s t h = ground (arith, h)

All-middle {ℓ κ} :
    {A : Type ℓ} (Holds : A → Type κ) (front : List A) (a : A) (back : List A)
    → All Holds (front ++ (a ∷ back))
    → Holds a
All-middle Holds [] a back h = h.0
All-middle Holds (b ∷ front) a back h = All-middle Holds front a back h.1

module _ {ℓ} {V : Type ℓ} where
  -- A key that comes after all others goes to the end.
  pub put_last :
      (k : String) (v : V) (m : Dict V)
      → All (λ (e : String × V). before e.0 k ≡ true) m
      → put k v m ≡ m ++ ((k, v) ∷ [])
  unfolding put
  put_last k v [] h = refl
  put_last k v ((j, w) ∷ m) h =
      ground (arith, before-ne j k h.0, before_asym j k h.0, put_last k v m h.1)

  -- In an ordered dictionary the keys in front of one come before it.
  pub IsOrdered-front :
      (k : String) (v : V) (front back : Dict V)
      → IsOrdered (front ++ ((k, v) ∷ back))
      → All (λ (e : String × V). before e.0 k ≡ true) front
  IsOrdered-front k v [] back h = tt
  IsOrdered-front k v ((j, w) ∷ front) back h = (
    All-middle (λ (e : String × V). before j e.0 ≡ true) front (k, v) back h.0,
    IsOrdered-front k v front back h.1,
  )
