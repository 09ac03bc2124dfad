-- ===== src/Base/Invariant.antt =====
-- Properties of a state that methods keep, whether they succeed or fail.
use libral.Base.{
  Bool, true, false, Result, ok, err, throws, if◌then◌else◌, Exec, bind, continue, lift, ◌≡◌, refl,
}

module _ {S : Type 0} (P : S → Type 0) where
  abbrev pub Keeps : {A : Type 0} → Exec S A → Type 0
  Keeps m = (s : S) → P s → P (m s).1

  pub continue-Keeps :
      {A B : Type 0} (done : Result A) (next : A → Exec S B) (s : S)
      → ((a : A) → done ≡ ok a → Keeps (next a))
      → P s
      → P (continue done next s).1
  continue-Keeps (ok a) next s h p = h a refl s p
  continue-Keeps (err e) next s h p = p
  continue-Keeps (throws x) next s h p = p

  pub bind-Keeps :
      {A B : Type 0} (m : Exec S A) (next : A → Exec S B)
      → Keeps m
      → ((a : A) → Keeps (next a))
      → Keeps (bind m next)
  bind-Keeps m next h g s p = continue-Keeps (m s).0 next (m s).1 (λ a _. g a) (h s p)

  pub lift-Keeps :
      {A B : Type 0} (r : Result A) (next : A → Exec S B)
      → ((a : A) → r ≡ ok a → Keeps (next a))
      → Keeps (bind (lift r) next)
  lift-Keeps r next h s p = continue-Keeps r next s h p

  pub if-Keeps :
      {A : Type 0} (b : Bool) (x y : Exec S A) → Keeps x → Keeps y → Keeps (if b then x else y)
  if-Keeps true x y h g = h
  if-Keeps false x y h g = g
