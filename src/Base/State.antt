-- ===== src/Base/State.antt =====
-- Methods that change state and may fail. What was done before a failure stays done, so the state
-- comes back beside an error too.
use Prim.Native.String.{String}
use mathlib.Core.Path.{◌≡◌, refl}
use libral.Base.Outcome.{Result, ok, err, throws}

-- A method on objects of type `Obj`.
abbrev pub Exec {ℓ} : (Obj A : Type ℓ) → Type ℓ
Exec Obj A = Obj → Result A × Obj

module _ {ℓ} {Obj A : Type ℓ} where
  abbrev pub fail : String → Exec Obj A
  fail detail obj = (err detail, obj)

  abbrev pub lift : Result A → Exec Obj A
  lift done obj = (done, obj)

  abbrev pub pure : A → Exec Obj A
  pure value obj = (ok value, obj)

module _ {ℓ} {Obj A B : Type ℓ} where
  -- What is done after a part that has ended with a result.
  abbrev pub continue : (done : Result A) (next : A → Exec Obj B) → Exec Obj B
  continue (throws x) next obj = (throws x, obj)
  continue (err detail) next obj = (err detail, obj)
  continue (ok value) next obj = next value obj

  abbrev pub bind : (part : Exec Obj A) (next : A → Exec Obj B) → Exec Obj B
  bind part next obj = continue (part obj).0 next (part obj).1

  continue-ok :
      (done : Result A) (next : A → Exec Obj B) (obj obj' : Obj) {b : B}
      → continue done next obj ≡ (ok b, obj')
      → (value : A) × (done ≡ ok value) × (next value obj ≡ (ok b, obj'))
  continue-ok (throws x) next obj obj' h = cc
  continue-ok (err detail) next obj obj' h = cc
  continue-ok (ok value) next obj obj' h = (value, refl, h)

  -- A sequence that succeeds has a first part that does, and goes on from where that leaves.
  pub bind-ok :
      (part : Exec Obj A) (next : A → Exec Obj B) (obj obj' : Obj) {b : B}
      → bind part next obj ≡ (ok b, obj')
      → (value : A) × ((part obj).0 ≡ ok value) × (next value (part obj).1 ≡ (ok b, obj'))
  bind-ok part next obj obj' h = continue-ok (part obj).0 next (part obj).1 obj' h
