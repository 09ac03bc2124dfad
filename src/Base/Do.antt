-- ===== src/Base/Do.antt =====
-- The notation of `do` blocks for methods that change state and may fail.
use libral.Base.State.{Exec, bind}

infixl 5 ◌>>=◌ ◌>>◌
abbrev pub ◌>>=◌ {ℓ} : {S A B : Type ℓ} → Exec S A → (A → Exec S B) → Exec S B
m >>= f = bind m f

abbrev pub ◌>>◌ {ℓ} : {S A B : Type ℓ} → Exec S A → Exec S B → Exec S B
m >> n = bind m (λ _. n)
