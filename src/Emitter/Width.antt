-- ===== src/Emitter/Width.antt =====
-- The width of the attribute names that `puppet_emitter` prints, a 16-bit number.
use Prim.Native.String.{[] as nil, ◌∷◌ as cons}
use Prim.Native.String.append as clauses
use libral.Base.{ℕ, zero, suc, ◌+◌, ◌-◌, ◌≤◌, ◌<◌, String, [], ◌∷◌, ◌≡◌, refl, arith, All}
use libral.Base.Text.{◌<>◌, size}
use libral.Base.Dict.{Dict}
use libral.Emitter.Puppet.{blanks, pad, maxlen, wider}

size-append : (s t : String) → size (s <> t) ≡ size s + size t
unfolding size
size-append nil t = rw (clauses.nil t) (omega arith)
size-append (cons c s) t = rw (clauses.cons c s t) (omega (arith, size-append s t))

size-blanks : (n : ℕ) → size (blanks n) ≡ n
unfolding blanks size
size-blanks zero = refl
size-blanks (suc n) = omega (arith, size-append " " (blanks n), size-blanks n)

size-pad : (w : ℕ) (s : String) → size s ≤ w → size (pad w s) ≡ w
unfolding pad
size-pad w s h = omega (arith, h, size-append s (blanks (w - size s)), size-blanks (w - size s))

wider-covers : (acc n : ℕ) → n < 65536 → (n ≤ wider acc n) × (acc ≤ wider acc n)
unfolding wider
wider-covers acc n h = ground arith

wider-bounded : (acc n : ℕ) → acc < 65536 → wider acc n < 65536
unfolding wider
wider-bounded acc n h = ground arith

module _ {ℓ} {V : Type ℓ} where
  -- Every name is shorter than 65536 characters.
  abbrev pub IsShort : Dict V → Type 0
  IsShort [] = Unit
  IsShort ((k, v) ∷ m) = (size k < 65536) × IsShort m

  maxlen-grows : (acc : ℕ) (m : Dict V) → IsShort m → acc ≤ maxlen acc m
  unfolding maxlen
  maxlen-grows acc [] h = omega arith
  maxlen-grows acc ((k, v) ∷ m) h =
      omega (arith, wider-covers acc (size k) h.0, maxlen-grows (wider acc (size k)) m h.1)

  -- Whatever the names are, the width is a 16-bit number.
  pub maxlen-bounded : (acc : ℕ) (m : Dict V) → acc < 65536 → maxlen acc m < 65536
  unfolding maxlen
  maxlen-bounded acc [] h = h
  maxlen-bounded acc ((k, v) ∷ m) h =
      maxlen-bounded (wider acc (size k)) m (wider-bounded acc (size k) h)

  aligned :
      (w acc : ℕ) (m : Dict V) → IsShort m → maxlen acc m ≡ w → All (λ e. size (pad w e.0) ≡ w) m
  unfolding maxlen
  aligned w acc [] h e = tt
  aligned w acc ((k, v) ∷ m) h e = (
    size-pad w k
        (omega (arith, e, wider-covers acc (size k) h.0, maxlen-grows (wider acc (size k)) m h.1)),
    aligned w (wider acc (size k)) m h.1 e,
  )

  -- If all names of attributes are shorter than 65536 characters, each name is padded to exactly the
  -- width that is computed for the resource, so that all the values stand in one column.
  pub maxlen_aligns :
      (m : Dict V) → IsShort m → All (λ e. size (pad (maxlen 0 m) e.0) ≡ maxlen 0 m) m
  maxlen_aligns m h = aligned (maxlen 0 m) 0 m h refl
