-- ===== src/Storage/Refinement.antt =====
-- What results are to the programs that use them: an error or a value.
use libral.Base.{
  ℕ, String, Option, none, some, List, [], ◌∷◌, ok, throws, logic_error, ◌>>=◌, ◌≡◌, refl, arith,
  ap, ◌∙◌, ◌⊎◌, inl, inr,
}
use libral.Storage.{
  Object, tag_ok, tag_err, an_error, a_value, raw, assign, assign_ok, assign_err, init, init_move,
  destruct, get_ok, get_err,
}
use libral.Storage.Program.{
  Store, write, Op, from_value, from_error, copied, move_from, copy_assign, move_assign,
  error_assign, destroy, run, run_all,
}

-- An error, or what was really wanted.
abbrev pub Outcome : Type 0 → Type 0
Outcome R = String ⊎ R

-- The object that holds an outcome: its tag says which member is alive.
abbrev pub object_of : {R : Type 0} → Outcome R → Object R
object_of (inl e) = record { tag = tag_err; member = an_error e }
object_of (inr x) = record { tag = tag_ok; member = a_value x }

abbrev pub object_if : {R : Type 0} → Option (Outcome R) → Option (Object R)
object_if none = none
object_if (some r) = some (object_of r)

-- Every object that there is holds the outcome at its address.
abbrev pub Holds : {R : Type 0} → Store (Outcome R) → Store (Object R) → Type 0
Holds v s = (a : ℕ) → s a ≡ object_if (v a)

module _ {R : Type 0} (left_ok : R → R) (left_err : String → String) where
  -- What a move leaves of an outcome.
  abbrev pub left : Option (Outcome R) → Option (Outcome R)
  left none = none
  left (some (inl e)) = some (inl (left_err e))
  left (some (inr x)) = some (inr (left_ok x))

  -- The same programs on outcomes. An assignment by move is one by copy.
  unfoldable pub step : Op R → Store (Outcome R) → Store (Outcome R)
  step (from_value i x) v = write v i (some (inr x))
  step (from_error i e) v = write v i (some (inl e))
  step (copied i j) v = write v i (v j)
  step (move_from i j) v = write (write v i (v j)) j (left (v j))
  step (copy_assign i j) v = write v i (v j)
  step (move_assign i j) v = write v i (v j)
  step (error_assign i e) v = write v i (some (inl e))
  step (destroy i) v = write v i none

  unfoldable pub steps : List (Op R) → Store (Outcome R) → Store (Outcome R)
  steps [] v = v
  steps (op ∷ ops) v = steps ops (step op v)

  abbrev pub IsThere : Store (Outcome R) → ℕ → Type 0
  IsThere v i = (r : Outcome R) × (v i ≡ some r)

  -- A constructor runs where there is no object, everything else on objects that are there.
  abbrev pub IsLegal : Op R → Store (Outcome R) → Type 0
  IsLegal (from_value i x) v = v i ≡ none
  IsLegal (from_error i e) v = v i ≡ none
  IsLegal (copied i j) v = (v i ≡ none) × IsThere v j
  IsLegal (move_from i j) v = (v i ≡ none) × IsThere v j
  IsLegal (copy_assign i j) v = IsThere v i × IsThere v j
  IsLegal (move_assign i j) v = IsThere v i × IsThere v j
  IsLegal (error_assign i e) v = IsThere v i
  IsLegal (destroy i) v = IsThere v i

  abbrev pub AreLegal : List (Op R) → Store (Outcome R) → Type 0
  AreLegal [] v = Unit
  AreLegal (op ∷ ops) v = IsLegal op v × AreLegal ops (step op v)

  assign-object_of :
      (other r : Outcome R) → assign (object_of other) (object_of r) ≡ ok (object_of other)
  unfolding assign assign_ok assign_err
  assign-object_of (inl e) (inl d) = refl
  assign-object_of (inl e) (inr y) = refl
  assign-object_of (inr x) (inl d) = refl
  assign-object_of (inr x) (inr y) = refl

  init-object_of : (r : Outcome R) → init (object_of r) ≡ ok (object_of r)
  unfolding init
  init-object_of (inl e) = refl
  init-object_of (inr x) = refl

  left_of : Outcome R → Outcome R
  left_of (inl e) = inl (left_err e)
  left_of (inr x) = inr (left_ok x)

  init_move-object_of :
      (r : Outcome R)
      → init_move left_ok left_err (object_of r) ≡ ok (object_of r, object_of (left_of r))
  unfolding init_move left_of
  init_move-object_of (inl e) = refl
  init_move-object_of (inr x) = refl

  left-some : (r : Outcome R) → left (some r) ≡ some (left_of r)
  unfolding left_of
  left-some (inl e) = refl
  left-some (inr x) = refl

  assign_err-object_of :
      (e : String) (r : Outcome R) → assign_err e (object_of r) ≡ ok (object_of (inl e))
  unfolding assign_err
  assign_err-object_of e (inl d) = refl
  assign_err-object_of e (inr x) = refl

  destruct-object_of : (r : Outcome R) → destruct (object_of r) ≡ ok raw
  unfolding destruct
  destruct-object_of (inl e) = refl
  destruct-object_of (inr x) = refl

  Holds-write :
      (v : Store (Outcome R)) (s : Store (Object R)) (i : ℕ) (r r' : Option (Outcome R))
      → r' ≡ r
      → Holds v s
      → Holds (write v i r') (write s i (object_if r))
  unfolding write
  Holds-write v s i r r' e h a = ground (arith, h a)

  there-object :
      (v : Store (Outcome R)) (s : Store (Object R)) (i : ℕ)
      → Holds v s
      → (r : Outcome R) → v i ≡ some r
      → s i ≡ some (object_of r)
  there-object v s i h r e = h i ∙ ap object_if e

  -- A legal step succeeds, and its store holds what it is to hold.
  Runs : Op R → Store (Outcome R) → Store (Object R) → Type 0
  Runs op v s = (s' : Store (Object R)) × (run left_ok left_err op s ≡ ok s') × Holds (step op v) s'

  run-step :
      (op : Op R) (v : Store (Outcome R)) (s : Store (Object R))
      → IsLegal op v
      → Holds v s
      → Runs op v s
  unfolding run step Runs
  run-step (from_value i x) v s l h =
      (write s i (some (object_of (inr x))), refl, Holds-write v s i (some (inr x)) _ refl h)
  run-step (from_error i e) v s l h =
      (write s i (some (object_of (inl e))), refl, Holds-write v s i (some (inl e)) _ refl h)
  run-step (copied i j) v s (free, (r, e)) h = (
    write s i (some (object_of r)),
    rw (there-object v s j h r e, run, ◌>>=◌, init-object_of r) refl,
    Holds-write v s i (some r) _ e h,
  )
  run-step (move_from i j) v s (free, (r, e)) h = (
    write (write s i (some (object_of r))) j (some (object_of (left_of r))),
    rw (there-object v s j h r e, run, ◌>>=◌, init_move-object_of r) refl,
    Holds-write (write v i (v j)) _ j (some (left_of r)) _ (ap left e ∙ left-some r)
        (Holds-write v s i (some r) _ e h),
  )
  run-step (copy_assign i j) v s ((q, d), (r, e)) h = (
    write s i (some (object_of r)),
    rw (there-object v s j h r e, there-object v s i h q d, run, ◌>>=◌, assign-object_of r q) refl,
    Holds-write v s i (some r) _ e h,
  )
  run-step (move_assign i j) v s ((q, d), (r, e)) h = (
    write s i (some (object_of r)),
    rw (there-object v s j h r e, there-object v s i h q d, run, ◌>>=◌, assign-object_of r q) refl,
    Holds-write v s i (some r) _ e h,
  )
  run-step (error_assign i e) v s (q, d) h = (
    write s i (some (object_of (inl e))),
    rw (there-object v s i h q d, run, ◌>>=◌, assign_err-object_of e q) refl,
    Holds-write v s i (some (inl e)) _ refl h,
  )
  run-step (destroy i) v s (q, d) h = (
    write s i none,
    rw (there-object v s i h q d, run, ◌>>=◌, destruct-object_of q) refl,
    Holds-write v s i none _ refl h,
  )

  -- However results are made, copied, moved, assigned and destroyed, each only where the language
  -- lets it: every step succeeds, so that no member of a union is used, overwritten or given up that
  -- should not be, and the objects hold what the same steps make of errors and values. A move
  -- assignment copies.
  pub run_all-steps :
      (ops : List (Op R)) (v : Store (Outcome R)) (s : Store (Object R))
      → AreLegal ops v
      → Holds v s
      → (s' : Store (Object R)) × (run_all left_ok left_err ops s ≡ ok s') × Holds (steps ops v) s'
  unfolding run_all steps Runs
  run_all-steps [] v s l h = (s, refl, h)
  run_all-steps (op ∷ ops) v s (l, ls) h =
      let (s', e, h') = run-step op v s l h in
      let (s'', e', h'') = run_all-steps ops (step op v) s' ls h' in (s'', rw e e', h'')

-- `ok()` and `err()` of an object that holds an outcome give the value and the error, and throw for
-- the other.
pub get-object_of :
    {R : Type 0} (r : Outcome R)
    → (get_ok (object_of r) ≡ (elim r [ inl e ↦ throws logic_error | inr x ↦ ok x ]))
      × (get_err (object_of r) ≡ (elim r [ inl e ↦ ok e | inr x ↦ throws logic_error ]))
unfolding get_ok get_err
get-object_of (inl e) = (refl, refl)
get-object_of (inr x) = (refl, refl)
