-- ===== src/Storage/Program.antt =====
-- Programs that make, copy, assign and destroy results. Objects stand at addresses, so that an
-- object may be assigned to itself.
use libral.Base.{
  ℕ, String, Option, none, some, List, [], ◌∷◌, Result, ok, throws, undefined, ◌>>=◌, nat_eq,
  if◌then◌else◌,
}
use libral.Storage.{
  Object, Member, tag_ok, tag_err, raw, an_error, a_value, construct, with_tag, assign, assign_err,
  init, init_move, destruct,
}

abbrev pub Store : Type 0 → Type 0
Store A = ℕ → Option A

unfoldable pub write : {A : Type 0} → Store A → ℕ → Option A → Store A
write s i c a = if nat_eq a i then c else s a

-- What a program does with results: constructors from a value and an error, the copy and the move
-- constructor, the three assignments, and the destructor. The first address is that of `*this`.
pub data Op (R : Type 0) : Type 0 where
  from_value : ℕ → R → Op R
  from_error : ℕ → String → Op R
  copied move_from copy_assign move_assign : ℕ → ℕ → Op R
  error_assign : ℕ → String → Op R
  destroy : ℕ → Op R

module _ {R : Type 0} (left_ok : R → R) (left_err : String → String) where
  -- the object at an address; there is none before its constructor and after its destructor
  abbrev pub object_at : Store (Object R) → ℕ → Result (Object R)
  object_at s i = elim (s i) [ none ↦ throws undefined | some o ↦ ok o ]

  abbrev pub stored : Store (Object R) → ℕ → Result (Object R) → Result (Store (Object R))
  stored s i made = do o ← made; ok (write s i (some o))

  -- A destructor leaves nothing alive in the union.
  abbrev pub freed : Store (Object R) → ℕ → Member R → Result (Store (Object R))
  freed s i raw = ok (write s i none)
  freed s i _ = throws undefined

  unfoldable pub run : Op R → Store (Object R) → Result (Store (Object R))
  run (from_value i x) s = stored s i (with_tag tag_ok (construct (a_value x) raw))
  run (from_error i e) s = stored s i (with_tag tag_err (construct (an_error e) raw))
  run (copied i j) s = do other ← object_at s j; stored s i (init other)
  run (move_from i j) s = do
    other ← object_at s j
    made ← init_move left_ok left_err other
    ok (write (write s i (some made.0)) j (some made.1))
  run (copy_assign i j) s = do other ← object_at s j; o ← object_at s i; stored s i (assign other o)
  run (move_assign i j) s = do other ← object_at s j; o ← object_at s i; stored s i (assign other o)
  run (error_assign i e) s = do o ← object_at s i; stored s i (assign_err e o)
  run (destroy i) s = do o ← object_at s i; m ← destruct o; freed s i m

  unfoldable pub run_all : List (Op R) → Store (Object R) → Result (Store (Object R))
  run_all [] s = ok s
  run_all (op ∷ ops) s = do s' ← run op s; run_all ops s'
