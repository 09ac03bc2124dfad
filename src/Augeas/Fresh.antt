-- ===== src/Augeas/Fresh.antt =====
-- The nodes of `make_node_seq_next` do not meet.
use text.Mathlib.TextLemmas.{append_cancel_left}
use libral.Base.{ok, ℕ, ◌+◌, ◌≤◌, ◌<◌, ◌≢◌, if◌then◌else◌, String, ◌≡◌, arith}
use libral.Base.Text.{◌<>◌}
use libral.Mount.Tree.{ends_in_slash}
use libral.Augeas.Tree.{Library, Tree, greatest, include, load, set, clear, rm, make_node_seq_next}
use libral.Augeas.Saving.{save}

module _ {A : Type 0} (lib : Library A) (strip : String → String) where
  infix 4 ◌⟶*◌
  -- What can be done with a handle, in any order.
  pub data ◌⟶*◌ : Tree A → Tree A → Type 0 where
    done : {a : Tree A} → a ⟶* a
    including : {a b : Tree A} (lens glob : String) → a ⟶* b → a ⟶* (include lib lens glob b).1
    loading : {a b : Tree A} → a ⟶* b → a ⟶* (load lib b).1
    saving : {a b : Tree A} → a ⟶* b → a ⟶* (save lib strip b).1
    setting : {a b : Tree A} (path value : String) → a ⟶* b → a ⟶* (set lib path value b).1
    clearing : {a b : Tree A} (path : String) → a ⟶* b → a ⟶* (clear lib path b).1
    removing : {a b : Tree A} (path : String) → a ⟶* b → a ⟶* (rm lib path b).1
    making : {a b : Tree A} (path : String) → a ⟶* b → a ⟶* (make_node_seq_next lib path b).1

  make-grows : (path : String) (t : Tree A) → t.seq ≤ (make_node_seq_next lib path t).1.seq
  unfolding make_node_seq_next
  make-grows path t = ground arith

  seq-grows : {a b : Tree A} → a ⟶* b → a.seq ≤ b.seq
  unfolding include load set clear rm save
  seq-grows done = omega arith
  seq-grows (including lens glob steps) = seq-grows steps
  seq-grows (loading steps) = seq-grows steps
  seq-grows (saving steps) = seq-grows steps
  seq-grows (setting path value steps) = seq-grows steps
  seq-grows (clearing path steps) = seq-grows steps
  seq-grows (removing path steps) = seq-grows steps
  seq-grows (making {b = b} path steps) =
      let h = seq-grows steps in let counted = make-grows path b in omega arith

  -- The stream prints different ints differently.
  abbrev pub PrintsApart : Type 0
  PrintsApart = (m n : ℕ) → m ≤ greatest → n ≤ greatest → lib.number m ≡ lib.number n → m ≡ n

  abbrev slash : String → String
  slash path = if ends_in_slash path then "" else "/"

  abbrev node_after : String → ℕ → String
  node_after path n = path <> slash path <> "0" <> lib.number (n + 1)

  -- Below the greatest int a node is made, with the next number.
  make_ok :
      (path : String) (t : Tree A)
      → t.seq < greatest
      → ((make_node_seq_next lib path t).0 ≡ ok (node_after path t.seq))
        × ((make_node_seq_next lib path t).1.seq ≡ t.seq + 1)
  unfolding make_node_seq_next
  make_ok path t h = ground arith

  -- Whatever the counter is at first: however a handle is used between two calls for the same path,
  -- where the counter has not come to the greatest int before either, both calls make a node, and
  -- these are different ones.
  pub make_node_seq_next-apart :
      PrintsApart
      → (path : String) (a b : Tree A) → (make_node_seq_next lib path a).1 ⟶* b
      → a.seq < greatest
      → b.seq < greatest
      → (p : String) × (q : String) × ((make_node_seq_next lib path a).0 ≡ ok p)
        × ((make_node_seq_next lib path b).0 ≡ ok q)
        × (p ≢ q)
  make_node_seq_next-apart apart path a b steps h g =
      let (first, counted) = make_ok path a h in
      let (second, _) = make_ok path b g in
      let grown : (make_node_seq_next lib path a).1.seq ≤ b.seq = seq-grows steps in
      (
        node_after path a.seq,
        node_after path b.seq,
        first,
        second,
        λ same.
            let m : String = lib.number (a.seq + 1) in
            let n : String = lib.number (b.seq + 1) in
            let digits : m ≡ n = append_cancel_left "0" m n (
              append_cancel_left (slash path) ("0" <> m) ("0" <> n)
                (append_cancel_left path (slash path <> "0" <> m) (slash path <> "0" <> n) same)) in
            let equal : a.seq + 1 ≡ b.seq + 1 =
              apart (a.seq + 1) (b.seq + 1) (omega arith) (omega arith) digits in
            omega arith,
      )
