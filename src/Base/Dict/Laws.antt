-- ===== src/Base/Dict/Laws.antt =====
-- The laws of the dictionary.
use libral.Base.{
  String, Option, none, some, [], ◌∷◌, ◌≡◌, refl, ◌==◌, eq_iff, eq_refl, arith, if◌then◌else◌, All,
  ap,
}
use libral.Base.Dict.{Dict, find, put, insert, insert_all, erase}

module _ {ℓ} {V : Type ℓ} where
  pub find-put :
      (k j : String) (v : V) (m : Dict V)
      → find j (put k v m) ≡ (if k == j then some v else find j m)
  unfolding find put
  find-put k j v [] = refl
  find-put k j v ((i, w) ∷ m) = ground (arith, eq_iff k j, eq_iff i k, eq_iff i j, find-put k j v m)

  pub find-put_self : (k : String) (v : V) (m : Dict V) → find k (put k v m) ≡ some v
  find-put_self k v m = simp (find-put, eq_refl)

  pub find-erase :
      (k j : String) (m : Dict V) → find j (erase k m) ≡ (if k == j then none else find j m)
  unfolding find erase
  find-erase k j [] = ground arith
  find-erase k j ((i, w) ∷ m) = ground (arith, eq_iff k j, eq_iff i k, eq_iff i j, find-erase k j m)

  -- What is there wins.
  abbrev pub or_else : Option V → Option V → Option V
  or_else none b = b
  or_else (some a) b = some a

  pub find-insert :
      (k j : String) (v : V) (m : Dict V)
      → find j (insert k v m) ≡ or_else (find j m) (if k == j then some v else none)
  unfolding insert
  find-insert k j v m =
      ground (arith, find-put k j v m, eq_iff k j, ap (λ (i : String). find i m) {x = k} {y = j})

  pub find-insert_all :
      (j : String) (kvs m : Dict V) → find j (insert_all kvs m) ≡ or_else (find j m) (find j kvs)
  unfolding insert_all find
  find-insert_all j [] m = ground arith
  find-insert_all j ((k, v) ∷ kvs) m =
      rw (find-insert_all j kvs (insert k v m), find-insert k j v m) (ground arith)

  -- A write keeps the entries in order.
  pub All-put :
      (P : String × V → Type 0) (k : String) (v : V) (m : Dict V)
      → P (k, v)
      → All P m
      → All P (put k v m)
  unfolding put
  All-put P k v [] h a = (h, tt)
  All-put P k v ((j, w) ∷ m) h a = ground (arith, All-put P k v m)
