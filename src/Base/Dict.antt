-- ===== src/Base/Dict.antt =====
-- `std::map<std::string, V>` as the list of its entries in the order of their keys.
pub mod Laws
pub mod Order
use Prim.Native.String.{compare}
use text.Mathlib.Text.{is_lt}
use libral.Base.{
  String, Bool, true, false, Option, none, some, List, [], ◌∷◌, ◌≡◌, refl, ◌==◌, if◌then◌else◌, All,
  map,
}

abbrev pub Dict {ℓ} : Type ℓ → Type ℓ
Dict V = List (String × V)

-- `a < b` on texts
abbrev pub before : String → String → Bool
before a b = is_lt (compare a b)

abbrev pub keys {ℓ} : {V : Type ℓ} → Dict V → List String
keys [] = []
keys ((k, v) ∷ m) = k ∷ keys m

module _ {ℓ} {V : Type ℓ} where
  -- `m.find(k)`
  unfoldable pub find : String → Dict V → Option V
  find k [] = none
  find k ((j, v) ∷ m) = if j == k then some v else find k m

  -- `m[k] = v`: overwrites, or goes where the order of the keys puts it.
  unfoldable pub put : String → V → Dict V → Dict V
  put k v [] = (k, v) ∷ []
  put k v ((j, w) ∷ m) =
      if j == k then (k, v) ∷ m else if before k j then (k, v) ∷ (j, w) ∷ m else (j, w) ∷ put k v m

  -- `m.emplace(k, v)`, `m.insert({k, v})`: an entry that is there stays as it is.
  unfoldable pub insert : String → V → Dict V → Dict V
  insert k v m = elim (find k m) [ none ↦ put k v m | some w ↦ m ]

  -- `m.insert(first, last)`
  unfoldable pub insert_all : Dict V → Dict V → Dict V
  insert_all [] m = m
  insert_all ((k, v) ∷ kvs) m = insert_all kvs (insert k v m)

  -- `m.erase(k)`
  unfoldable pub erase : String → Dict V → Dict V
  erase k [] = []
  erase k ((j, w) ∷ m) = let rest = erase k m in if j == k then rest else (j, w) ∷ rest

  -- Every key stands before the ones that follow it.
  abbrev pub IsOrdered : Dict V → Type 0
  IsOrdered [] = Unit
  IsOrdered ((k, v) ∷ m) = All (λ (e : String × V). before k e.0 ≡ true) m × IsOrdered m
