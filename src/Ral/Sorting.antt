-- ===== src/Ral/Sorting.antt =====
-- `std::sort` by qualified name: the providers in an order in which no name is before an earlier
-- one. Insertion sort stands for it; the theorems say what the code relies on.
use mathlib.Core.List.{Perm}
use mathlib.Core.List.Perm
use libral.Base.{false, List, [], ◌∷◌, if◌then◌else◌, ◌≡◌, arith, Bool-cases, inl, inr}
use libral.Base.Dict.{before}
use libral.Base.Dict.Order.{before_asym}
use libral.Provider.{ProvSpec}

unfoldable pub insert : ProvSpec → List ProvSpec → List ProvSpec
insert p [] = p ∷ []
insert p (q ∷ qs) = if before p.qname q.qname then p ∷ q ∷ qs else q ∷ insert p qs

unfoldable pub sort : List ProvSpec → List ProvSpec
sort [] = []
sort (p ∷ ps) = insert p (sort ps)

-- No provider comes before the one in front of it.
abbrev pub IsSorted : List ProvSpec → Type 0
IsSorted [] = Unit
IsSorted (p ∷ []) = Unit
IsSorted (p ∷ q ∷ qs) = (before q.qname p.qname ≡ false) × IsSorted (q ∷ qs)

insert-perm : (p : ProvSpec) (qs : List ProvSpec) → Perm (insert p qs) (p ∷ qs)
unfolding insert
insert-perm p [] = Perm.refl (p ∷ [])
insert-perm p (q ∷ qs) = elim (Bool-cases (before p.qname q.qname)) [
  | inl first ↦ rw first (Perm.refl (p ∷ q ∷ qs))
  | inr later ↦ rw later (Perm.trans (Perm.cons q (insert-perm p qs)) (Perm.swap p q qs))
]

-- The sorted list of providers has the same providers as the list.
pub sort-perm : (ps : List ProvSpec) → Perm (sort ps) ps
unfolding sort
sort-perm [] = Perm.refl []
sort-perm (p ∷ ps) = Perm.trans (insert-perm p (sort ps)) (Perm.cons p (sort-perm ps))

insert-IsSorted : (p : ProvSpec) (qs : List ProvSpec) → IsSorted qs → IsSorted (insert p qs)
unfolding insert
insert-IsSorted p [] h = tt
insert-IsSorted p (q ∷ []) h = ground (arith, before_asym p.qname q.qname)
insert-IsSorted p (q ∷ r ∷ qs) h =
    ground (arith, before_asym p.qname q.qname, insert-IsSorted p (r ∷ qs) h.1)

-- It is sorted by qualified name.
pub sort-IsSorted : (ps : List ProvSpec) → IsSorted (sort ps)
unfolding sort
sort-IsSorted [] = tt
sort-IsSorted (p ∷ ps) = insert-IsSorted p (sort ps) (sort-IsSorted ps)
