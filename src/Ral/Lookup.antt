-- ===== src/Ral/Lookup.antt =====
-- `ral::find_provider`: a provider by its qualified name, or else the only one of a type.
use libral.Base.{String, Option, none, some, List, [], ◌∷◌, ◌==◌, if◌then◌else◌, ◌≡◌, refl, arith}
use libral.Provider.{ProvSpec}

-- the first loop
unfoldable pub by_qname : String → List ProvSpec → Option ProvSpec
by_qname n [] = none
by_qname n (p ∷ ps) = if p.qname == n then some p else by_qname n ps

-- the second loop, with the provider that it has found
unfoldable pub by_type : String → Option ProvSpec → List ProvSpec → Option ProvSpec
by_type n found [] = found
by_type n found (p ∷ ps) =
    if p.type_name == n
    then elim found [ none ↦ by_type n (some p) ps | some q ↦ none ]
    else by_type n found ps

abbrev or_else : Option ProvSpec → Option ProvSpec → Option ProvSpec
or_else (some p) other = some p
or_else none other = other

unfoldable pub find_provider : String → List ProvSpec → Option ProvSpec
find_provider n ps = or_else (by_qname n ps) (by_type n none ps)

-- The providers of a type, in order.
unfoldable pub of_type : String → List ProvSpec → List ProvSpec
of_type n [] = []
of_type n (p ∷ ps) = if p.type_name == n then p ∷ of_type n ps else of_type n ps

unfoldable pub of_qname : String → List ProvSpec → List ProvSpec
of_qname n [] = []
of_qname n (p ∷ ps) = if p.qname == n then p ∷ of_qname n ps else of_qname n ps

-- The element of a list of one.
abbrev pub single : List ProvSpec → Option ProvSpec
single [] = none
single (p ∷ []) = some p
single (p ∷ q ∷ ps) = none

-- What `find_provider` is to return: the first provider of that qualified name; if there is none,
-- the provider of that type, provided that it is the only one.
abbrev pub chosen : List ProvSpec → List ProvSpec → Option ProvSpec
chosen (p ∷ ps) ts = some p
chosen [] ts = single ts

by_type-some :
    (n : String) (q : ProvSpec) (ps : List ProvSpec)
    → by_type n (some q) ps ≡ single (q ∷ of_type n ps)
unfolding by_type of_type
by_type-some n q [] = refl
by_type-some n q (p ∷ ps) = ground (arith, by_type-some n q ps)

by_type-none : (n : String) (ps : List ProvSpec) → by_type n none ps ≡ single (of_type n ps)
unfolding by_type of_type
by_type-none n [] = refl
by_type-none n (p ∷ ps) = ground (arith, by_type-none n ps, by_type-some n p ps)

by_qname_lem :
    (n : String) (ps ts : List ProvSpec)
    → or_else (by_qname n ps) (single ts) ≡ chosen (of_qname n ps) ts
unfolding by_qname of_qname
by_qname_lem n [] ts = refl
by_qname_lem n (p ∷ ps) ts = ground (arith, by_qname_lem n ps ts)

-- A name is looked up as a qualified name first, where the first match counts, and else as a
-- type, where a match counts only if it is the only one.
pub find_provider_lem :
    (n : String) (ps : List ProvSpec) → find_provider n ps ≡ chosen (of_qname n ps) (of_type n ps)
unfolding find_provider
find_provider_lem n ps = rw (by_type-none n ps) (by_qname_lem n ps (of_type n ps))
