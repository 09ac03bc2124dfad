-- ===== src/Provider/Find.antt =====
-- `provider::find`: the one resource of a name, none, or an error if there are several.
use libral.Base.{
  String, Option, none, some, List, [], ◌∷◌, ◌==◌, if◌then◌else◌, Result, ok, err, ◌>>=◌, Exec, ◌≡◌,
  refl, arith,
}
use mathlib.Core.Path.{fun_ext}
use libral.Base.Text.{◌<>◌}
use libral.Resource.{Resource}
use libral.Provider.{Provider, qname, get}

abbrev more_than_one {ℓ} : {A : Type ℓ} → Result String → String → Result A
more_than_one q n = q >>= λ s. err ("[" <> s <> "] more than one resource with name " <> n)

-- the loop over the resources, with what it has found
unfoldable pub pick :
    Result String → String → Option Resource → List Resource → Result (Option Resource)
pick q n found [] = ok found
pick q n found (r ∷ rs) =
    if r.name == n
    then elim found [ none ↦ pick q n (some r) rs | some _ ↦ more_than_one q n ]
    else pick q n found rs

-- `find(name)`
unfoldable pub find : {W : Type 0} → Provider W → String → Exec W (Option Resource)
find p n w = let (r, w') = get p (n ∷ []) w in (r >>= pick (qname p) n none, w')

-- The resources of a name, in order.
unfoldable pub named : String → List Resource → List Resource
named n [] = []
named n (r ∷ rs) = if r.name == n then r ∷ named n rs else named n rs

-- What `find` is to return.
abbrev pub only : Result String → String → List Resource → Result (Option Resource)
only q n [] = ok none
only q n (r ∷ []) = ok (some r)
only q n (r ∷ s ∷ rs) = more_than_one q n

pick-some :
    (q : Result String) (n : String) (r : Resource) (rs : List Resource)
    → pick q n (some r) rs ≡ only q n (r ∷ named n rs)
unfolding pick named
pick-some q n r [] = refl
pick-some q n r (s ∷ rs) = ground (arith, pick-some q n r rs)

pub pick-none :
    (q : Result String) (n : String) (rs : List Resource) → pick q n none rs ≡ only q n (named n rs)
unfolding pick named
pick-none q n [] = refl
pick-none q n (r ∷ rs) = ground (arith, pick-none q n rs, pick-some q n r rs)

-- `find` returns the only resource of the name among those that `get` returns, none if there is
-- none, and an error if there are several. An error of `get` is passed on.
pub find_lem :
    {W : Type 0} (p : Provider W) (n : String) (w : W)
    → find p n w
      ≡ ((get p (n ∷ []) w).0 >>= λ rs. only (qname p) n (named n rs), (get p (n ∷ []) w).1)
unfolding find
find_lem p n w = rw (fun_ext (pick-none (qname p) n)) refl
