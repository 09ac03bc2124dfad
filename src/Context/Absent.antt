-- ===== src/Context/Absent.antt =====
-- `context::add_absent` makes the promise of `provider::get` true: every name that is asked for is
-- in the result.
use mathlib.Core.List.{append_assoc, append-nil}
use libral.Base.{
  String, Bool, true, false, not, ◌&&◌, ◌||◌, Option, none, some, List, [], ◌∷◌, ◌++◌, ◌==◌,
  if◌then◌else◌, ◌≡◌, ◌≢◌, refl, sym, ap, ◌∙◌, Result, ok, err, throws, ◌>>=◌, >>=-eq-ok, arith,
  eq_iff, eq_refl, Bool-cases, All, All-append, inl, inr,
}
use libral.Value.{text}
use libral.Resource.{Resource, assign}
use libral.Context.Record.{has_resource, add_absent, add_absent_one}

-- The resource with nothing but `ensure`, which is 'absent'.
abbrev pub absent : String → Resource
absent n = record { name = n; attrs = ("ensure", text "absent") ∷ [] }

pub has_resource-append :
    (n : String) (rs ss : List Resource)
    → has_resource n (rs ++ ss) ≡ (has_resource n rs || has_resource n ss)
unfolding has_resource
has_resource-append n [] ss = refl
has_resource-append n (r ∷ rs) ss = ground (arith, has_resource-append n rs ss)

add_absent_one_lem :
    (rs : List Resource) (n : String)
    → add_absent_one rs n ≡ ok (if has_resource n rs then rs else rs ++ (absent n ∷ []))
unfolding add_absent_one
add_absent_one_lem rs n = elim (Bool-cases (has_resource n rs)) [
  | inl there ↦ rw there refl
  | inr missing ↦ rw missing (unfold assign libral.Base.Dict.put in refl)
]

-- The names of the list that have no resource yet, each once.
unfoldable pub missing : List Resource → List String → List Resource
missing rs [] = []
missing rs (n ∷ ns) = elim (has_resource n rs) [
  | true ↦ missing rs ns
  | false ↦ absent n ∷ missing (rs ++ (absent n ∷ [])) ns
]

-- `add_absent` never fails; the resources that were there stay in front, and behind them stands
-- one with `ensure` 'absent' for each further name.
pub add_absent_lem :
    (ns : List String) (rs : List Resource) → add_absent rs ns ≡ ok (rs ++ missing rs ns)
unfolding add_absent missing
add_absent_lem [] rs = rw append-nil refl
add_absent_lem (n ∷ ns) rs = elim (Bool-cases (has_resource n rs)) [
  | inl there ↦ rw (add_absent_one_lem rs n, there, missing) (add_absent_lem ns rs)
  | inr gone ↦
      rw (add_absent_one_lem rs n, gone, missing)
        (add_absent_lem ns (rs ++ (absent n ∷ []))
          ∙ ap ok (append_assoc rs (absent n ∷ []) (missing (rs ++ (absent n ∷ [])) ns)))
]

has_resource_mono :
    (n : String) (rs ss : List Resource)
    → has_resource n rs ≡ true
    → has_resource n (rs ++ ss) ≡ true
has_resource_mono n rs ss h = rw (has_resource-append n rs ss, h) refl

has_resource_one : (n : String) (rs : List Resource) → has_resource n (rs ++ (absent n ∷ [])) ≡ true
unfolding has_resource
has_resource_one n rs = ground (arith, has_resource-append n rs (absent n ∷ []), eq_refl n)

has_resource-add_absent_one :
    (n : String) (rs rs' : List Resource) → add_absent_one rs n ≡ ok rs' → has_resource n rs' ≡ true
has_resource-add_absent_one n rs rs' e =
    ground (arith, add_absent_one_lem rs n, has_resource_one n rs)

-- When `add_absent` succeeds, every name that was asked for has a resource in its result.
pub add_absent-covers :
    (ns : List String) (rs rs' : List Resource)
    → add_absent rs ns ≡ ok rs'
    → All (λ n. has_resource n rs' ≡ true) ns
unfolding add_absent
add_absent-covers [] rs rs' e = tt
add_absent-covers (n ∷ ns) rs rs' e =
    let (one, e₁, e₂) = >>=-eq-ok (add_absent_one rs n) _ e in
    let whole : one ++ missing one ns ≡ rs' = cc (add_absent_lem ns one) in
    (
      rw (← whole)
          (has_resource_mono n one (missing one ns) (has_resource-add_absent_one n rs one e₁)),
      add_absent-covers ns one rs' e₂,
    )
