-- ===== src/Provider/Set.antt =====
-- `provider::set`: pairs every desired resource with its current state and hands the pairs over.
use libral.Base.{
  String, false, List, [], ◌∷◌, ◌++◌, ◌==◌, if◌then◌else◌, ok, err, Exec, ◌≡◌, refl, arith, map,
  All, All-append, eq_iff, ap,
}
use libral.Base.Do.{◌>>=◌}
use libral.Base.{pure}
use libral.Resource.{Resource, Update, name, new}
use libral.Context.{Changes, Recorded, changes_for, has_resource}
use libral.Provider.{Provider, Call, fresh, leave, create}

-- the inner loop over what `get` returned
unfoldable pub pairs : Resource → List Resource → List Update
pairs should [] = []
pairs should (is ∷ iss) =
    let rest = pairs should iss in
    if is.name == should.name then record { is = is; should = should } ∷ rest else rest

-- one round of the outer loop: without a current state, an empty resource stands in for it
unfoldable pub updates_for : Resource → List Resource → List Update
updates_for should iss = elim (pairs should iss) [
  | [] ↦ record { is = create should.name; should = should } ∷ []
  | u ∷ us ↦ u ∷ us
]

unfoldable pub updates : List Resource → List Resource → List Update
updates [] iss = []
updates (should ∷ shoulds) iss = updates_for should iss ++ updates shoulds iss

-- the updates with the changes that were recorded for them
unfoldable pub report : Recorded → List Update → List (Update × Changes)
report recorded [] = []
report recorded (u ∷ us) = (u, changes_for (name u) recorded) ∷ report recorded us

abbrev pub names : List Resource → List String
names = map (λ r. r.name)

unfoldable pub set_call :
    {W : Type 0} → Provider W → List Resource → Exec (Call W) (List (Update × Changes))
set_call p shoulds = do
  iss ← p.get_in (names shoulds) []
  let upds = updates shoulds iss
  _ ← p.set_in upds
  λ c. pure (report c.recorded upds) c

-- `set(shoulds)`
unfoldable pub set : {W : Type 0} → Provider W → List Resource → Exec W (List (Update × Changes))
unfolding set_call
set p shoulds w = leave (set_call p shoulds (fresh w))

-- The two resources of an update have one name.
abbrev pub IsPaired : Update → Type 0
IsPaired u = u.is.name ≡ u.should.name

pairs-IsPaired : (should : Resource) (iss : List Resource) → All IsPaired (pairs should iss)
unfolding pairs
pairs-IsPaired should [] = tt
pairs-IsPaired should (is ∷ iss) =
    ground (arith, pairs-IsPaired should iss, eq_iff is.name should.name)

updates_for-IsPaired :
    (should : Resource) (iss : List Resource) → All IsPaired (updates_for should iss)
unfolding updates_for
updates_for-IsPaired should iss = ground (arith, pairs-IsPaired should iss)

-- Whatever `get` returned, each update of `set` pairs two resources of one name.
pub updates-IsPaired : (shoulds iss : List Resource) → All IsPaired (updates shoulds iss)
unfolding updates
updates-IsPaired [] iss = tt
updates-IsPaired (s ∷ ss) iss =
    All-append IsPaired (updates_for s iss) (updates ss iss) (updates_for-IsPaired s iss)
      (updates-IsPaired ss iss)

-- No two resources of the list have one name.
abbrev pub Distinct : List Resource → Type 0
Distinct [] = Unit
Distinct (r ∷ rs) = (has_resource r.name rs ≡ false) × Distinct rs

-- The first resource of a name, or an empty one.
unfoldable pub state_of : String → List Resource → Resource
state_of n [] = new n
state_of n (r ∷ rs) = if r.name == n then r else state_of n rs

abbrev pub paired : Resource → List Resource → Update
paired should iss = record { is = state_of should.name iss; should = should }

pairs_none :
    (should : Resource) (iss : List Resource)
    → has_resource should.name iss ≡ false
    → pairs should iss ≡ []
unfolding pairs has_resource
pairs_none should [] h = refl
pairs_none should (is ∷ iss) h =
    ground (arith, pairs_none should iss, eq_iff is.name should.name, eq_iff should.name is.name)

has_resource_eq :
    (a b : String) (iss : List Resource) → a ≡ b → has_resource a iss ≡ has_resource b iss
has_resource_eq a b iss e = rw e refl

pairs-Distinct :
    (should : Resource) (iss : List Resource)
    → Distinct iss
    → pairs should iss ≡ (if has_resource should.name iss then paired should iss ∷ [] else [])
unfolding pairs has_resource state_of
pairs-Distinct should [] d = refl
pairs-Distinct should (is ∷ iss) d = ground (
  arith,
  pairs-Distinct should iss d.1,
  pairs_none should iss,
  has_resource_eq is.name should.name iss,
  eq_iff is.name should.name,
  eq_iff should.name is.name,
)

state_of_none :
    (n : String) (iss : List Resource) → has_resource n iss ≡ false → state_of n iss ≡ new n
unfolding state_of has_resource
state_of_none n [] h = refl
state_of_none n (r ∷ iss) h = ground (arith, state_of_none n iss, eq_iff n r.name, eq_iff r.name n)

updates_for-Distinct :
    (should : Resource) (iss : List Resource)
    → Distinct iss
    → updates_for should iss ≡ paired should iss ∷ []
unfolding updates_for
updates_for-Distinct should iss d =
    ground (arith, pairs-Distinct should iss d, state_of_none should.name iss)

-- Where the provider reports each name once, `set` makes one update for each desired resource, in
-- their order, with the current state of that name, or an empty resource if there is none.
pub updates-Distinct :
    (shoulds iss : List Resource)
    → Distinct iss
    → updates shoulds iss ≡ map (λ s. paired s iss) shoulds
unfolding updates
updates-Distinct [] iss d = refl
updates-Distinct (s ∷ ss) iss d =
    rw (updates_for-Distinct s iss d) (ap (◌∷◌ (paired s iss)) (updates-Distinct ss iss d))

-- If the current state cannot be read, `set` returns the error and hands nothing to the provider
-- to be set: the system is as `get` left it.
pub set_get_fails :
    {W : Type 0} (p : Provider W) (shoulds : List Resource) (w w' : W) (rec : Recorded) (e : String)
    → p.get_in (names shoulds) [] (fresh w) ≡ (err e, record { recorded = rec; world = w' })
    → set p shoulds w ≡ (err e, w')
unfolding set
set_get_fails p shoulds w w' rec e h = rw h refl

-- If the provider can be read and reports success in setting, `set` returns the updates that were
-- handed to it, in order, each with the changes recorded under its name; and the system is as the
-- provider left it.
pub set_done :
    {W : Type 0} (p : Provider W) (shoulds iss : List Resource) (w : W) (c c' : Call W)
    → p.get_in (names shoulds) [] (fresh w) ≡ (ok iss, c)
    → p.set_in (updates shoulds iss) c ≡ (ok tt, c')
    → set p shoulds w ≡ (ok (report c'.recorded (updates shoulds iss)), c'.world)
unfolding set
set_done p shoulds iss w c c' h k = rw (h, k) refl
