-- ===== src/Context/Missing.antt =====
-- The loop of `maybe_add` over the desired attributes: it settles each of them, and adds only what
-- is asked for.
use libral.Base.{
  String, Bool, true, false, not, ◌||◌, [], ◌∷◌, ◌++◌, ◌==◌, ◌≡◌, ◌≢◌, refl, ◌∙◌, ◌⊎◌, inl, inr, ok,
  >>=-eq-ok, arith, eq_refl, All, is_empty,
}
use mathlib.Core.List.{append_assoc, append-nil}
use libral.Base.Dict.{Dict}
use libral.Value.{Value, value_eq}
use libral.Resource.{Update, index, new}
use libral.Resource.Laws.{value_at, index-ok}
use libral.Context.Record.{Change, Changes, exists, add_missing, add_all_missing}
use libral.Context.Laws.{exists-append}

-- The attribute has the value `v` already, or a change to it is recorded.
abbrev pub Settled : Update → Changes → String × Value → Type 0
Settled u chgs (attr, v) = (value_eq v (value_at u.is attr) ≡ true) ⊎ (exists attr chgs ≡ true)

-- The map has this entry.
abbrev pub Entry : Dict Value → String × Value → Type 0
Entry [] e = ⊥
Entry (x ∷ d) e = (x ≡ e) ⊎ Entry d e

-- The change goes from what is to an entry of the map, and the two differ.
abbrev pub IsAsked : Update → Dict Value → Change → Type 0
IsAsked u d c =
    Entry d (c.attr, c.is) × (c.was ≡ value_at u.is c.attr) × (value_eq c.is c.was ≡ false)

module _ (u : Update) (attr : String) (v : Value) (chgs : Changes) where
  abbrev pub one : Changes
  one = record { attr = attr; is = v; was = value_at u.is attr } ∷ []

  -- one round records at most its own attribute, and settles it
  add_missing_lem :
      (b : Bool) (c' : Changes)
      → add_missing attr v u chgs ≡ ok (b, c')
      → ((b ≡ false) × (c' ≡ chgs) × Settled u chgs (attr, v))
        ⊎ ((b ≡ true) × (c' ≡ chgs ++ one) × (value_eq v (value_at u.is attr) ≡ false))
  unfolding add_missing index
  add_missing_lem b c' e = ground arith

pub exists_one :
    (u : Update) (attr : String) (v : Value) (chgs : Changes) (k : String)
    → exists k (chgs ++ one u attr v chgs) ≡ (exists k chgs || attr == k)
unfolding exists
exists_one u attr v chgs k = ground (arith, exists-append k chgs (one u attr v chgs))

module _ (u : Update) where
  -- What `add_all_missing` does to a longer map is one round and then the rest.
  add_all_missing_cons :
      (attr : String) (v : Value) (d : Dict Value) (chgs : Changes) (b : Bool) (c' : Changes)
      → add_all_missing ((attr, v) ∷ d) u chgs ≡ ok (b, c')
      → (b₁ b₂ : Bool) × (c : Changes) × (add_missing attr v u chgs ≡ ok (b₁, c))
        × (add_all_missing d u c ≡ ok (b₂, c'))
        × (b ≡ (b₁ || b₂))
  unfolding add_all_missing
  add_all_missing_cons attr v d chgs b c' e =
      let (first, e₁, rest) = >>=-eq-ok (add_missing attr v u chgs) _ e in
      let (others, e₂, last) = >>=-eq-ok (add_all_missing d u first.1) _ rest in
      (first.0, others.0, first.1, e₁, ground arith, ground arith)

  exists-add_missing :
      (attr : String) (v : Value) (chgs : Changes) (b : Bool) (c' : Changes) (k : String)
      → add_missing attr v u chgs ≡ ok (b, c')
      → exists k chgs ≡ true
      → exists k c' ≡ true
  exists-add_missing attr v chgs b c' k e h =
      ground (arith, add_missing_lem u attr v chgs b c' e, exists_one u attr v chgs k)

  exists-add_all_missing :
      (d : Dict Value) (chgs : Changes) (b : Bool) (c' : Changes) (k : String)
      → add_all_missing d u chgs ≡ ok (b, c')
      → exists k chgs ≡ true
      → exists k c' ≡ true
  exists-add_all_missing [] chgs b c' k e h = unfold add_all_missing in ground arith
  exists-add_all_missing ((attr, v) ∷ d) chgs b c' k e h =
      let (b₁, b₂, c, e₁, e₂, _) = add_all_missing_cons attr v d chgs b c' e in
      exists-add_all_missing d c b₂ c' k e₂ (exists-add_missing attr v chgs b₁ c k e₁ h)

  add_missing-Settled :
      (attr : String) (v : Value) (chgs : Changes) (b : Bool) (c' : Changes)
      → add_missing attr v u chgs ≡ ok (b, c')
      → Settled u c' (attr, v)
  add_missing-Settled attr v chgs b c' e =
      ground
        (arith, add_missing_lem u attr v chgs b c' e, exists_one u attr v chgs attr, eq_refl attr)

  keeps-Settled :
      (d : Dict Value) (c : Changes) (b : Bool) (c' : Changes) (attr : String) (v : Value)
      → add_all_missing d u c ≡ ok (b, c')
      → Settled u c (attr, v)
      → Settled u c' (attr, v)
  keeps-Settled d c b c' attr v e (inl same) = inl same
  keeps-Settled d c b c' attr v e (inr there) = inr (exists-add_all_missing d c b c' attr e there)

  -- After the loop, every attribute of the map is settled.
  pub add_all_missing-Settled :
      (d : Dict Value) (chgs : Changes) (b : Bool) (c' : Changes)
      → add_all_missing d u chgs ≡ ok (b, c')
      → All (Settled u c') d
  add_all_missing-Settled [] chgs b c' e = tt
  add_all_missing-Settled ((attr, v) ∷ d) chgs b c' e =
      let (b₁, b₂, c, e₁, e₂, _) = add_all_missing_cons attr v d chgs b c' e in
      (
        keeps-Settled d c b₂ c' attr v e₂ (add_missing-Settled attr v chgs b₁ c e₁),
        add_all_missing-Settled d c b₂ c' e₂,
      )

  -- The loop appends changes that are asked for, and says whether there are any.
  abbrev Appends : Dict Value → Changes → Bool → Changes → Type 0
  Appends d chgs b c' =
      (new : Changes) × (c' ≡ chgs ++ new) × All (IsAsked u d) new × (b ≡ not (is_empty new))

  weaken :
      (e : String × Value) (d : Dict Value) (cs : Changes)
      → All (IsAsked u d) cs
      → All (IsAsked u (e ∷ d)) cs
  weaken e d [] a = tt
  weaken e d (c ∷ cs) a = ((inr a.0.0, a.0.1, a.0.2), weaken e d cs a.1)

  pub add_all_missing-Appends :
      (d : Dict Value) (chgs : Changes) (b : Bool) (c' : Changes)
      → add_all_missing d u chgs ≡ ok (b, c')
      → Appends d chgs b c'
  add_all_missing-Appends [] chgs b c' e =
      unfold add_all_missing in ([], rw append-nil (ground arith), tt, ground arith)
  add_all_missing-Appends ((attr, v) ∷ d) chgs b c' e =
      let (b₁, b₂, c, e₁, e₂, bs) = add_all_missing_cons attr v d chgs b c' e in
      step b₁ b₂ c bs (add_missing_lem u attr v chgs b₁ c e₁) (add_all_missing-Appends d c b₂ c' e₂)
    where
      step :
          (b₁ b₂ : Bool) (c : Changes)
          → b ≡ (b₁ || b₂)
          → ((b₁ ≡ false) × (c ≡ chgs) × Settled u chgs (attr, v))
            ⊎ ((b₁ ≡ true)
                × (c ≡ chgs ++ one u attr v chgs)
                × (value_eq v (value_at u.is attr) ≡ false))
          → Appends d c b₂ c'
          → Appends ((attr, v) ∷ d) chgs b c'
      step b₁ b₂ c bs (inl (same, e, _)) (new, e', asked, n) =
          (new, cc, weaken (attr, v) d new asked, ground arith)
      step b₁ b₂ c bs (inr (hit, e, differs)) (new, e', asked, n) = (
        one u attr v chgs ++ new,
        e' ∙ rw e (append_assoc chgs (one u attr v chgs) new),
        ((inl refl, refl, differs), weaken (attr, v) d new asked),
        ground arith,
      )

  Settled-add_missing :
      (attr : String) (v : Value) (c : Changes)
      → attr ≢ "name"
      → Settled u c (attr, v)
      → add_missing attr v u c ≡ ok (false, c)
  unfolding add_missing
  Settled-add_missing attr v c n h = rw (index-ok u.is attr n) (ground arith)

  -- Where everything is settled, the loop finds nothing to add.
  pub Settled-add_all_missing :
      (d : Dict Value) (c : Changes)
      → All (λ e. e.0 ≢ "name") d
      → All (Settled u c) d
      → add_all_missing d u c ≡ ok (false, c)
  unfolding add_all_missing
  Settled-add_all_missing [] c n s = refl
  Settled-add_all_missing ((attr, v) ∷ d) c n s =
      rw (Settled-add_missing attr v c n.0 s.0) (rw (Settled-add_all_missing d c n.1 s.1) refl)
