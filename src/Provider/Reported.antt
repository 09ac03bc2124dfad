-- ===== src/Provider/Reported.antt =====
-- `maybe_add` and `provider::create` together: the resource that is shown after an update whose
-- changes are those that it asks for.
use libral.Base.{
  String, Bool, true, false, ◌||◌, if◌then◌else◌, Option, none, some, [], ◌∷◌, ◌==◌, ok, ◌≡◌, refl,
  sym, ap, ◌∙◌, inl, inr, All, Bool-cases, eq_iff,
}
use libral.Base.Dict.{Dict, find}
use libral.Base.Dict.Laws.{or_else}
use libral.Value.{Value, text, value_eq}
use libral.Value.Laws.{value_eq_sound}
use libral.Resource.{Resource, Update, or_nothing}
use libral.Resource.Laws.{value_at}
use libral.Context.{Changes, exists, maybe_add}
use libral.Context.Laws.{ensure_of}
use libral.Context.Missing.{Settled, Entry, IsAsked}
use libral.Context.MaybeAdd.{maybe_add-Settled, maybe_add-Appends}
use libral.Provider.Create.{create_after, create_after_lem, last_change}

-- Each key stands for one value, as in a map.
abbrev pub IsMap : Dict Value → Type 0
IsMap d = All (λ e. find e.0 d ≡ some e.1) d

found_entry :
    (d d' : Dict Value) (k : String) (v : Value)
    → All (λ e. find e.0 d' ≡ some e.1) d
    → Entry d (k, v)
    → find k d' ≡ some v
found_entry [] d' k v h e = elim e [ ]
found_entry (x ∷ d) d' k v (h, hs) (inl e) = cc
found_entry (x ∷ d) d' k v (h, hs) (inr e) = found_entry d d' k v hs e

asked_first :
    (here later : Bool) (v : Value) (f rest : Option Value)
    → (here ≡ true → f ≡ some v)
    → rest ≡ (if later then f else none)
    → or_else rest (if here then some v else none) ≡ (if here || later then f else none)
asked_first true true v f rest hit e = rw (e, hit refl) refl
asked_first true false v f rest hit e = rw (e, hit refl) refl
asked_first false true v none rest hit e = rw e refl
asked_first false true v (some w) rest hit e = rw e refl
asked_first false false v f rest hit e = rw e refl

-- Of changes that a map asks for, the last one of an attribute goes to its value in the map.
last_asked :
    (u : Update) (d : Dict Value) (cs : Changes) (k : String)
    → IsMap d
    → All (IsAsked u d) cs
    → last_change k cs ≡ (if exists k cs then find k d else none)
unfolding last_change exists
last_asked u d [] k m h = refl
last_asked u d (c ∷ cs) k m ((e, _, _), hs) =
    let hit : c.attr == k ≡ true → find k d ≡ some c.is = λ h.
      ap (λ (j : String). find j d) (sym ((eq_iff c.attr k).0 h))
      ∙ found_entry d d c.attr c.is m e in
    asked_first (c.attr == k) (exists k cs) c.is (find k d) (last_change k cs) hit
      (last_asked u d cs k m hs)

kept : (is : Option Value) (v : Value) → v ≡ or_nothing is → or_nothing (or_else is (some v)) ≡ v
kept none v e = refl
kept (some x) v e = sym e

-- where an attribute's value comes from
shown :
    (u : Update) (k : String) (v : Value) (chgs : Changes)
    → find k u.should.attrs ≡ some v
    → Settled u chgs (k, v)
    → or_nothing (
        or_else
          (if exists k chgs then find k u.should.attrs else none)
          (or_else (find k u.is.attrs) (find k u.should.attrs)))
      ≡ v
shown u k v chgs there (inr e) = rw (e, there) refl
shown u k v chgs there (inl e) = elim (Bool-cases (exists k chgs)) [
  | inl y ↦ rw (y, there) refl
  | inr n ↦ rw (n, there) (kept (find k u.is.attrs) v (value_eq_sound v (value_at u.is k) e))
]

module _ (u : Update) (b : Bool) (chgs : Changes) (r : Resource) where
  All-shown :
      (d : Dict Value)
      → ((k : String)
          → find k r.attrs
            ≡ or_else
                (if exists k chgs then find k u.should.attrs else none)
                (or_else (find k u.is.attrs) (find k u.should.attrs)))
      → All (λ e. find e.0 u.should.attrs ≡ some e.1) d
      → All (Settled u chgs) d
      → All (λ e. value_at r e.0 ≡ e.1) d
  All-shown [] source there settled = tt
  All-shown ((k, v) ∷ d) source (t, ts) (s, ss) =
      (ap or_nothing (source k) ∙ shown u k v chgs t s, All-shown d source ts ss)

  -- Where the resource is not to go away, `maybe_add` succeeds on it with nothing recorded before,
  -- and `create` succeeds with the changes that it records: the resource that is shown has every
  -- desired attribute at its desired value.
  pub create_after-maybe_add :
      value_eq (ensure_of u) (text "absent") ≡ false
      → IsMap u.should.attrs
      → maybe_add u [] ≡ ok (b, chgs)
      → create_after u chgs ≡ ok r
      → All (λ e. value_at r e.0 ≡ e.1) u.should.attrs
  create_after-maybe_add stays is_map added created =
      let (new, same, asked, _) = maybe_add-Appends u [] b chgs stays added in
      let from : (k : String)
          → last_change k chgs ≡ (if exists k chgs then find k u.should.attrs else none) =
        λ k. rw same (last_asked u u.should.attrs new k is_map asked) in
      All-shown u.should.attrs
        (λ k.
          (create_after_lem u chgs r k stays created).0
          ∙ ap
              (λ (o : Option Value).
                or_else o (or_else (find k u.is.attrs) (find k u.should.attrs)))
              (from k))
        is_map (maybe_add-Settled u [] b chgs stays added)
