-- ===== src/Provider/Create.antt =====
-- `provider::create(upd, chgs)`: the resource that is shown after an update.
use libral.Base.{
  ap, String, true, false, Option, none, some, [], ◌∷◌, ◌==◌, if◌then◌else◌, Result, ok, ◌>>=◌,
  >>=-eq-ok, ◌≡◌, refl, arith, ◌∙◌,
}
use libral.Base.Dict.{insert_all, find, put}
use libral.Base.Dict.Laws.{find-insert_all, or_else}
use libral.Value.{Value, text, value_eq}
use libral.Resource.{Resource, Update, name, new, assign, current}
use libral.Resource.Laws.{current_lem, find-assign, name-assign}
use libral.Context.{Changes}
use libral.Context.Laws.{ensure-ne-name, ensure_of}

-- the loop over the changes
unfoldable pub apply_changes : Changes → Resource → Result Resource
apply_changes [] r = ok r
apply_changes (c ∷ cs) r = do r' ← assign r c.attr c.is; apply_changes cs r'

unfoldable pub create_after : Update → Changes → Result Resource
create_after u chgs = do
  let r = new (name u)
  ensure ← current u "ensure"
  if value_eq ensure (text "absent")
      then assign r "ensure" (text "absent")
      else apply_changes chgs
          (record r { attrs = insert_all u.should.attrs (insert_all u.is.attrs []) })

-- The value of the last change to an attribute.
unfoldable pub last_change : String → Changes → Option Value
last_change k [] = none
last_change k (c ∷ cs) = or_else (last_change k cs) (if c.attr == k then some c.is else none)

or_else_assoc {ℓ} :
    {A : Type ℓ} (a b c : Option A) → or_else (or_else a b) c ≡ or_else a (or_else b c)
or_else_assoc none b c = refl
or_else_assoc (some a) b c = refl

apply_changes_lem :
    (cs : Changes) (r r' : Resource) (k : String)
    → apply_changes cs r ≡ ok r'
    → find k r'.attrs ≡ or_else (last_change k cs) (find k r.attrs)
unfolding apply_changes last_change
apply_changes_lem [] r r' k e = ground arith
apply_changes_lem (c ∷ cs) r r' k e =
    let (r₁, e₁, e₂) = >>=-eq-ok (assign r c.attr c.is) _ e in
    ground (arith, apply_changes_lem cs r₁ r' k e₂, find-assign r r₁ c.attr k c.is e₁)

name-apply_changes :
    (cs : Changes) (r r' : Resource) → apply_changes cs r ≡ ok r' → r'.name ≡ r.name
unfolding apply_changes
name-apply_changes [] r r' e = ground arith
name-apply_changes (c ∷ cs) r r' e =
    let (r₁, e₁, e₂) = >>=-eq-ok (assign r c.attr c.is) _ e in
    name-apply_changes cs r₁ r' e₂ ∙ name-assign r r₁ c.attr c.is e₁

find-nil : (k : String) → find {V = Value} k [] ≡ none
unfolding find
find-nil k = refl

find-merged :
    (u : Update) (k : String)
    → find k (insert_all u.should.attrs (insert_all u.is.attrs []))
      ≡ or_else (find k u.is.attrs) (find k u.should.attrs)
find-merged u k =
    rw
      (
        find-insert_all k u.should.attrs (insert_all u.is.attrs []),
        find-insert_all k u.is.attrs [],
        find-nil k,
      )
      refl

-- If the resource is not to go away and `create` succeeds, each attribute has the value of the
-- last change that was recorded for it; failing that, the value that it had before the update;
-- and failing that, the desired value. The resource keeps its name.
pub create_after_lem :
    (u : Update) (chgs : Changes) (r : Resource) (k : String)
    → value_eq (ensure_of u) (text "absent") ≡ false
    → create_after u chgs ≡ ok r
    → (find k r.attrs
        ≡ or_else (last_change k chgs) (or_else (find k u.is.attrs) (find k u.should.attrs)))
      × (r.name ≡ name u)
unfolding create_after
create_after_lem u chgs r k stays e =
    let start : Resource = record {
      name = name u;
      attrs = insert_all u.should.attrs (insert_all u.is.attrs []);
    } in
    let run : apply_changes chgs start ≡ ok r =
      rw (current_lem u "ensure" ensure-ne-name, stays) at e in
    (
      apply_changes_lem chgs start r k run ∙ ap (or_else (last_change k chgs)) (find-merged u k),
      name-apply_changes chgs start r run,
    )

-- If the resource is to go away, `create` gives a resource with its name and `ensure` 'absent'
-- only, whatever changes are recorded.
pub create_after_absent :
    (u : Update) (chgs : Changes)
    → value_eq (ensure_of u) (text "absent") ≡ true
    → create_after u chgs ≡ ok (record { name = name u; attrs = ("ensure", text "absent") ∷ [] })
unfolding create_after
create_after_absent u chgs goes =
    rw (current_lem u "ensure" ensure-ne-name, goes) (unfold assign put in refl)
