-- ===== src/Context/Laws.antt =====
-- What the operations on changes and on the map of changes return.
use libral.Base.{
  String, true, false, not, ◌&&◌, ◌||◌, [], ◌∷◌, ◌++◌, ◌==◌, if◌then◌else◌, ◌≡◌, ◌≢◌, refl, ap, ok,
  arith, eq_iff,
}
use libral.Base.Dict.{find}
use libral.Base.Dict.Laws.{find-put}
use libral.Value.{Value, value_eq, is_present}
use libral.Resource.{Update}
use libral.Resource.Laws.{value_at, index-ok, changed_lem}
use libral.Context.Record.{Changes, Recorded, changes_for, record_changes, touch, exists, add_attr}

pub exists-append :
    (k : String) (xs ys : Changes) → exists k (xs ++ ys) ≡ (exists k xs || exists k ys)
unfolding exists
exists-append k [] ys = refl
exists-append k (x ∷ xs) ys = ground (arith, exists-append k xs ys)

-- For an attribute that is not called "name", `add(attr, upd)` records one change, from the value
-- that is to the one that should be, exactly when the update changes the attribute, and says
-- whether it did.
pub add_attr_lem :
    (attr : String) (u : Update) (chgs : Changes)
    → attr ≢ "name"
    → add_attr attr u chgs
      ≡ ok (
          if is_present (value_at u.should attr)
            && not (value_eq (value_at u.is attr) (value_at u.should attr))
          then (
            true,
            chgs
                ++ (record { attr = attr; is = value_at u.should attr; was = value_at u.is attr }
                    ∷ []),
          )
          else (false, chgs))
unfolding add_attr
add_attr_lem attr u chgs h =
    rw (changed_lem u attr h, index-ok u.should attr h, index-ok u.is attr h) (ground arith)

pub ensure-ne-name : ◌≢◌ {A = String} "ensure" "name"
ensure-ne-name = ground (arith, eq_iff "ensure" "name")

-- The value of `ensure` with which an update is to end.
abbrev pub ensure_of : Update → Value
ensure_of u =
    if is_present (value_at u.should "ensure")
    then value_at u.should "ensure"
    else value_at u.is "ensure"

pub changes_for-record :
    (n k : String) (c : Changes) (m : Recorded)
    → changes_for k (record_changes n c m) ≡ (if n == k then c else changes_for k m)
unfolding changes_for record_changes
changes_for-record n k c m = ground (arith, find-put n k c m)

pub changes_for-touch : (n k : String) (m : Recorded) → changes_for k (touch n m) ≡ changes_for k m
unfolding touch changes_for record_changes
changes_for-touch n k m = ground (
  arith,
  find-put n k (changes_for n m) m,
  eq_iff n k,
  ap (λ (i : String). find i m) {x = n} {y = k},
)
