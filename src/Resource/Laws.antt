-- ===== src/Resource/Laws.antt =====
-- What the operations on resources and updates keep and return.
use libral.Base.{
  String, not, ◌&&◌, none, some, ◌==◌, if◌then◌else◌, ok, throws, invalid_argument, ◌≡◌, ◌≢◌, arith,
  ==_false,
}
use libral.Base.Dict.{find}
use libral.Base.Dict.Laws.{find-put}
use libral.Value.{Value, is_present, value_eq}
use libral.Resource.{Resource, Update, index, assign, changed, current, or_nothing}

-- No attribute is called "name": `operator[]` does not let one be set.
abbrev pub NoName : Resource → Type 0
NoName r = find "name" r.attrs ≡ none

abbrev pub value_at : Resource → String → Value
value_at r key = or_nothing (find key r.attrs)

pub index-ok : (r : Resource) (key : String) → key ≢ "name" → index r key ≡ ok (value_at r key)
unfolding index
index-ok r key h = rw (==_false key "name" h)

-- After an attribute was set, reading it gives the value, reading any other gives what it gave
-- before, and reading "name" throws.
pub index-assign :
    (r r' : Resource) (key j : String) (v : Value)
    → assign r key v ≡ ok r'
    → index r' j
      ≡ (if j == "name" then throws invalid_argument else if key == j then ok v else index r j)
unfolding assign index
index-assign r r' key j v h = ground (arith, find-put key j v r.attrs)

pub assign-NoName :
    (r r' : Resource) (key : String) (v : Value) → NoName r → assign r key v ≡ ok r' → NoName r'
unfolding assign
assign-NoName r r' key v n h = ground (arith, find-put key "name" v r.attrs)

-- An update changes an attribute exactly when its desired value is set and differs.
pub changed_lem :
    (u : Update) (attr : String)
    → attr ≢ "name"
    → changed u attr
      ≡ ok (
          is_present (value_at u.should attr)
          && not (value_eq (value_at u.is attr) (value_at u.should attr)))
unfolding changed
changed_lem u attr h = rw (==_false attr "name" h) (ground arith)

pub current_lem :
    (u : Update) (attr : String)
    → attr ≢ "name"
    → current u attr
      ≡ ok (
          if is_present (value_at u.should attr)
          then value_at u.should attr
          else value_at u.is attr)
unfolding current
current_lem u attr h = rw (==_false attr "name" h) (ground arith)

pub find-assign :
    (r r' : Resource) (key k : String) (v : Value)
    → assign r key v ≡ ok r'
    → find k r'.attrs ≡ (if key == k then some v else find k r.attrs)
unfolding assign
find-assign r r' key k v e = ground (arith, find-put key k v r.attrs)

pub name-assign :
    (r r' : Resource) (key : String) (v : Value) → assign r key v ≡ ok r' → r'.name ≡ r.name
unfolding assign
name-assign r r' key v e = ground arith
