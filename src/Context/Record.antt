-- ===== src/Context/Record.antt =====
-- `change`, `changes` and the operations on `context` that record them.
use libral.Base.{
  String, Bool, true, false, not, ◌&&◌, ◌||◌, none, some, List, [], ◌∷◌, ◌++◌, ◌==◌, if◌then◌else◌,
  Result, ok, ◌>>=◌,
}
use libral.Base.Text.{◌<>◌}
use libral.Base.Dict.{Dict, find, put}
use libral.Value.{Value, text, value_eq, to_string}
use libral.Resource.{Resource, Update, index, assign, changed, current, new}

pub record Change : Type 0 where
  pub attr : String
  pub is : Value
  pub was : Value

-- `changes`, in the order in which they were pushed
abbrev pub Changes : Type 0
Changes = List Change

-- `add(attr, is, was)`
unfoldable pub add : String → Value → Value → Changes → Changes
add attr is was chgs = chgs ++ (record { attr = attr; is = is; was = was } ∷ [])

unfoldable pub exists : String → Changes → Bool
exists attr [] = false
exists attr (c ∷ cs) = c.attr == attr || exists attr cs

-- `add(attr, upd)`
unfoldable pub add_attr : String → Update → Changes → Result (Bool × Changes)
unfolding add
add_attr attr u chgs = do
  differs ← changed u attr
  if differs
      then (do s ← index u.should attr; i ← index u.is attr; ok (true, add attr s i chgs))
      else ok (false, chgs)

-- `add(attrs, upd)`
unfoldable pub add_attrs : List String → Update → Changes → Result (Bool × Changes)
add_attrs [] u chgs = ok (false, chgs)
add_attrs (a ∷ as') u chgs = do
  first ← add_attr a u chgs
  rest ← add_attrs as' u first.1
  ok (first.0 || rest.0, rest.1)

-- one round of the loop over `upd.should.attrs()`
unfoldable pub add_missing : String → Value → Update → Changes → Result (Bool × Changes)
unfolding add
add_missing attr v u chgs = do
  is ← index u.is attr
  if not (value_eq v is) && not (exists attr chgs)
      then ok (true, add attr v is chgs)
      else ok (false, chgs)

unfoldable pub add_all_missing : Dict Value → Update → Changes → Result (Bool × Changes)
add_all_missing [] u chgs = ok (false, chgs)
add_all_missing ((attr, v) ∷ rest) u chgs = do
  first ← add_missing attr v u chgs
  others ← add_all_missing rest u first.1
  ok (first.0 || others.0, others.1)

-- the branch of `maybe_add` for a resource that is to go away
unfoldable pub add_ensure : Update → Changes → Result (Bool × Changes)
unfolding add
add_ensure u chgs = if exists "ensure" chgs then ok (false, chgs) else add_attr "ensure" u chgs

unfoldable pub maybe_add : Update → Changes → Result (Bool × Changes)
maybe_add u chgs = do
  ensure ← current u "ensure"
  if value_eq ensure (text "absent")
      then add_ensure u chgs
      else add_all_missing u.should.attrs u chgs

-- `operator<<` on changes
unfoldable pub show : Changes → String
show [] = ""
show (c ∷ cs) = c.attr <> "(" <> to_string c.was <> "->" <> to_string c.is <> ")\n" <> show cs

-- the map `_changes` of a context
abbrev pub Recorded : Type 0
Recorded = Dict Changes

-- `changes_for(name)`: the changes recorded so far; the entry is made if there is none.
unfoldable pub changes_for : String → Recorded → Changes
changes_for n m = elim (find n m) [ none ↦ [] | some c ↦ c ]

-- a write through the reference that `changes_for(name)` returns
unfoldable pub record_changes : String → Changes → Recorded → Recorded
record_changes n c m = put n c m

unfoldable pub have_changes : String → Recorded → Bool
have_changes n m = elim (find n m) [ none ↦ false | some c ↦ true ]

-- whether `std::find_if` finds a resource of that name
unfoldable pub has_resource : String → List Resource → Bool
has_resource n [] = false
has_resource n (r ∷ rs) = n == r.name || has_resource n rs

-- one round of the loop of `add_absent`
unfoldable pub add_absent_one : List Resource → String → Result (List Resource)
unfolding assign
add_absent_one rs n =
    if has_resource n rs
    then ok rs
    else (do r ← assign (new n) "ensure" (text "absent"); ok (rs ++ (r ∷ [])))

-- `add_absent(rsrcs, names)`
unfoldable pub add_absent : List Resource → List String → Result (List Resource)
add_absent rs [] = ok rs
add_absent rs (n ∷ ns) = do rs' ← add_absent_one rs n; add_absent rs' ns

-- `context::error(msg)`
abbrev pub context_error : String → String → String
context_error qname msg = "[" <> qname <> "] " <> msg

-- What a mere call of `changes_for(name)` leaves in the map.
unfoldable pub touch : String → Recorded → Recorded
unfolding changes_for record_changes
touch n m = record_changes n (changes_for n m) m
