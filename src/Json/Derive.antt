-- ===== src/Json/Derive.antt =====
-- The changes that `json_provider::set` derives itself, and changes to unknown attributes.
use libral.Base.{
  String, Bool, true, none, List, ◌∷◌, [], Result, ok, err, throws, undefined, Exec, continue, ◌≡◌,
  ◌≢◌, refl, arith, ==_false, ◌∙◌, Bool-cases, inl, inr,
}
use libral.Base.Dict.{Dict, find}
use libral.Base.Dict.Laws.{find-put}
use libral.Resource.{Update, name}
use libral.Context.{Changes, Recorded, changes_for, record_changes, touch, have_changes, maybe_add}
use libral.Json.Documents.{value_from_json}
use libral.Json.Action.{Setup}
use libral.Json.Changes.{keep, derive_one, derive, take_key, record_sides, side}
use libral.Attr as Attr

continue_kept :
    {A : Type 0} (f : Recorded → A) (r : Result (Unit {0})) (next : Exec Recorded (Unit {0}))
    (s : Recorded) {v : A}
    → f s ≡ v
    → f (next s).1 ≡ v
    → f (continue r (λ _. next) s).1 ≡ v
continue_kept f (ok _) next s h g = g
continue_kept f (err e) next s h g = h
continue_kept f (throws x) next s h g = h

module _ (j : Setup) (specs : Dict Attr.Spec) where
  open j use {docs}

  find-keep :
      (k n : String) (m : Recorded) (r : Result (Bool × Changes))
      → n ≢ k
      → find k (keep j specs n m r).1 ≡ find k m
  unfolding record_changes
  find-keep k n m (ok (_, chgs)) h = find-put n k chgs m ∙ rw (==_false n k h) refl
  find-keep k n m (err e) h = refl
  find-keep k n m (throws x) h = refl

  find-touch : (k n : String) (m : Recorded) → n ≢ k → find k (touch n m) ≡ find k m
  unfolding touch record_changes
  find-touch k n m h = find-put n k (changes_for n m) m ∙ rw (==_false n k h) refl

  have_changes-find :
      (k n : String) (m : Recorded) → find n m ≡ find k m → have_changes n m ≡ have_changes k m
  unfolding have_changes
  have_changes-find k n m e = rw (e, have_changes) refl

  derive_one-kept :
      (k : String) (u : Update) (m : Recorded)
      → have_changes k m ≡ true
      → find k (derive_one j specs u m).1 ≡ find k m
  unfolding derive_one
  derive_one-kept k u m h = elim (Bool-cases (have_changes (name u) m)) [
    | inl there ↦ rw there refl
    | inr missing ↦
        let differs : name u ≢ k =
          λ same. ground (arith, have_changes-find k (name u) m (rw same refl)) in
        rw missing (
          find-keep k (name u) (touch (name u) m) (maybe_add u (changes_for (name u) m)) differs
          ∙ find-touch k (name u) m differs)
  ]

  have_changes_same :
      (k : String) (m m' : Recorded)
      → find k m' ≡ find k m
      → have_changes k m ≡ true
      → have_changes k m' ≡ true
  unfolding have_changes
  have_changes_same k m m' e h = ground (arith, e)

  -- Deriving changes from the updates leaves alone what is recorded for a resource already, be it
  -- no change at all, and whatever the updates are.
  pub derive_kept :
      (k : String) (us : List Update) (m : Recorded)
      → have_changes k m ≡ true
      → find k (derive j specs us m).1 ≡ find k m
  unfolding derive
  derive_kept k [] m h = refl
  derive_kept k (u ∷ us) m h =
      let same = derive_one-kept k u m h in
      continue_kept (find k) (derive_one j specs u m).0 (derive j specs us)
        (derive_one j specs u m).1 same
        (derive_kept k us (derive_one j specs u m).1
            (have_changes_same k m (derive_one j specs u m).1 same h)
          ∙ same)

  side_unknown :
      (doc : docs.json.Doc) (k part : String)
      → find k specs ≡ none
      → side j specs doc k part ≡ ok none
  unfolding side value_from_json
  side_unknown doc k part unknown = rw unknown refl

  -- A change that the script reports for an attribute that the provider does not have is not
  -- skipped: both of its values are absent, and the code reads them all the same, which is
  -- undefined.
  pub unknown_change_undefined :
      (n : String) (doc : docs.json.Doc) (k : String) (m : Recorded)
      → k ≢ "name"
      → find k specs ≡ none
      → docs.includes doc (k ∷ "is" ∷ []) ≡ true
      → docs.includes doc (k ∷ "was" ∷ []) ≡ true
      → take_key j specs n doc k m ≡ (throws undefined, m)
  unfolding take_key record_sides
  unknown_change_undefined n doc k m h unknown is was =
      rw (==_false k "name" h, is, was)
        (rw (side_unknown doc k "is" unknown, side_unknown doc k "was" unknown, record_sides) refl)
