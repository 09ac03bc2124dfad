-- ===== src/Json/Frame.antt =====
-- What an answer to 'set' leaves recorded.
use libral.Base.{
  String, Bool, false, Option, none, some, List, ◌∷◌, [], ◌==◌, Result, ok, err, throws, ◌≡◌, ◌≢◌,
  refl, arith, All, ==_false, ◌∙◌,
}
use libral.Base.Invariant.{Keeps, bind-Keeps, lift-Keeps, if-Keeps}
use libral.Base.Dict.{Dict}
use libral.Value.{Value}
use libral.Resource.{Update, name}
use libral.Context.{Changes, Recorded, changes_for, touch, maybe_add, add}
use libral.Context.Laws.{changes_for-record, changes_for-touch}
use libral.Json.Action.{Setup}
use libral.Json.Changes.{
  contains_error, side, take_key, take_keys, take_change, take_changes, reported, derive_one,
  derive, record_all, take_answer, record_sides, deref, note, keep, touched, unless_failed,
}
use libral.Attr as Attr

module _ (j : Setup) (specs : Dict Attr.Spec) (k : String) where
  open j use {docs}

  -- The entry is about another resource, if about any.
  abbrev pub IsElsewhere : docs.json.Doc → Type 0
  IsElsewhere doc = docs.json.get_string doc ("name" ∷ []) ≢ ok k

module _ (j : Setup) (specs : Dict Attr.Spec) (k : String) (v : Changes) where
  open j use {docs}

  -- The changes of the resource are these.
  abbrev P : Recorded → Type 0
  P s = changes_for k s ≡ v

  abbrev Elsewhere : docs.json.Doc → Type 0
  Elsewhere doc = IsElsewhere j specs k doc

  note-Keeps : (n attr : String) (is was : Value) → n ≢ k → Keeps P (note j specs n attr is was)
  note-Keeps n attr is was h s p =
      changes_for-record n k (add attr is was (changes_for n s)) s ∙ rw (==_false n k h) p

  take_key-Keeps :
      (n : String) (doc : docs.json.Doc) (key : String)
      → n ≢ k
      → Keeps P (take_key j specs n doc key)
  unfolding take_key record_sides
  take_key-Keeps n doc key h =
      if-Keeps P (key == "name") _ _ (λ s p. p)
        (if-Keeps P (docs.includes doc (key ∷ "is" ∷ [])) _ _
          (if-Keeps P (docs.includes doc (key ∷ "was" ∷ [])) _ _
            (lift-Keeps P (side j specs doc key "is") _ (λ is _.
              lift-Keeps P (side j specs doc key "was") _ (λ was _.
                lift-Keeps P (deref is) _
                  (λ i _. lift-Keeps P (deref was) _ (λ w _. note-Keeps n key i w h)))))
            (λ s p. p))
          (λ s p. p))

  take_keys-Keeps :
      (n : String) (doc : docs.json.Doc) (ks : List String)
      → n ≢ k
      → Keeps P (take_keys j specs n doc ks)
  unfolding take_keys
  take_keys-Keeps n doc [] h = λ s p. p
  take_keys-Keeps n doc (key ∷ ks) h =
      bind-Keeps P (take_key j specs n doc key) _ (take_key-Keeps n doc key h)
        (λ _. take_keys-Keeps n doc ks h)

  take_change-Keeps : (doc : docs.json.Doc) → Elsewhere doc → Keeps P (take_change j specs doc)
  unfolding take_change
  take_change-Keeps doc h =
      if-Keeps P (docs.includes doc ("name" ∷ [])) _ _
        (lift-Keeps P (docs.json.get_string doc ("name" ∷ [])) _ (λ n e.
          bind-Keeps P (touched j specs n) (λ _. take_keys j specs n doc (docs.keys doc))
            (λ s p. changes_for-touch n k s ∙ p)
            (λ _. take_keys-Keeps n doc (docs.keys doc) (λ same. h (cc)))))
        (λ s p. p)

  take_changes-Keeps :
      (ds : List docs.json.Doc) → All Elsewhere ds → Keeps P (take_changes j specs ds)
  unfolding take_changes
  take_changes-Keeps [] h = λ s p. p
  take_changes-Keeps (d ∷ ds) h =
      bind-Keeps P (take_change j specs d) _ (take_change-Keeps d h.0)
        (λ _. take_changes-Keeps ds h.1)

  reported-Keeps :
      (out : docs.json.Doc)
      → ((ds : List docs.json.Doc) → docs.get_docs out ("changes" ∷ []) ≡ ok ds → All Elsewhere ds)
      → Keeps P (reported j specs out)
  unfolding reported
  reported-Keeps out h =
      if-Keeps P (docs.includes out ("changes" ∷ [])) _ _
        (lift-Keeps P (docs.get_docs out ("changes" ∷ [])) _
          (λ ds e. take_changes-Keeps ds (h ds e)))
        (λ s p. p)

  keep-Keeps :
      (n : String) (m : Recorded) (r : Result (Bool × Changes))
      → n ≢ k
      → changes_for k (keep j specs n m r).1 ≡ changes_for k m
  keep-Keeps n m (ok (_, chgs)) h = changes_for-record n k chgs m ∙ rw (==_false n k h) refl
  keep-Keeps n m (err e) h = refl
  keep-Keeps n m (throws x) h = refl

  derive_one-Keeps : (u : Update) → name u ≢ k → Keeps P (derive_one j specs u)
  unfolding derive_one
  derive_one-Keeps u h s p = ground (
    arith,
    keep-Keeps (name u) (touch (name u) s) (maybe_add u (changes_for (name u) s)) h,
    changes_for-touch (name u) k s,
  )

  derive-Keeps : (us : List Update) → All (λ u. name u ≢ k) us → Keeps P (derive j specs us)
  unfolding derive
  derive-Keeps [] h = λ s p. p
  derive-Keeps (u ∷ us) h =
      bind-Keeps P (derive_one j specs u) _ (derive_one-Keeps u h.0) (λ _. derive-Keeps us h.1)

  unless_failed-Keeps :
      (out : docs.json.Doc) (us : List Update) (failed : Option String)
      → ((ds : List docs.json.Doc) → docs.get_docs out ("changes" ∷ []) ≡ ok ds → All Elsewhere ds)
      → All (λ u. name u ≢ k) us
      → Keeps P (unless_failed j specs out us failed)
  unfolding record_all
  unless_failed-Keeps out us none h other =
      bind-Keeps P (reported j specs out) _ (reported-Keeps out h) (λ _.
        lift-Keeps P (docs.bool_or out ("derive" ∷ []) false) _
          (λ wanted _. if-Keeps P wanted _ _ (derive-Keeps us other) (λ s p. p)))
  unless_failed-Keeps out us (some message) h other = λ s p. p

  answer-Keeps :
      (out : docs.json.Doc) (us : List Update)
      → ((ds : List docs.json.Doc) → docs.get_docs out ("changes" ∷ []) ≡ ok ds → All Elsewhere ds)
      → All (λ u. name u ≢ k) us
      → Keeps P (take_answer j specs out us)
  unfolding take_answer
  answer-Keeps out us h other =
      lift-Keeps P (contains_error j specs out) _
        (λ failed _. unless_failed-Keeps out us failed h other)

module _ (j : Setup) (specs : Dict Attr.Spec) (k : String) where
  open j use {docs}

  -- Whatever the answer to 'set' is, and also where it is refused halfway: if no entry of its
  -- 'changes' is about a resource and no update is, nothing is recorded for that resource.
  pub take_answer-Keeps :
      (out : docs.json.Doc) (us : List Update)
      → ((ds : List docs.json.Doc)
          → docs.get_docs out ("changes" ∷ []) ≡ ok ds
          → All (IsElsewhere j specs k) ds)
      → All (λ u. name u ≢ k) us
      → (s : Recorded) → changes_for k (take_answer j specs out us s).1 ≡ changes_for k s
  take_answer-Keeps out us h other s =
      answer-Keeps j specs k (changes_for k s) out us h other s refl
