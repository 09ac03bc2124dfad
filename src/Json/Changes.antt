-- ===== src/Json/Changes.antt =====
-- The part of `json_provider::set` that reads the answer of the script and records changes.
use libral.Base.{
  String, Bool, true, false, Option, none, some, List, ◌∷◌, [], ◌==◌, if◌then◌else◌, Result, ok,
  err, throws, undefined, Exec, lift, bind, continue, fail, pure,
}
use libral.Base.Do.{◌>>=◌}
use libral.Base.Text.{◌<>◌}
use libral.Base.Dict.{Dict}
use libral.Value.{Value}
use libral.Resource.{Update, name}
use libral.Context.{
  Changes, Recorded, changes_for, record_changes, touch, have_changes, add, maybe_add,
}
use libral.Attr as Attr
use libral.Json.Documents.{value_from_json}
use libral.Json.Action.{Setup, complain}

-- `*o` on a `boost::optional` is undefined if there is nothing in it.
abbrev pub deref {ℓ} : {A : Type ℓ} → Option A → Result A
deref none = throws undefined
deref (some a) = ok a

module _ (j : Setup) (specs : Dict Attr.Spec) where
  open j use {docs}

  -- `contains_error`: the message, if there is one; the kind is read and not used.
  unfoldable pub contains_error : docs.json.Doc → Result (Option String)
  contains_error out =
      if docs.includes out ("error" ∷ [])
      then libral.Base.◌>>=◌ (docs.string_or out ("error" ∷ "message" ∷ []) "") (λ message.
        libral.Base.◌>>=◌ (docs.string_or out ("error" ∷ "kind" ∷ []) "failed")
          (λ kind. ok (some message)))
      else ok none

  -- one of the two values of a change, whose error is marked with the provider's name
  abbrev pub marked : Result (Option Value) → Result (Option Value)
  marked (ok v) = ok v
  marked (err e) = complain j e
  marked (throws x) = throws x

  unfoldable pub side : docs.json.Doc → String → String → Result (Option Value)
  side doc k part = marked (value_from_json docs specs k doc (k ∷ part ∷ []))

  abbrev pub lacks : String → String → String → String
  lacks n k part =
      "malformed change: entry for " <> n <> "." <> k <> " does not contain '" <> part <> "'"

  abbrev pub note : String → String → Value → Value → Exec Recorded (Unit {0})
  note n k is was m = (ok tt, record_changes n (add k is was (changes_for n m)) m)

  -- an attribute for which both values are there
  unfoldable pub record_sides : String → docs.json.Doc → String → Exec Recorded (Unit {0})
  record_sides n doc k = do
    is ← lift (side doc k "is")
    was ← lift (side doc k "was")
    i ← lift (deref is)
    w ← lift (deref was)
    note n k i w

  -- the body of the loop over the keys of an entry
  unfoldable pub take_key : String → docs.json.Doc → String → Exec Recorded (Unit {0})
  take_key n doc k =
      if k == "name"
      then pure tt
      else if docs.includes doc (k ∷ "is" ∷ [])
      then (if docs.includes doc (k ∷ "was" ∷ [])
          then record_sides n doc k
          else fail (lacks n k "was"))
      else lift (complain j (lacks n k "is"))

  unfoldable pub take_keys : String → docs.json.Doc → List String → Exec Recorded (Unit {0})
  take_keys n doc [] = pure tt
  take_keys n doc (k ∷ ks) = bind (take_key n doc k) (λ _. take_keys n doc ks)

  abbrev pub touched : String → Exec Recorded (Unit {0})
  touched n m = (ok tt, touch n m)

  -- one entry of 'changes'
  unfoldable pub take_change : docs.json.Doc → Exec Recorded (Unit {0})
  take_change doc =
      if docs.includes doc ("name" ∷ [])
      then (do
        n ← lift (docs.json.get_string doc ("name" ∷ []))
        _ ← touched n
        take_keys n doc (docs.keys doc))
      else lift (complain j "malformed change: entry does not contain a name")

  unfoldable pub take_changes : List docs.json.Doc → Exec Recorded (Unit {0})
  take_changes [] = pure tt
  take_changes (d ∷ ds) = bind (take_change d) (λ _. take_changes ds)

  unfoldable pub reported : docs.json.Doc → Exec Recorded (Unit {0})
  reported out =
      if docs.includes out ("changes" ∷ [])
      then bind (lift (docs.get_docs out ("changes" ∷ []))) take_changes
      else pure tt

  abbrev pub keep : String → Recorded → Result (Bool × Changes) → Result (Unit {0}) × Recorded
  keep n m (ok (_, chgs)) = (ok tt, record_changes n chgs m)
  keep n m (err e) = (err e, m)
  keep n m (throws x) = (throws x, m)

  -- the body of the loop over the updates for 'derive'
  unfoldable pub derive_one : Update → Exec Recorded (Unit {0})
  derive_one u m =
      if have_changes (name u) m
      then (ok tt, m)
      else keep (name u) (touch (name u) m) (maybe_add u (changes_for (name u) m))

  unfoldable pub derive : List Update → Exec Recorded (Unit {0})
  derive [] = pure tt
  derive (u ∷ us) = bind (derive_one u) (λ _. derive us)

  -- what stands behind the test for an error
  unfoldable pub record_all : docs.json.Doc → List Update → Exec Recorded (Unit {0})
  record_all out us = do
    _ ← reported out
    wanted ← lift (docs.bool_or out ("derive" ∷ []) false)
    if wanted then derive us else pure tt

  -- what is done given the error that the answer reports
  abbrev pub unless_failed : docs.json.Doc → List Update → Option String → Exec Recorded (Unit {0})
  unless_failed out us none = record_all out us
  unless_failed out us (some message) = lift (complain j ("update failed: " <> message))

  unfoldable pub take_answer : docs.json.Doc → List Update → Exec Recorded (Unit {0})
  take_answer out us = bind (lift (contains_error out)) (unless_failed out us)
