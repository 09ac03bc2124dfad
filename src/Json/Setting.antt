-- ===== src/Json/Setting.antt =====
-- `json_provider::set` as a whole: which changes it leaves as they are.
use libral.Base.{String, List, ◌∷◌, [], Result, ok, err, throws, continue, ◌≡◌, ◌≢◌, refl, All}
use libral.Base.Dict.{Dict}
use libral.Resource.{Update, name}
use libral.Context.{changes_for}
use libral.Provider.{Call}
use libral.Command.{Target, Shell}
use libral.Json.Action.{Setup, run_action}
use libral.Json.Changes.{take_answer}
use libral.Json.Calls.{set, set_input, on_changes}
use libral.Json.Frame.{IsElsewhere, take_answer-Keeps}
use libral.Attr as Attr

module _ (j : Setup) (specs : Dict Attr.Spec) {W : Type 0} (tgt : Target W) (k : String) where
  open j use {docs}

  -- No entry of the 'changes' of an answer is about the resource.
  abbrev pub SaysNothing : docs.json.Doc → Type 0
  SaysNothing out =
      (ds : List docs.json.Doc)
      → docs.get_docs out ("changes" ∷ []) ≡ ok ds
      → All (IsElsewhere j specs k) ds

  answered :
      (us : List Update) (done : Result docs.json.Doc) (c : Call (Shell W))
      → ((out : docs.json.Doc) → done ≡ ok out → SaysNothing out)
      → All (λ u. name u ≢ k) us
      → changes_for k
          (continue done
            (λ out. on_changes j specs tgt out (take_answer j specs out us))
            c).1.recorded
        ≡ changes_for k c.recorded
  answered us (ok out) c h other = take_answer-Keeps j specs k out us (h out refl) other c.recorded
  answered us (err e) c h other = refl
  answered us (throws x) c h other = refl

  -- Whatever script is run and however `set` ends, also where the answer is refused halfway: if no
  -- update is about a resource, and no entry of the 'changes' that the script answers is, the changes
  -- that are recorded for that resource stay as they are.
  pub set_leaves_others :
      (us : List Update) (c : Call (Shell W))
      → ((out : docs.json.Doc)
          → (run_action j tgt "set" (set_input j specs us) c.world).0 ≡ ok out
          → SaysNothing out)
      → All (λ u. name u ≢ k) us
      → changes_for k (set j specs tgt us c).1.recorded ≡ changes_for k c.recorded
  unfolding set
  set_leaves_others us c h other = answered us _ _ h other
