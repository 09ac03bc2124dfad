-- ===== src/File/Content.antt =====
-- What a file holds once an update of it has succeeded.
use libral.Base.{
  String, true, Option, none, some, List, [], ◌∷◌, ◌==◌, Result, ok, err, Exec, bind-ok, ◌≡◌, ◌≢◌,
  refl, sym, ap, ◌∙◌, inl, inr, Bool-cases, Option-cases, eq_iff, ne_of_==_false,
}
use libral.Base.Text.{◌<>◌}
use libral.Resource.{Update, name, lookup_text}
use libral.Provider.{Call}
use libral.File.Steps.{Files, update_content, fill, compare_with, rewrite, opening}
use libral.File.Set.{state_of, ensure_of, force_of, is_guarded, change_to, set_one}
use libral.File.Table.{
  Kind, absent, file, directory, link, other, kind_of, Act, content, plan, act, perform, last_step,
  set_one-plan,
}

-- The act is the last one.
abbrev pub EndsWith : Act → List Act → Type 0
EndsWith a [] = ⊥
EndsWith a (b ∷ []) = b ≡ a
EndsWith a (b ∷ c ∷ acts) = EndsWith a (c ∷ acts)

failed : {e : String} → ◌≡◌ {A = Result (Unit {0})} (err e) (ok tt) → ⊥
failed h = cc

no_link : ◌≢◌ {A = String} "file" "link"
no_link = ne_of_==_false "file" "link" refl

module _ {W : Type 0} (files : Files W) (u : Update) where
  -- What is written to a file is read from it.
  abbrev pub ReadsBack : Type 0
  ReadsBack =
      (path text : String) (w w' : W)
      → files.write path text w ≡ some w'
      → files.read path w' ≡ some text

  opening-ok :
      (words : String) (call : W → Option W) (c : Call W) {done : Unit {0}}
      → (opening words call c).0 ≡ ok done
      → call c.world ≡ some (opening words call c).1.world
  unfolding opening
  opening-ok words call c h = elim (Option-cases (call c.world)) [
    | inl e ↦ absurd (failed (rw (e, opening) at h))
    | inr (w, e) ↦ rw (e, opening) refl
  ]

  rewrite-read :
      (t now : String) (c c' : Call W)
      → ReadsBack
      → files.read (name u) c.world ≡ some now
      → rewrite files u t now c ≡ (ok tt, c')
      → files.read (name u) c'.world ≡ some t
  unfolding rewrite opening
  rewrite-read t now c c' back found h = elim (Bool-cases (now == t)) [
    | inl y ↦
        let same : c ≡ c' = ap (λ (r : Result (Unit {0}) × Call W). r.1) (rw y at h) in
        ap (λ (d : Call W). files.read (name u) d.world) (sym same)
        ∙ found
        ∙ ap some ((eq_iff now t).0 y)
    | inr n ↦
        let words = "Could not create file '" <> name u <> "'" in
        let (_, opened, rest) =
          bind-ok (opening words (files.write (name u) t)) _ c c' (rw n at h) in
        ap (λ (r : Result (Unit {0}) × Call W). files.read (name u) r.1.world) (sym rest)
        ∙ back (name u) t c.world _ (opening-ok words (files.write (name u) t) c opened)
  ]

  compare_with-read :
      (t : String) (found : Option String) (c c' : Call W)
      → ReadsBack
      → files.read (name u) c.world ≡ found
      → compare_with files u t found c ≡ (ok tt, c')
      → files.read (name u) c'.world ≡ some t
  unfolding compare_with
  compare_with-read t none c c' back e h = cc
  compare_with-read t (some now) c c' back e h = rewrite-read t now c c' back e h

  update_content-read :
      (t : String) (c c' : Call W)
      → ReadsBack
      → lookup_text u.should "content" ≡ some t
      → update_content files u c ≡ (ok tt, c')
      → files.read (name u) c'.world ≡ some t
  unfolding update_content fill
  update_content-read t c c' back asked h =
      compare_with-read t (files.read (name u) c.world) c c' back refl
        (ap (λ o. fill files u o c) (sym asked) ∙ h)

  last_act :
      (ensure : Kind) (a : Act) (acts : List Act) (c c' : Call W)
      → EndsWith a acts
      → perform files u ensure acts c ≡ (ok tt, c')
      → (before : Call W) × (act files u ensure a before ≡ (ok tt, c'))
  last_act ensure a [] c c' ends h = elim ends [ ]
  last_act ensure a (b ∷ []) c c' ends h = (
    c,
    ap (λ x. act files u ensure x c) (sym ends)
        ∙ ap (λ (m : Exec (Call W) (Unit {0})). m c) (last_step files u (act files u ensure b))
        ∙ h,
  )
  last_act ensure a (b ∷ d ∷ acts) c c' ends h =
      let (_, _, rest) =
        bind-ok (act files u ensure b) (λ _. perform files u ensure (d ∷ acts)) c c' h in
      last_act ensure a (d ∷ acts) _ c' ends rest

  plan-EndsWith : (state : Kind) → EndsWith content (plan file state)
  plan-EndsWith absent = refl
  plan-EndsWith file = refl
  plan-EndsWith directory = refl
  plan-EndsWith link = refl
  plan-EndsWith (other s) = refl

  kind_of-file : kind_of "file" ≡ file
  unfolding kind_of
  kind_of-file = refl

  guarded_fails :
      (c c' : Call W)
      → is_guarded (state_of u) (ensure_of u) (force_of u) ≡ true
      → set_one files u c ≡ (ok tt, c')
      → ⊥
  unfolding set_one change_to
  guarded_fails c c' g h = failed (ap (λ (r : Result (Unit {0}) × Call W). r.0) (rw g at h))

  -- On a file system that reads back what is written: whatever was there, or nothing, if the update of
  -- a file that is to be there with a text succeeds, the file has that text.
  pub set_one-read :
      (t : String) (c c' : Call W)
      → ReadsBack
      → ensure_of u ≡ "file"
      → lookup_text u.should "content" ≡ some t
      → set_one files u c ≡ (ok tt, c')
      → files.read (name u) c'.world ≡ some t
  set_one-read t c c' back e asked h =
      elim (Bool-cases (is_guarded (state_of u) (ensure_of u) (force_of u))) [
        | inl g ↦ absurd (guarded_fails c c' g h)
        | inr g ↦
            let was : Kind = kind_of (state_of u) in
            let to_file : kind_of (ensure_of u) ≡ file = ap kind_of e ∙ kind_of-file in
            let done : perform files u file (plan file was) c ≡ (ok tt, c') =
              ap (λ k. perform files u k (plan k was) c) (sym to_file)
              ∙ ap (λ (m : Exec (Call W) (Unit {0})). m c)
                  (sym (set_one-plan files u (λ _ l. no_link (sym e ∙ l)) g))
              ∙ h in
            let (before, last) =
              last_act file content (plan file was) c c' (plan-EndsWith was) done in
            update_content-read t before c' back asked last
      ]
