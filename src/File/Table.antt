-- ===== src/File/Table.antt =====
-- The table in the comment above `file_provider::set`, as a definition of its own, and that `set`
-- does what it says.
use libral.Base.{
  ℕ, zero, suc, String, Bool, true, false, Option, none, some, List, [], ◌∷◌, ◌++◌, Result, ok, err,
  throws, Exec, bind, continue, pure, fail, ◌==◌, if◌then◌else◌, ◌≡◌, ◌≢◌, refl, sym, ap, ◌∙◌,
  ==_false, Bool-cases, inl, inr, eq_iff, eq_refl, ne_of_==_false,
}
use mathlib.Core.Path.{fun_ext}
use libral.Base.Text.{◌<>◌}
use libral.Resource.{Update, name}
use libral.Provider.{Call}
use libral.File.Steps.{
  Files, remove, create_file, create_directory, update_metadata, update_content, update_target,
}
use libral.File.Set.{
  state_of, ensure_of, force_of, is_guarded, record_ensure, clear, bring_to, change_to, set_one,
}

-- The columns and rows of the table: the type that the file has, and the type that it is to have.
-- The last stands for every other word, which the table has no column or row for.
pub data Kind : Type 0 where
  absent file directory link : Kind
  other : String → Kind

abbrev pub word : Kind → String
word absent = "absent"
word file = "file"
word directory = "directory"
word link = "link"
word (other s) = s

unfoldable pub kind_of : String → Kind
kind_of s =
    if s == "absent"
    then absent
    else if s == "file"
    then file
    else if s == "directory"
    then directory
    else if s == "link"
    then link
    else other s

pub data Act : Type 0 where
  erase : Kind → Act
  note touch mkdir metadata content target refuse : Act

abbrev pub same : Kind → Kind → Bool
same absent absent = true
same file file = true
same directory directory = true
same link link = true
same (other s) (other t) = s == t
same _ _ = false

abbrev illegal : Kind → Bool → List Act × Option Kind
illegal state true = (refuse ∷ [], none)
illegal state false = (erase state ∷ [], some absent)

-- An entry: what is done, and the column at which the same row goes on. Where the table has no row,
-- what is to be is refused.
abbrev pub entry : Kind → Kind → List Act × Option Kind
entry absent absent = ([], none)
entry absent state = (erase state ∷ [], none)
entry file absent = (touch ∷ [], some file)
entry file file = (metadata ∷ content ∷ [], none)
entry file state = (erase state ∷ [], some absent)
entry directory absent = (mkdir ∷ [], some directory)
entry directory directory = (metadata ∷ [], none)
entry directory state = (erase state ∷ [], some absent)
entry link absent = ([], some link)
entry link link = (target ∷ metadata ∷ [], none)
entry link state = (erase state ∷ [], some absent)
entry (other s) absent = (refuse ∷ [], none)
entry (other s) state = illegal state (same (other s) state)

-- A row is followed through three columns at most.
abbrev pub follow : ℕ → Kind → Option Kind → List Act
follow zero ensure at = []
follow (suc n) ensure none = []
follow (suc n) ensure (some state) =
    let (acts, next) = entry ensure state in acts ++ follow n ensure next

-- The change of 'ensure' is recorded once the old file is gone.
abbrev pub noting : List Act → List Act
noting (erase k ∷ acts) = erase k ∷ note ∷ acts
noting acts = note ∷ acts

abbrev pub plan : Kind → Kind → List Act
plan ensure state =
    let acts = follow 3 ensure (some state) in
    elim (same ensure state) [ true ↦ acts | false ↦ noting acts ]

module _ {W : Type 0} (files : Files W) (u : Update) where
  abbrev pub act : Kind → Act → Exec (Call W) (Unit {0})
  act ensure (erase k) = remove files (name u) (word k) (force_of u)
  act ensure note = record_ensure u (word ensure) "absent"
  act ensure touch = create_file files (name u)
  act ensure mkdir = create_directory files (name u)
  act ensure metadata = update_metadata files u
  act ensure content = update_content files u
  act ensure target = update_target files u
  act ensure refuse = fail ("Illegal ensure value '" <> word ensure <> "'")

  -- The acts in order, up to the first that fails.
  abbrev pub perform : Kind → List Act → Exec (Call W) (Unit {0})
  perform ensure [] = pure tt
  perform ensure (a ∷ acts) = bind (act ensure a) (λ _. perform ensure acts)

  pub last_step : (m : Exec (Call W) (Unit {0})) → m ≡ bind m (λ _. pure tt)
  last_step m = fun_ext (λ c. ended (m c).0 (m c).1)
    where
      ended :
          (r : Result (Unit {0})) (c : Call W) → (r, c) ≡ continue {B = Unit {0}} r (λ _. pure tt) c
      ended (ok _) c = refl
      ended (err e) c = refl
      ended (throws x) c = refl

  -- A removal that leaves the file absent, the record of it, and what is done then.
  then_absent :
      (m n : Exec (Call W) (Unit {0})) (next : String → Exec (Call W) (Unit {0}))
      → bind (bind m (λ _. bind n (λ _. pure "absent"))) next
        ≡ bind m (λ _. bind n (λ _. next "absent"))
  then_absent m n next = fun_ext (λ c. removed (m c).0 (m c).1)
    where
      noted :
          (r : Result (Unit {0})) (c : Call W)
          → bind (continue {B = String} r (λ _. pure "absent")) next c
            ≡ continue {B = Unit {0}} r (λ _. next "absent") c
      noted (ok _) c = refl
      noted (err e) c = refl
      noted (throws x) c = refl

      removed :
          (r : Result (Unit {0})) (c : Call W)
          → bind (λ _. continue r (λ _. bind n (λ _. pure "absent")) c) next c
            ≡ continue {B = Unit {0}} r (λ _. bind n (λ _. next "absent")) c
      removed (ok _) c = noted (n c).0 (n c).1
      removed (err e) c = refl
      removed (throws x) c = refl

  -- The word of another type than those of the table.
  abbrev pub Foreign : Kind → Type 0
  Foreign (other s) = (s ≢ "absent") × (s ≢ "file") × (s ≢ "directory") × (s ≢ "link")
  Foreign _ = Unit

  bring-other :
      (s state : String)
      → Foreign (other s)
      → bring_to files u state s (force_of u) ≡ fail ("Illegal ensure value '" <> s <> "'")
  unfolding bring_to
  bring-other s state h =
      rw
        (
          ==_false s "file" h.1,
          ==_false s "directory" h.2,
          ==_false s "link" h.3,
          ==_false s "absent" h.0,
        )
        refl

  bring-absent :
      (ensure : Kind)
      → Foreign ensure
      → bring_to files u "absent" (word ensure) (force_of u)
        ≡ perform ensure (follow 2 ensure (some absent))
  unfolding bring_to remove
  bring-absent (other s) h =
      bring-other s "absent" h ∙ last_step (fail ("Illegal ensure value '" <> s <> "'"))
  bring-absent absent h = refl
  bring-absent file h =
      ap (λ k. bind (create_file files (name u)) (λ _. bind (update_metadata files u) (λ _. k)))
        (last_step (update_content files u))
  bring-absent directory h =
      ap (λ k. bind (create_directory files (name u)) (λ _. k))
        (last_step (update_metadata files u))
  bring-absent link h =
      ap (λ k. bind (update_target files u) (λ _. k)) (last_step (update_metadata files u))

  bring-same :
      (ensure : Kind)
      → Foreign ensure
      → bring_to files u (word ensure) (word ensure) (force_of u)
        ≡ perform ensure (follow 3 ensure (some ensure))
  unfolding bring_to remove
  bring-same (other s) h =
      bring-other s s h
      ∙ last_step (fail ("Illegal ensure value '" <> s <> "'"))
      ∙ ap
          (λ b.
            perform (other s)
              ((illegal (other s) b).0 ++ follow 2 (other s) (illegal (other s) b).1))
          (sym (eq_refl s))
  bring-same absent h = refl
  bring-same file h =
      ap (λ k. bind (update_metadata files u) (λ _. k)) (last_step (update_content files u))
  bring-same directory h = last_step (update_metadata files u)
  bring-same link h =
      ap (λ k. bind (update_target files u) (λ _. k)) (last_step (update_metadata files u))

  -- The old file is removed, the change of 'ensure' is recorded, and the column 'absent' follows.
  replaced :
      (state ensure : Kind)
      → Foreign ensure
      → bind
          (bind
            (remove files (name u) (word state) (force_of u))
            (λ _. bind (record_ensure u (word ensure) "absent") (λ _. pure "absent")))
          (λ left. bring_to files u left (word ensure) (force_of u))
        ≡ perform ensure (erase state ∷ note ∷ follow 2 ensure (some absent))
  replaced state ensure h =
      then_absent (remove files (name u) (word state) (force_of u))
        (record_ensure u (word ensure) "absent")
        (λ left. bring_to files u left (word ensure) (force_of u))
      ∙ ap (λ k. bind (act ensure (erase state)) (λ _. bind (act ensure note) (λ _. k)))
          (bring-absent ensure h)

  nothing_removed :
      (ensure : Kind) (acts : List Act) → perform ensure (erase absent ∷ acts) ≡ perform ensure acts
  unfolding remove
  nothing_removed ensure acts = refl

  -- A file of another type than it is to have.
  unlike :
      (state ensure : Kind)
      → Foreign ensure
      → (word state == word ensure) ≡ false
      → state_of u ≡ word state
      → ensure_of u ≡ word ensure
      → is_guarded (word state) (word ensure) (force_of u) ≡ false
      → set_one files u ≡ perform ensure (erase state ∷ note ∷ follow 2 ensure (some absent))
  unfolding set_one change_to clear
  unlike state ensure h d s e g = rw (s, e, g, d) (replaced state ensure h)

  -- the plan where the table has neither the column nor the row
  abbrev foreign_plan : String → String → Bool → List Act
  foreign_plan v t b =
      let acts = (illegal (other t) b).0 ++ follow 2 (other v) (illegal (other t) b).1 in
      elim b [ true ↦ acts | false ↦ noting acts ]

  foreign_plan_is : (v t : String) → plan (other v) (other t) ≡ foreign_plan v t (v == t)
  foreign_plan_is v t = refl

  illegal_kept :
      (v : String)
      → Foreign (other v)
      → state_of u ≡ v
      → ensure_of u ≡ v
      → is_guarded v v (force_of u) ≡ false
      → set_one files u ≡ perform (other v) (refuse ∷ [])
  unfolding set_one change_to clear
  illegal_kept v h s e g =
      rw (s, e, g, eq_refl v)
        (bring-other v v h ∙ last_step (fail ("Illegal ensure value '" <> v <> "'")))

  planned :
      (state ensure : Kind)
      → Foreign state
      → Foreign ensure
      → state_of u ≡ word state
      → ensure_of u ≡ word ensure
      → is_guarded (word state) (word ensure) (force_of u) ≡ false
      → set_one files u ≡ perform ensure (plan ensure state)
  unfolding set_one change_to clear
  planned absent absent fs fe s e g = rw (s, e, g) (bring-same absent tt)
  planned file file fs fe s e g = rw (s, e, g) (bring-same file tt)
  planned directory directory fs fe s e g = rw (s, e, g) (bring-same directory tt)
  planned link link fs fe s e g = rw (s, e, g) (bring-same link tt)
  planned absent file fs fe s e g =
      unlike absent file tt refl s e g ∙ nothing_removed file (plan file absent)
  planned absent directory fs fe s e g =
      unlike absent directory tt refl s e g ∙ nothing_removed directory (plan directory absent)
  planned absent link fs fe s e g =
      unlike absent link tt refl s e g ∙ nothing_removed link (plan link absent)
  planned file absent fs fe s e g = unlike file absent tt refl s e g
  planned file directory fs fe s e g = unlike file directory tt refl s e g
  planned file link fs fe s e g = unlike file link tt refl s e g
  planned directory absent fs fe s e g = unlike directory absent tt refl s e g
  planned directory file fs fe s e g = unlike directory file tt refl s e g
  planned directory link fs fe s e g = unlike directory link tt refl s e g
  planned link absent fs fe s e g = unlike link absent tt refl s e g
  planned link file fs fe s e g = unlike link file tt refl s e g
  planned link directory fs fe s e g = unlike link directory tt refl s e g
  planned absent (other t) fs fe s e g =
      unlike absent (other t) fe (==_false "absent" t (λ q. fe.0 (sym q))) s e g
      ∙ nothing_removed (other t) (plan (other t) absent)
  planned file (other t) fs fe s e g =
      unlike file (other t) fe (==_false "file" t (λ q. fe.1 (sym q))) s e g
  planned directory (other t) fs fe s e g =
      unlike directory (other t) fe (==_false "directory" t (λ q. fe.2 (sym q))) s e g
  planned link (other t) fs fe s e g =
      unlike link (other t) fe (==_false "link" t (λ q. fe.3 (sym q))) s e g
  planned (other t) absent fs fe s e g = unlike (other t) absent tt (==_false t "absent" fs.0) s e g
  planned (other t) file fs fe s e g = unlike (other t) file tt (==_false t "file" fs.1) s e g
  planned (other t) directory fs fe s e g =
      unlike (other t) directory tt (==_false t "directory" fs.2) s e g
  planned (other t) link fs fe s e g = unlike (other t) link tt (==_false t "link" fs.3) s e g
  planned (other t) (other v) fs fe s e g = elim (Bool-cases (v == t)) [
    | inl y ↦
        let s' : state_of u ≡ v = s ∙ sym ((eq_iff v t).0 y) in
        illegal_kept v fe s' e (rw (sym ((eq_iff v t).0 y)) at g)
        ∙ ap (perform (other v)) (sym (foreign_plan_is v t ∙ ap (foreign_plan v t) y))
    | inr n ↦
        unlike (other t) (other v) fe (==_false t v (λ q. ne_of_==_false v t n (sym q))) s e g
        ∙ ap (perform (other v)) (sym (foreign_plan_is v t ∙ ap (foreign_plan v t) n))
  ]

  -- What a word means in the table.
  pub kind_of_lem : (s : String) → (s ≡ word (kind_of s)) × Foreign (kind_of s)
  unfolding kind_of
  kind_of_lem s = elim (Bool-cases (s == "absent")) [
    | inl y ↦ rw y ((eq_iff s "absent").0 y, tt)
    | inr a ↦ rw a (elim (Bool-cases (s == "file")) [
      | inl y ↦ rw y ((eq_iff s "file").0 y, tt)
      | inr f ↦ rw f (elim (Bool-cases (s == "directory")) [
        | inl y ↦ rw y ((eq_iff s "directory").0 y, tt)
        | inr d ↦ rw d (elim (Bool-cases (s == "link")) [
          | inl y ↦ rw y ((eq_iff s "link").0 y, tt)
          | inr l ↦ rw l (
            refl,
            (
              ne_of_==_false s "absent" a,
              ne_of_==_false s "file" f,
              ne_of_==_false s "directory" d,
              ne_of_==_false s "link" l,
            ),
          )
        ])
      ])
    ])
  ]

  pub set_one-plan :
      (state_of u ≡ "directory" → ensure_of u ≡ "link" → ⊥)
      → is_guarded (state_of u) (ensure_of u) (force_of u) ≡ false
      → set_one files u
        ≡ perform (kind_of (ensure_of u)) (plan (kind_of (ensure_of u)) (kind_of (state_of u)))
  set_one-plan not_to_link g =
      let (s, fs) = kind_of_lem (state_of u) in
      let (e, fe) = kind_of_lem (ensure_of u) in
      planned (kind_of (state_of u)) (kind_of (ensure_of u)) fs fe s e (
        ap (λ w. is_guarded w (word (kind_of (ensure_of u))) (force_of u)) (sym s)
        ∙ ap (λ w. is_guarded (state_of u) w (force_of u)) (sym e)
        ∙ g)
