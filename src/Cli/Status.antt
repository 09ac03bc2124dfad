-- ===== src/Cli/Status.antt =====
-- The exit status of `ralsh`.
use libral.Base.{
  ℕ, String, Bool, true, false, Option, none, some, List, [], ◌∷◌, if◌then◌else◌, Result, ok, err,
  throws, continue, ◌≡◌, ◌≤◌, refl, arith, is_empty, Bool-cases, inl, inr, ap,
}
use libral.Resource.{Resource, Update}
use libral.Context.{Changes}
use libral.Provider.{Provider, create}
use libral.Provider as Provider
use libral.Provider.Find.{find}
use libral.Provider.Set.{set}
use libral.Emitter.Console.{Line, Emitter, Loaded}
use libral.Cli.Arguments.{read_args}
use libral.Cli.Main.{
  Options, Found, Library, Screen, complaint, ending, after_set, set_should, modify,
  counts_as_missing, exit_for, after_find, show_one, after_list, show_all, with_provider,
  without_type, dispatch, connected, connect_first, main, with_name, with_type, with_target,
}

-- A status that is documented: 0, 1 or 2, and 1 only where `Q` holds. Where no status is returned
-- there is nothing to hold.
abbrev pub IsExit : Type 0 → Result ℕ → Type 0
IsExit Q (ok n) = (n ≤ 2) × (n ≡ 1 → Q)
IsExit Q (err e) = Unit
IsExit Q (throws x) = Unit

abbrev pub is_some {ℓ} : {A : Type ℓ} → Option A → Bool
is_some none = false
is_some (some a) = true

-- The command line asks for one resource: it has a type and a name and no attributes.
abbrev pub IsQuery : Options → Type 0
IsQuery o = (is_some o.type ≡ true) × (is_some o.name ≡ true) × (is_empty o.attr_values ≡ true)

module _ {W : Type 0} (lib : Library W) (em : Emitter) (explained : Loaded → List Line) where
  -- An argument that the provider refuses ends `ralsh TYPE NAME ATTRIBUTE=VALUE ...` with code 2
  -- before anything is changed: the system is as it was.
  pub modify_refused :
      (f : Found W) (n : String) (av : List String) (s : Screen W) (e : String)
      → read_args f.provider complaint av (create n) ≡ err e
      → ((modify lib em explained f n av s).0 ≡ ok 2)
        × ((modify lib em explained f n av s).1.world ≡ s.world)
  unfolding modify
  modify_refused f n av s e h = rw h (refl, refl)

  module _ (Q : Type 0) where
    pub continue-IsExit :
        {A : Type 0} (done : Result A) (next : A → Screen W → Result ℕ × Screen W) (s : Screen W)
        → ((a : A) (s' : Screen W) → IsExit Q (next a s').0)
        → IsExit Q (continue done next s).0
    continue-IsExit (ok a) next s h = h a s
    continue-IsExit (err e) next s h = tt
    continue-IsExit (throws x) next s h = tt

    if-IsExit :
        (b : Bool) (x y : Result ℕ × Screen W)
        → (b ≡ true → IsExit Q x.0)
        → (b ≡ false → IsExit Q y.0)
        → IsExit Q (if b then x else y).0
    if-IsExit true x y h g = h refl
    if-IsExit false x y h g = g refl

    pub failing : IsExit Q (ok 2)
    failing = (omega arith, λ h. ground (arith, h))

    pub passing : IsExit Q (ok 0)
    passing = (omega arith, λ h. ground (arith, h))

    ending-IsExit : (s : Screen W) → IsExit Q (ending lib em explained s).0
    unfolding ending
    ending-IsExit s = elim (Bool-cases (lib.logged s.world)) [
      | inl e ↦ rw e (omega arith, λ h. ground (arith, h))
      | inr e ↦ rw e (omega arith, λ h. ground (arith, h))
    ]

    after_set-IsExit :
        (p : Loaded) (r : Result (List (Update × Changes))) (s : Screen W)
        → IsExit Q (after_set lib em explained p r s).0
    after_set-IsExit p (throws x) s = tt
    after_set-IsExit p (ok pairs) s =
        continue-IsExit (em.print_set p (ok pairs) s.console).0 (λ _ s'. ending lib em explained s')
          _ (λ _ s'. ending-IsExit s')
    after_set-IsExit p (err e) s =
        continue-IsExit (em.print_set p (err e) s.console).0 (λ _ s'. (ok 2, s')) _
          (λ _ s'. failing)

    set_should-IsExit :
        (f : Found W) (r : Result Resource) (s : Screen W)
        → IsExit Q (set_should lib em explained f r s).0
    set_should-IsExit f (ok should) s =
        after_set-IsExit f.loaded (set f.provider (should ∷ []) s.world).0
          (record s { world = (set f.provider (should ∷ []) s.world).1 })
    set_should-IsExit f (err e) s = failing
    set_should-IsExit f (throws x) s = tt

    modify-IsExit :
        (f : Found W) (n : String) (av : List String) (s : Screen W)
        → IsExit Q (modify lib em explained f n av s).0
    unfolding modify
    modify-IsExit f n av s = set_should-IsExit f (read_args f.provider complaint av (create n)) s

    after_list-IsExit :
        (r : Result (List Resource)) (s : Screen W) → IsExit Q (after_list lib em explained r s).0
    after_list-IsExit (ok rs) s = ending-IsExit s
    after_list-IsExit (err e) s = failing
    after_list-IsExit (throws x) s = tt

    show_all-IsExit : (f : Found W) (s : Screen W) → IsExit Q (show_all lib em explained f s).0
    unfolding show_all
    show_all-IsExit f s = after_list-IsExit (Provider.get f.provider [] s.world).0 _

    without_type-IsExit :
        (o : Options) (s : Screen W) → IsExit Q (without_type lib em explained o s).0
    unfolding without_type
    without_type-IsExit o s = if-IsExit o.explain _ _ (λ _. failing) (λ _. ending-IsExit _)

    exit_for-IsExit :
        Q → (r : Result Bool) (s : Screen W) → IsExit Q (exit_for lib em explained r s).0
    exit_for-IsExit q (ok true) s = (omega arith, λ h. q)
    exit_for-IsExit q (ok false) s = ending-IsExit s
    exit_for-IsExit q (err e) s = tt
    exit_for-IsExit q (throws x) s = tt

    after_find-IsExit :
        Q
        → (absent : Bool) (r : Result (Option Resource)) (s : Screen W)
        → IsExit Q (after_find lib em explained absent r s).0
    after_find-IsExit q absent (ok none) s = (omega arith, λ h. q)
    after_find-IsExit q absent (ok (some r)) s =
        exit_for-IsExit q (counts_as_missing lib em explained absent r) s
    after_find-IsExit q absent (err e) s = failing
    after_find-IsExit q absent (throws x) s = tt

    show_one-IsExit :
        Q
        → (f : Found W) (n : String) (absent : Bool) (s : Screen W)
        → IsExit Q (show_one lib em explained f n absent s).0
    unfolding show_one
    show_one-IsExit q f n absent s = after_find-IsExit q absent (find f.provider n s.world).0 _

  module _ (o : Options) where
    with_name-IsExit :
        (f : Found W) (n : Option String) (s : Screen W)
        → o.name ≡ n
        → is_some o.type ≡ true
        → IsExit (IsQuery o) (with_name lib em explained o f n s).0
    with_name-IsExit f none s h typed = show_all-IsExit (IsQuery o) f s
    with_name-IsExit f (some n) s h typed =
        if-IsExit (IsQuery o) (is_empty o.attr_values) _ _
          (λ e. show_one-IsExit (IsQuery o) (typed, ap is_some h, e) f n o.absent s)
          (λ _. modify-IsExit (IsQuery o) f n o.attr_values s)

    with_provider-IsExit :
        (t : String) (found : Option (Found W)) (s : Screen W)
        → is_some o.type ≡ true
        → IsExit (IsQuery o) (with_provider lib em explained o t found s).0
    unfolding with_provider
    with_provider-IsExit t none s typed = failing (IsQuery o)
    with_provider-IsExit t (some f) s typed =
        if-IsExit (IsQuery o) o.explain _ _ (λ _. passing (IsQuery o))
          (λ _. with_name-IsExit f o.name s refl typed)

    with_type-IsExit :
        (t : Option String) (s : Screen W)
        → o.type ≡ t
        → IsExit (IsQuery o) (with_type lib em explained o t s).0
    with_type-IsExit none s h = without_type-IsExit (IsQuery o) o s
    with_type-IsExit (some t) s h =
        with_provider-IsExit t (lib.find_provider t s.world).0 _ (ap is_some h)

    dispatch-IsExit : (s : Screen W) → IsExit (IsQuery o) (dispatch lib em explained o s).0
    unfolding dispatch
    dispatch-IsExit s = with_type-IsExit o.type s refl

    connected-IsExit :
        (t : String) (r : Result (Unit {0})) (w : W) (s : Screen W)
        → IsExit (IsQuery o) (connected lib em explained o t (r, w) s).0
    connected-IsExit t (ok _) w s = dispatch-IsExit (record s { world = w })
    connected-IsExit t (err e) w s = failing (IsQuery o)
    connected-IsExit t (throws x) w s = tt

    with_target-IsExit :
        (t : Option String) (s : Screen W)
        → IsExit (IsQuery o) (with_target lib em explained o t s).0
    with_target-IsExit none s = dispatch-IsExit s
    with_target-IsExit (some t) s =
        connected-IsExit t (lib.connect t o.sudo o.keep s.world).0
          (lib.connect t o.sudo o.keep s.world).1 s

    -- For every command line that can be parsed: where `ralsh` ends with a status, it is 0, 1 or 2,
    -- and it is 1 only if the command line has a type and a name and no attributes.
    pub main-IsExit :
        (version : String) (s : Screen W) → IsExit (IsQuery o) (main lib em explained version o s).0
    unfolding main connect_first
    main-IsExit version s =
        if-IsExit (IsQuery o) o.version _ _ (λ _. passing (IsQuery o))
          (λ _. with_target-IsExit o.target _)
