-- ===== src/Examples/Scripts.antt =====
-- Scripts of simple providers at concrete inputs.
use libral.Base.{
  ℕ, String, Bool, true, false, not, List, [], ◌∷◌, ◌++◌, ◌==◌, Result, ok, err, Exec, ◌≡◌, ◌≢◌,
  refl, arith, eq_iff, suc, map, All,
}
use libral.Base.Text.{◌<>◌, trim}
use libral.Provider.{fresh}
use libral.Simple.Protocol.{Script, run_action}
use libral.Simple.Calls.{instances}
use libral.Simple.Lines.{line}
use libral.Simple.Listing.{Listed, IsListed, listing, listed, instances-listing}
use libral.Simple.Errors.{run_action_reported, run_action_lost}

ne : (a b : String) → (a == b) ≡ false → a ≢ b
ne a b h = ground (arith, eq_iff a b)

-- A script that counts its runs and prints the same each time.
abbrev printing : List String → Bool → Script ℕ
printing out good = record {
  path = "/usr/share/libral/demo.prov";
  run = λ args n. (record { lines = out; success = good }, suc n);
}

-- Two packages, as a script lists them.
abbrev packages : List Listed
packages =
    record { name = "gcc"; entries = ("ensure", "4.8") ∷ ("arch", "x86:64") ∷ [] }
    ∷ record { name = "vim"; entries = [] }
    ∷ []

abbrev listing_script : Script ℕ
listing_script = printing ("# simple" ∷ listing packages) true

packages-IsListed : All IsListed packages
unfolding libral.Base.Text.trim libral.Base.Text.all_chars
packages-IsListed = (
  record {
    name_trimmed = refl;
    each = (
      record {
        no_colon = refl;
        no_error = ne "ensure" "ral_error" refl;
        no_name = ne "ensure" "name" refl;
        trimmed = refl;
      },
      (
        record {
          no_colon = refl;
          no_error = ne "arch" "ral_error" refl;
          no_name = ne "arch" "name" refl;
          trimmed = refl;
        },
        tt,
      ),
    );
  },
  (record { name_trimmed = refl; each = tt }, tt),
)

instances-listing_example :
    instances listing_script (fresh 0) ≡ (ok (map listed packages), record (fresh 0) { world = 1 })
instances-listing_example =
    instances-listing listing_script packages (fresh 0) 1 packages-IsListed refl

abbrev ignore : String → String → Exec ℕ (Unit {0})
ignore key value n = (ok tt, n)

bad_trimmed : trim "bad" ≡ "bad"
unfolding trim
bad_trimmed = refl

not_eom : All {A = String} (λ l. l ≢ "ral_eom") ("more" ∷ [])
not_eom = (ne "more" "ral_eom" refl, tt)

run_action_reported_example :
    run_action
      (printing ("# simple" ∷ line "ral_error" "bad" ∷ "more" ∷ "ral_eom" ∷ "name: x" ∷ []) true)
      "get"
      ignore
      ("name=x" ∷ [])
      0
      0
    ≡ (err "badmore", 0, 1)
run_action_reported_example =
    run_action_reported ignore
      (printing ("# simple" ∷ line "ral_error" "bad" ∷ "more" ∷ "ral_eom" ∷ "name: x" ∷ []) true)
      "get" ("name=x" ∷ []) 0 0 1 "bad" ("more" ∷ []) ("name: x" ∷ []) true bad_trimmed not_eom refl

run_action_lost_example :
    run_action
      (printing ("# simple" ∷ line "ral_error" "bad" ∷ "more" ∷ []) true)
      "get"
      ignore
      ("name=x" ∷ [])
      0
      0
    ≡ (ok tt, 0, 1)
run_action_lost_example =
    run_action_lost ignore (printing ("# simple" ∷ line "ral_error" "bad" ∷ "more" ∷ []) true) "get"
      ("name=x" ∷ []) 0 0 1 "bad" ("more" ∷ []) bad_trimmed not_eom refl
