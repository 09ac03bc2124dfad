-- ===== src/Examples/Hosts.antt =====
-- Hosts, and the directories with providers, at concrete inputs.
use libral.Base.{
  ℕ, zero, suc, String, ap, sym, ◌≢◌, true, none, some, [], ok, ◌≡◌, ◌<◌, refl, arith, is_ok,
}
use libral.Base.Text.{split, size}
use libral.Augeas.Tree.{Library, Tree, check_error, match_paths, rm, make_node_seq_next}
use libral.Augeas.Fresh.{done, removing, make_node_seq_next-apart}
use text.Mathlib.TextLemmas.{nil≢cons, tail-eq_of_cons-eq}
use Prim.Native.String.{◌∷◌ as cons}
use libral.Augeas.Saving.{save, save_clean}
use libral.Ral.Environment.{dir_words, npos}
use libral.Ral.Directories.{dir_words-split}

paths_short : size "/opt/ral:/usr/share/ral" < npos
unfolding size
paths_short = omega arith

dir_words-split_example :
    dir_words (suc (size "/opt/ral:/usr/share/ral")) "/opt/ral:/usr/share/ral" 0
    ≡ some (split b':' "/opt/ral:/usr/share/ral")
dir_words-split_example = dir_words-split "/opt/ral:/usr/share/ral" paths_short

-- A tree that saves without an error.
abbrev quiet : Library ℕ
quiet = record {
  transform = λ lens glob a. a;
  reader = λ a. a;
  writer = λ a. suc a;
  match_paths = λ path a. ([], a);
  set = λ path value a. a;
  rm = λ path a. a;
  get = λ path a. (none, a);
  error = λ a. none;
  number = λ n. "1";
}

abbrev loaded : Tree ℕ
loaded = record { aug = 0; seq = 0 }

quiet_saved : is_ok (save quiet (λ path. path) loaded).0 ≡ true
unfolding save libral.Augeas.Saving.outcome check_error match_paths
quiet_saved = refl

save_clean_example :
    (check_error quiet 1 ≡ ok tt)
    × (match_paths quiet "/augeas/files//error" (record loaded { aug = 1 }) ≡ ok [])
unfolding save
save_clean_example = save_clean quiet (λ path. path) loaded quiet_saved

-- A number as so many strokes.
abbrev strokes : ℕ → String
strokes zero = ""
strokes (suc n) = cons "1" (strokes n)

strokes_differ : (m n : ℕ) → strokes m ≡ strokes n → m ≡ n
strokes_differ zero zero h = refl
strokes_differ zero (suc n) h = absurd (nil≢cons h)
strokes_differ (suc m) zero h = absurd (nil≢cons (sym h))
strokes_differ (suc m) (suc n) h = ap suc (strokes_differ m n (tail-eq_of_cons-eq h))

abbrev counted : Library ℕ
counted = record quiet { number = strokes }

-- The tree behind a first node, which is removed again.
abbrev removed : Tree ℕ
removed =
    (rm counted "/files/etc/hosts/01" (make_node_seq_next counted "/files/etc/hosts" loaded).1).1

make_node_seq_next-apart_example :
    (p : String) × (q : String) × ((make_node_seq_next counted "/files/etc/hosts" loaded).0 ≡ ok p)
    × ((make_node_seq_next counted "/files/etc/hosts" removed).0 ≡ ok q)
    × (p ≢ q)
unfolding make_node_seq_next rm
make_node_seq_next-apart_example =
    make_node_seq_next-apart counted (λ path. path) (λ m n _ _ e. strokes_differ m n e)
      "/files/etc/hosts" loaded removed (removing "/files/etc/hosts/01" done) (omega arith)
      (omega arith)
