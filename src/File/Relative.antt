-- ===== src/File/Relative.antt =====
-- The names of the resources that are read of files, and what follows for `set`.
use libral.Base.{
  ℕ, String, Bool, false, ◌||◌, Option, none, some, List, [], ◌∷◌, ◌++◌, ◌==◌, ok, throws,
  >>=-eq-ok, traverse, traverse_cons, ◌≡◌, ◌≢◌, refl, arith, map, ◌∙◌, ==_false, filesystem_error,
  ap,
}
use libral.Value.{text}
use libral.Resource.{Resource, new, assign}
use libral.Resource.Laws.{name-assign}
use libral.Provider.Set.{pairs, updates_for, updates}
use libral.File.Load.{
  FileType, symlink_file, Stat, Reads, add_stat, add_target, load_there, load_status, load, get,
}

abbrev has : String → List String → Bool
has n [] = false
has n (m ∷ ms) = m == n || has n ms

module _ {W : Type 0} (fs : Reads W) where
  add_stat-name : (b : Option Stat) (r r' : Resource) → add_stat fs b r ≡ ok r' → r'.name ≡ r.name
  unfolding add_stat assign
  add_stat-name b r r' e = ground arith

  add_target-name :
      (path : String) (t : FileType) (w : W) (r r' : Resource)
      → add_target fs path t w r ≡ ok r'
      → r'.name ≡ r.name
  unfolding assign
  add_target-name path t w r r' e = ground arith

  load_there-name :
      (t : FileType) (perms : ℕ) (w : W) (r r' : Resource)
      → load_there fs t perms w r ≡ ok r'
      → r'.name ≡ r.name
  unfolding load_there
  load_there-name t perms w r r' e =
      let (r₁, e₁, f₁) = >>=-eq-ok (assign r "ensure" _) _ e in
      let (r₂, e₂, f₂) = >>=-eq-ok (assign r₁ "type" _) _ f₁ in
      let (r₃, e₃, f₃) = >>=-eq-ok (add_target fs r.name t w r₂) _ f₂ in
      let (r₄, e₄, f₄) = >>=-eq-ok (assign r₃ "mode" _) _ f₃ in
      let (mtime, _, f₅) = >>=-eq-ok (fs.last_write_time r.name w) _ f₄ in
      let (r₅, e₅, f₆) = >>=-eq-ok (assign r₄ "mtime" _) _ f₅ in
      let (r₆, e₆, f₇) = >>=-eq-ok (assign r₅ "checksum_value" _) _ f₆ in
      let (r₇, e₇, f₈) = >>=-eq-ok (assign r₆ "checksum" _) _ f₇ in
      add_stat-name (fs.lstat r.name w) r₇ r' f₈
      ∙ name-assign r₆ r₇ "checksum" _ e₇
      ∙ name-assign r₅ r₆ "checksum_value" _ e₆
      ∙ name-assign r₄ r₅ "mtime" _ e₅
      ∙ name-assign r₃ r₄ "mode" _ e₄
      ∙ add_target-name r.name t w r₂ r₃ e₃
      ∙ name-assign r₁ r₂ "type" _ e₂
      ∙ name-assign r r₁ "ensure" _ e₁

  load_status-name :
      (st : Option (FileType × ℕ)) (w : W) (r r' : Resource)
      → load_status fs st w r ≡ ok r'
      → r'.name ≡ r.name
  load_status-name none w r r' e = name-assign r r' "ensure" (text "absent") e
  load_status-name (some (t, perms)) w r r' e = load_there-name t perms w r r' e

  load-name : (w : W) (r r' : Resource) → load fs w r ≡ ok r' → r'.name ≡ r.name
  unfolding load
  load-name w r r' e = load_status-name (fs.symlink_status r.name w) w r r' e

  traverse-name :
      (names : List String) (w : W) (rs : List Resource)
      → traverse (λ n. load fs w (new (fs.absolute n w))) names ≡ ok rs
      → map (λ r. r.name) rs ≡ map (λ n. fs.absolute n w) names
  traverse-name [] w rs e = ap (map (λ (r : Resource). r.name)) {x = rs} {y = []} (cc)
  traverse-name (n ∷ ns) w rs e =
      let (y, rest, e₁, e₂, same) =
        traverse_cons (λ n. load fs w (new (fs.absolute n w))) n ns rs e in
      ap (map (λ (r : Resource). r.name)) same
      ∙ (ap (λ (m : String). m ∷ map (λ (r : Resource). r.name) rest)
            (load-name w (new (fs.absolute n w)) y e₁)
          ∙ ap (◌∷◌ (fs.absolute n w)) (traverse-name ns w rest e₂))

  -- The resources that are read have the absolute paths as their names, one for each name that was
  -- asked for, in order.
  pub get-name :
      (names : List String) (w : W) (rs : List Resource)
      → get fs names w ≡ ok rs
      → map (λ r. r.name) rs ≡ map (λ n. fs.absolute n w) names
  unfolding get
  get-name [] w rs e = ground arith
  get-name (n ∷ ns) w rs e = traverse-name (n ∷ ns) w rs e

  pairs_none :
      (should : Resource) (rs : List Resource)
      → has should.name (map (λ r. r.name) rs) ≡ false
      → pairs should rs ≡ []
  unfolding pairs
  pairs_none should [] h = refl
  pairs_none should (r ∷ rs) h = ground (arith, pairs_none should rs)

  updates_for_none :
      (should : Resource) (rs : List Resource)
      → pairs should rs ≡ []
      → updates_for should rs ≡ record { is = new should.name; should = should } ∷ []
  unfolding updates_for
  updates_for_none should rs e = ground (arith, e)

  -- For a file with a relative path `set` does not see the state that was read: the update that it
  -- makes has an empty resource in its place, as if the file had not been looked at.
  pub relative_unpaired :
      (should : Resource) (w : W) (rs : List Resource)
      → fs.absolute should.name w ≢ should.name
      → get fs (should.name ∷ []) w ≡ ok rs
      → updates (should ∷ []) rs ≡ record { is = new should.name; should = should } ∷ []
  unfolding updates
  relative_unpaired should w rs differs e =
      let found : has should.name (map (λ (r : Resource). r.name) rs) ≡ false =
        ap (has should.name) (get-name (should.name ∷ []) w rs e)
        ∙ rw (==_false (fs.absolute should.name w) should.name differs) refl in
      ap (λ us. us ++ []) (updates_for_none should rs (pairs_none should rs found))

  -- A symbolic link that can be read but whose target is gone, so that the time of its last write
  -- cannot be read, makes reading the resource throw.
  pub load_dangling :
      (w : W) (path target : String) (perms : ℕ)
      → fs.symlink_status path w ≡ some (symlink_file, perms)
      → fs.read_symlink path w ≡ ok target
      → fs.last_write_time path w ≡ throws filesystem_error
      → load fs w (new path) ≡ throws filesystem_error
  unfolding load load_there assign
  load_dangling w path target perms st link gone = rw (st, link, gone) refl
