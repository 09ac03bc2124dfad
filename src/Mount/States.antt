-- ===== src/Mount/States.antt =====
-- The resources that the mount provider reports.
use libral.Base.{String, Option, none, some, List, [], ◌∷◌, ok, >>=-elim, ◌≡◌, ◌∙◌, arith, All}
use mathlib.Core.Path.{subst}
use libral.Base.Dict.{Dict, find, put, insert}
use libral.Base.Dict.Laws.{All-put}
use libral.Value.{Value, text}
use libral.Resource.{Resource, new, assign}
use libral.Resource.Laws.{find-assign}
use libral.Mount.Tree.{Handle, read, extract}
use libral.Mount.Get.{values, make, file_of, read_fstab, mark, read_mtab, get}

-- The states of a mount.
pub data IsMountState : String → Type 0 where
  unmounted : IsMountState "unmounted"
  mounted : IsMountState "mounted"
  ghost : IsMountState "ghost"

-- The resource says in which state the mount is.
abbrev pub HasState : Resource → Type 0
HasState r = (s : String) × IsMountState s × (find "ensure" r.attrs ≡ some (text s))

assigned-HasState :
    (r r' : Resource) (s : String)
    → IsMountState s
    → assign r "ensure" (text s) ≡ ok r'
    → HasState r'
assigned-HasState r r' s is e = (s, is, find-assign r r' "ensure" "ensure" (text s) e)

kept-HasState :
    (r r' : Resource) (v : Value) → assign r "target" v ≡ ok r' → HasState r → HasState r'
kept-HasState r r' v e (s, is, there) = (s, is, find-assign r r' "target" "ensure" v e ∙ there)

-- The map holds such resources only.
abbrev AllStates : Dict Resource → Type 0
AllStates = All (λ e. HasState e.1)

insert-AllStates :
    (n : String) (r : Resource) (rs : Dict Resource)
    → HasState r
    → AllStates rs
    → AllStates (insert n r rs)
unfolding insert
insert-AllStates n r rs h a = ground (arith, All-put (λ e. HasState e.1) n r rs h a)

values-AllStates : (rs : Dict Resource) → AllStates rs → All HasState (values rs)
values-AllStates [] a = tt
values-AllStates ((k, r) ∷ rs) a = (a.0, values-AllStates rs a.1)

module _ {W : Type 0} (aug : Handle W) (w : W) where
  make-HasState :
      (n node ens : String)
      → IsMountState ens
      → (r : Resource) → make aug w n node ens ≡ ok r
      → HasState r
  unfolding make
  make-HasState n node ens is =
      >>=-elim HasState (extract aug node (new n) "device" "spec" none w) _ (λ r₁ _.
        >>=-elim HasState (extract aug node r₁ "fstype" "vfstype" none w) _ (λ r₂ _.
          >>=-elim HasState (extract aug node r₂ "options" "options" (some "defaults") w) _ (λ r₃ _.
            >>=-elim HasState (extract aug node r₃ "dump" "dump" (some "0") w) _ (λ r₄ _.
              >>=-elim HasState (extract aug node r₄ "pass" "passno" (some "0") w) _ (λ r₅ _.
                >>=-elim HasState (assign r₅ "ensure" (text ens)) _ (λ r₆ done r₇ last.
                  kept-HasState r₆ r₇ (text "/etc/fstab") last
                    (assigned-HasState r₅ r₆ ens is done)))))))

  read_fstab-AllStates :
      (nodes : List String) (rs : Dict Resource)
      → AllStates rs
      → (rs' : Dict Resource) → read_fstab aug w nodes rs ≡ ok rs'
      → AllStates rs'
  unfolding read_fstab
  read_fstab-AllStates [] rs a = λ rs' e. subst AllStates {x = rs} {y = rs'} (ground arith) a
  read_fstab-AllStates (node ∷ nodes) rs a =
      >>=-elim AllStates (read aug node "file" w) _ (λ found _.
        >>=-elim AllStates (file_of aug w found) _ (λ n _.
          >>=-elim AllStates (make aug w n node "unmounted") _ (λ r made.
            read_fstab-AllStates nodes (insert n r rs)
              (insert-AllStates n r rs (make-HasState n node "unmounted" unmounted r made) a))))

  mark-AllStates :
      (n node : String) (was : Option Resource) (rs : Dict Resource)
      → AllStates rs
      → (rs' : Dict Resource) → mark aug w n node was rs ≡ ok rs'
      → AllStates rs'
  unfolding mark
  mark-AllStates n node (some r) rs a =
      >>=-elim AllStates (assign r "ensure" (text "mounted")) _ (λ r' done rs' last.
        subst AllStates {x = put n r' rs} {y = rs'} (ground arith)
          (All-put (λ e. HasState e.1) n r' rs (assigned-HasState r r' "mounted" mounted done) a))
  mark-AllStates n node none rs a =
      >>=-elim AllStates (make aug w n node "ghost") _ (λ r made rs' last.
        subst AllStates {x = insert n r rs} {y = rs'} (ground arith)
          (insert-AllStates n r rs (make-HasState n node "ghost" ghost r made) a))

  read_mtab-AllStates :
      (nodes : List String) (rs : Dict Resource)
      → AllStates rs
      → (rs' : Dict Resource) → read_mtab aug w nodes rs ≡ ok rs'
      → AllStates rs'
  unfolding read_mtab
  read_mtab-AllStates [] rs a = λ rs' e. subst AllStates {x = rs} {y = rs'} (ground arith) a
  read_mtab-AllStates (node ∷ nodes) rs a =
      >>=-elim AllStates (read aug node "file" w) _ (λ found _.
        >>=-elim AllStates (file_of aug w found) _ (λ n _.
          >>=-elim AllStates (mark aug w n node (find n rs) rs) _ (λ rs₁ done.
            read_mtab-AllStates nodes rs₁ (mark-AllStates n node (find n rs) rs a rs₁ done))))

  -- Whatever the tree holds, each resource that `get` returns is 'unmounted', 'mounted' or 'ghost'.
  pub get-HasState : (rs : List Resource) → get aug w ≡ ok rs → All HasState rs
  unfolding get
  get-HasState =
      >>=-elim (All HasState) (aug.match_paths "/files/etc/fstab/*[label() != '#comment']" w) _
        (λ fstab _. >>=-elim (All HasState) (read_fstab aug w fstab []) _ (λ rs₁ first.
          >>=-elim (All HasState) (aug.match_paths "/files/etc/mtab/*[label() != '#comment']" w) _
            (λ mtab _. >>=-elim (All HasState) (read_mtab aug w mtab rs₁) _ (λ rs₂ second rs last.
              subst (All HasState) {x = values rs₂} {y = rs} (ground arith) (
                values-AllStates rs₂ (
                  read_mtab-AllStates mtab rs₁ (read_fstab-AllStates fstab [] tt rs₁ first) rs₂
                    second))))))
