-- ===== src/Host/Laws.antt =====
-- What `get` returns for /etc/hosts, and what removing an entry does.
use libral.Base.{
  String, true, none, some, Option, List, [], ◌∷◌, ◌++◌, ok, err, throws, logic_error, >>=-eq-ok,
  ◌≡◌, refl, arith, All, All-append, ◌⊎◌, inl, inr, Bool-cases, ◌∙◌,
}
use mathlib.Core.Path.{subst}
use libral.Base.Dict.{find}
use libral.Value.{text}
use libral.Resource.{Resource, Update, new, assign}
use libral.Resource.Laws.{find-assign}
use libral.Context.{has_resource}
use libral.Context.Absent.{add_absent_lem, add_absent-covers, missing, absent}
use libral.Mount.Tree.{Handle, read, extract, extract_array}
use libral.Host.Entries.{base, make, make_named, read_entries, get, remove}

-- The resource is present, or absent.
abbrev pub HasState : Resource → Type 0
HasState r =
    (find "ensure" r.attrs ≡ some (text "present")) ⊎ (find "ensure" r.attrs ≡ some (text "absent"))

missing-HasState : (ns : List String) (rs : List Resource) → All HasState (missing rs ns)
unfolding missing find
missing-HasState [] rs = tt
missing-HasState (n ∷ ns) rs = elim (Bool-cases (has_resource n rs)) [
  | inl there ↦ rw (All, missing, there) (missing-HasState ns rs)
  | inr gone ↦ rw (All, missing, gone) (inr refl, missing-HasState ns (rs ++ (absent n ∷ [])))
]

module _ {W : Type 0} (aug : Handle W) where
  make-HasState :
      (n node : String) (w : W) (r : Resource) → make aug n node "present" w ≡ ok r → HasState r
  unfolding make
  make-HasState n node w r e =
      let (r₁, _, f₁) = >>=-eq-ok (extract aug node (new n) "ip" "ipaddr" none w) _ e in
      let (r₂, _, f₂) = >>=-eq-ok (extract_array aug node r₁ "host_aliases" "alias" w) _ f₁ in
      let (r₃, _, f₃) = >>=-eq-ok (extract aug node r₂ "comment" "#comment" none w) _ f₂ in
      let (r₄, e₄, e₅) = >>=-eq-ok (assign r₃ "ensure" (text "present")) _ f₃ in
      inl (
        find-assign r₄ r "target" "ensure" (text "/etc/hosts") e₅
        ∙ find-assign r₃ r₄ "ensure" "ensure" (text "present") e₄)

  make_named-HasState :
      (node : String) (n : Option String) (w : W) (r : Resource)
      → make_named aug node n w ≡ ok r
      → HasState r
  make_named-HasState node none w r e = ground arith
  make_named-HasState node (some n) w r e = make-HasState n node w r e

  read_entries-HasState :
      (nodes : List String) (w : W) (rs : List Resource)
      → read_entries aug nodes w ≡ ok rs
      → All HasState rs
  unfolding read_entries
  read_entries-HasState [] w rs e = subst (All HasState) {x = []} {y = rs} (cc) tt
  read_entries-HasState (node ∷ nodes) w rs e =
      let (n, _, f₁) = >>=-eq-ok (read aug node "canonical" w) _ e in
      let (r, e₂, f₂) = >>=-eq-ok (make_named aug node n w) _ f₁ in
      let (rest, e₃, f₃) = >>=-eq-ok (read_entries aug nodes w) _ f₂ in
      subst (All HasState) {x = r ∷ rest} {y = rs} (cc)
        (make_named-HasState node n w r e₂, read_entries-HasState nodes w rest e₃)

  -- When the hosts can be read, each resource is present or absent, and every name that was asked for
  -- has one.
  pub hosts_settled :
      (names : List String) (w : W) (rs : List Resource)
      → get aug names w ≡ ok rs
      → All HasState rs × All (λ n. has_resource n rs ≡ true) names
  unfolding get
  hosts_settled names w rs e =
      let (nodes, _, f₁) =
        >>=-eq-ok (aug.match_paths "/files/etc/hosts/*[label() != '#comment']" w) _ e in
      let (read, e₂, f₂) = >>=-eq-ok (read_entries aug nodes w) _ f₁ in
      (
        subst (All HasState) {x = read ++ missing read names} {y = rs}
            (cc (add_absent_lem names read))
            (All-append HasState read (missing read names) (read_entries-HasState nodes w read e₂)
              (missing-HasState names read)),
        add_absent-covers names read rs f₂,
      )

  -- Where an entry that is to go away cannot be found for an error, say because there are several of
  -- the name, the error is not returned: the removal throws.
  pub remove_throws :
      (u : Update) (w w' : W) (e : String)
      → base aug u w ≡ (err e, w')
      → remove aug u w ≡ (throws logic_error, w')
  unfolding remove
  remove_throws u w w' e h = rw h refl
