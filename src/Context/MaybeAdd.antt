-- ===== src/Context/MaybeAdd.antt =====
-- `maybe_add`: every difference is recorded, and only differences are.
use libral.Base.{
  Bool, true, false, not, ◌++◌, ◌≡◌, ◌≢◌, ◌⊎◌, inl, inr, ok, arith, eq_refl, Bool-cases, All,
  is_empty,
}
use libral.Value.{text, value_eq}
use libral.Resource.{Update}
use libral.Resource.Laws.{value_at, current_lem}
use libral.Context.Record.{Changes, exists, add_ensure, maybe_add}
use libral.Context.Laws.{add_attr_lem, ensure-ne-name, ensure_of}
use libral.Context.Missing.{
  Settled, IsAsked, one, exists_one, add_all_missing-Settled, add_all_missing-Appends,
  Settled-add_all_missing,
}

module _ (u : Update) (chgs : Changes) (b : Bool) (c' : Changes) where
  -- If the resource is not to go away and `maybe_add` succeeds, it leaves no attribute of the
  -- desired state that differs from the current state and has no change recorded.
  pub maybe_add-Settled :
      value_eq (ensure_of u) (text "absent") ≡ false
      → maybe_add u chgs ≡ ok (b, c')
      → All (Settled u c') u.should.attrs
  unfolding maybe_add
  maybe_add-Settled stays e =
      add_all_missing-Settled u u.should.attrs chgs b c'
        (ground (arith, current_lem u "ensure" ensure-ne-name))

  -- If the resource is not to go away and `maybe_add` succeeds, it keeps the changes that are
  -- recorded and adds only changes from the current to the desired value of an attribute where
  -- the two differ. It returns true exactly when it adds one.
  pub maybe_add-Appends :
      value_eq (ensure_of u) (text "absent") ≡ false
      → maybe_add u chgs ≡ ok (b, c')
      → (new : Changes) × (c' ≡ chgs ++ new)
        × All (IsAsked u u.should.attrs) new
        × (b ≡ not (is_empty new))
  unfolding maybe_add
  maybe_add-Appends stays e =
      add_all_missing-Appends u u.should.attrs chgs b c'
        (ground (arith, current_lem u "ensure" ensure-ne-name))

  -- If the resource is to go away and `maybe_add` succeeds, it adds at most a change of `ensure`,
  -- none where one is recorded already, and returns true exactly when it adds it.
  pub maybe_add_absent :
      value_eq (ensure_of u) (text "absent") ≡ true
      → maybe_add u chgs ≡ ok (b, c')
      → ((b ≡ false) × (c' ≡ chgs))
        ⊎ ((b ≡ true)
            × (exists "ensure" chgs ≡ false)
            × (c' ≡ chgs ++ one u "ensure" (value_at u.should "ensure") chgs))
  unfolding maybe_add add_ensure
  maybe_add_absent goes e =
      ground
        (arith, current_lem u "ensure" ensure-ne-name, add_attr_lem "ensure" u chgs ensure-ne-name)

  absent_twice :
      value_eq (ensure_of u) (text "absent") ≡ true
      → maybe_add u chgs ≡ ok (b, c')
      → ((b ≡ false) × (c' ≡ chgs))
        ⊎ ((b ≡ true)
            × (exists "ensure" chgs ≡ false)
            × (c' ≡ chgs ++ one u "ensure" (value_at u.should "ensure") chgs))
      → maybe_add u c' ≡ ok (false, c')
  absent_twice goes e (inl (none_new, same)) = cc
  absent_twice goes e (inr (_, _, added)) =
      unfold maybe_add add_ensure in
      rw (current_lem u "ensure" ensure-ne-name, goes)
        (ground (
          arith,
          exists_one u "ensure" (value_at u.should "ensure") chgs "ensure",
          eq_refl "ensure",
        ))

  -- Where no desired attribute is called "name" and `maybe_add` succeeds, recording the changes
  -- of the update a second time succeeds too, adds nothing and returns false.
  maybe_add_twice :
      All (λ e. e.0 ≢ "name") u.should.attrs
      → maybe_add u chgs ≡ ok (b, c')
      → maybe_add u c' ≡ ok (false, c')
  maybe_add_twice names e = elim (Bool-cases (value_eq (ensure_of u) (text "absent"))) [
    | inl goes ↦ absent_twice goes e (maybe_add_absent goes e)
    | inr stays ↦
        unfold maybe_add in
        rw (current_lem u "ensure" ensure-ne-name, stays)
          (Settled-add_all_missing u u.should.attrs c' names (maybe_add-Settled stays e))
  ]
