-- ===== src/File/Settled.antt =====
-- A file that is as an update wants it is left alone.
use libral.Base.{
  String, Bool, false, none, some, List, [], ◌∷◌, ok, ◌≡◌, ◌⊎◌, inl, inr, refl, ◌∙◌, eq_refl, All,
}
use libral.Value.{nothing, is_present}
use libral.Resource.{Update, name, index, changed, lookup_text}
use libral.Context.{Changes, changes_for, record_changes, exists, add_attr, add_attrs}
use libral.Context.Laws.{changes_for-record}
use libral.Provider.{Call}
use libral.File.Steps.{
  Files, update_metadata, record_metadata, update_content, fill, compare_with, rewrite,
}
use libral.File.Set.{state_of, ensure_of, force_of, is_guarded, change_to, clear, bring_to, set_one}

pub add_attrs_none :
    (attrs : List String) (u : Update) (chgs : Changes)
    → All (λ a. changed u a ≡ ok false) attrs
    → add_attrs attrs u chgs ≡ ok (false, chgs)
unfolding add_attrs add_attr
add_attrs_none [] u chgs h = refl
add_attrs_none (a ∷ as') u chgs h = rw (h.0, add_attrs_none as' u chgs h.1) refl

-- the attributes that `update_metadata` sets
abbrev pub metadata : List String
metadata = "owner" ∷ "group" ∷ "mode" ∷ []

module _ {W : Type 0} (files : Files W) where
  -- The update asks for no text, or for the text that the file has.
  pub data HasContent (u : Update) (w : W) : Type 0 where
    unasked :
        lookup_text u.should "content" ≡ none
        → index u.should "content" ≡ ok nothing
        → HasContent u w
    equal :
        (content : String)
        → lookup_text u.should "content" ≡ some content
        → files.read (name u) w ≡ some content
        → HasContent u w

  update_content_settled :
      (u : Update) (c : Call W) → HasContent u c.world → update_content files u c ≡ (ok tt, c)
  unfolding update_content fill compare_with rewrite is_present
  update_content_settled u c (unasked h e) = rw (h, e, update_content) refl
  update_content_settled u c (equal t h e) = rw (h, e, eq_refl t, update_content) refl

  update_metadata_settled :
      (u : Update) (c : Call W)
      → All (λ a. changed u a ≡ ok false) metadata
      → changes_for (name u) c.recorded ≡ []
      → update_metadata files u c
        ≡ (ok tt, record c { recorded = record_changes (name u) [] c.recorded })
  unfolding update_metadata record_metadata exists
  update_metadata_settled u c h quiet =
      rw (quiet, add_attrs_none metadata u [] h, update_metadata) refl

  -- The file is there as a file or a directory, and everything that the update asks for is so.
  pub record IsSettled (u : Update) (c : Call W) : Type 0 where
    pub is_there : (state_of u ≡ "file") ⊎ (state_of u ≡ "directory")
    pub stays : ensure_of u ≡ state_of u
    pub same_metadata : All (λ a. changed u a ≡ ok false) metadata
    pub same_content : HasContent u c.world
    pub quiet : changes_for (name u) c.recorded ≡ []

  abbrev untouched : Update → Call W → Call W
  untouched u c = record c { recorded = record_changes (name u) [] c.recorded }

  file_settled :
      (u : Update) (c : Call W) (force : Bool)
      → IsSettled u c
      → change_to files u "file" "file" force c ≡ (ok tt, untouched u c)
  unfolding change_to is_guarded clear bring_to
  file_settled u c force h =
      rw (update_metadata_settled u c h.same_metadata h.quiet)
        (update_content_settled u (untouched u c) h.same_content)

  directory_settled :
      (u : Update) (c : Call W) (force : Bool)
      → IsSettled u c
      → change_to files u "directory" "directory" force c ≡ (ok tt, untouched u c)
  unfolding change_to is_guarded clear bring_to
  directory_settled u c force h = update_metadata_settled u c h.same_metadata h.quiet

  change_settled :
      (u : Update) (c : Call W) (state : String) (force : Bool)
      → (state ≡ "file") ⊎ (state ≡ "directory")
      → IsSettled u c
      → change_to files u state state force c ≡ (ok tt, untouched u c)
  change_settled u c state force (inl e) h = rw e (file_settled u c force h)
  change_settled u c state force (inr e) h = rw e (directory_settled u c force h)

  -- An update of a file or a directory that asks for nothing that is not so already succeeds, leaves
  -- the file system as it is, and records no change.
  pub set_one_unchanged :
      (u : Update) (c : Call W)
      → IsSettled u c
      → ((set_one files u c).0 ≡ ok tt)
        × ((set_one files u c).1.world ≡ c.world)
        × (changes_for (name u) (set_one files u c).1.recorded ≡ [])
  unfolding set_one
  set_one_unchanged u c h =
      rw (h.stays, change_settled u c (state_of u) (force_of u) h.is_there h)
        (
          refl,
          refl,
          changes_for-record (name u) (name u) [] c.recorded ∙ rw (eq_refl (name u)) refl,
        )
