-- ===== src/Simple/Listing.antt =====
-- `instances` reads back the resources that a script lists.
use mathlib.Core.List.{append_assoc, append-nil}
use libral.Base.{
  ℕ, suc, String, true, false, List, [], ◌∷◌, ◌++◌, ok, ◌≡◌, ◌≢◌, refl, ap, ◌∙◌, arith, ==_false,
  is_empty, All, map, eq_iff,
}
use libral.Base.Text.{trim, all_chars}
use libral.Base.Text.Laws.{Free}
use libral.Base.Dict.{put}
use libral.Value.{Value, text}
use libral.Resource.{Resource, new, assign}
use libral.Provider.{Call}
use libral.Simple.Protocol.{Script, out_cb, each_line, start, finish, run_action}
use libral.Simple.Calls.{assign_back, list_cb, instances}
use libral.Simple.Lines.{line, running, out_cb-line}

-- A resource as a script lists it: its name, and the lines of its attributes in order.
pub record Listed : Type 0 where
  pub name : String
  pub entries : List (String × String)

-- An attribute that can be listed: the key has no ':' and no special meaning, and no white space
-- stands at the ends of the value.
pub record CanBeListed (e : String × String) : Type 0 where
  pub no_colon : Free b':' e.0
  pub no_error : e.0 ≢ "ral_error"
  pub no_name : e.0 ≢ "name"
  pub trimmed : trim e.1 ≡ e.1

pub record IsListed (l : Listed) : Type 0 where
  pub name_trimmed : trim l.name ≡ l.name
  pub each : All CanBeListed l.entries

abbrev pub entry_lines : List (String × String) → List String
entry_lines = map (λ e. line e.0 e.1)

-- the lines of the resources
abbrev pub listing : List Listed → List String
listing [] = []
listing (l ∷ ls) = line "name" l.name ∷ (entry_lines l.entries ++ listing ls)

-- the resource that is listed: a later entry of a key replaces an earlier one
abbrev pub attributes : List (String × String) → Resource → Resource
attributes [] r = r
attributes ((k, v) ∷ es) r = attributes es (record r { attrs = put k (text v) r.attrs })

abbrev pub listed : Listed → Resource
listed l = attributes l.entries (new l.name)

name-ne-ral_error : ◌≢◌ {A = String} "name" "ral_error"
name-ne-ral_error = ground (arith, eq_iff "name" "ral_error")

assign_back-last :
    (k : String) (v : Value) (rs : List Resource) (r : Resource)
    → k ≢ "name"
    → assign_back k v (rs ++ (r ∷ [])) ≡ ok (rs ++ (record r { attrs = put k v r.attrs } ∷ []))
unfolding assign_back assign
assign_back-last k v [] r h = rw (==_false k "name" h) refl
assign_back-last k v (s ∷ []) r h = rw (==_false k "name" h) refl
assign_back-last k v (s ∷ t ∷ rs) r h = rw (assign_back-last k v (t ∷ rs) r h) refl

is_empty-last : (rs : List Resource) (r : Resource) → is_empty (rs ++ (r ∷ [])) ≡ false
is_empty-last [] r = refl
is_empty-last (s ∷ rs) r = refl

list_cb-entry :
    (k v : String) (rs : List Resource) (r : Resource)
    → k ≢ "name"
    → list_cb k v (rs ++ (r ∷ []))
      ≡ (ok tt, rs ++ (record r { attrs = put k (text v) r.attrs } ∷ []))
unfolding list_cb
list_cb-entry k v rs r h =
    rw (==_false k "name" h, is_empty-last rs r, assign_back-last k (text v) rs r h) refl

list_cb-name : (n : String) (rs : List Resource) → list_cb "name" n rs ≡ (ok tt, rs ++ (new n ∷ []))
unfolding list_cb
list_cb-name n rs = refl

each_line-step :
    (l : String) (ls : List String) (n : ℕ) (rs rs' : List Resource)
    → out_cb list_cb l (running n rs) ≡ running (suc n) rs'
    → each_line list_cb (l ∷ ls) (running n rs) ≡ each_line list_cb ls (running (suc n) rs')
unfolding each_line
each_line-step l ls n rs rs' e = rw e refl

-- The lines of the attributes go to the last resource.
each_line-entries :
    (es : List (String × String)) (ls : List String) (n : ℕ) (rs : List Resource) (r : Resource)
    → All CanBeListed es
    → (m : ℕ) × (each_line list_cb (entry_lines es ++ ls) (running n (rs ++ (r ∷ [])))
        ≡ each_line list_cb ls (running m (rs ++ (attributes es r ∷ []))))
each_line-entries [] ls n rs r h = (n, refl)
each_line-entries ((k, v) ∷ es) ls n rs r h =
    let r' = record r { attrs = put k (text v) r.attrs } in
    let (m, e) = each_line-entries es ls (suc n) rs r' h.1 in
    let c = h.0 in
    (
      m,
      each_line-step (line k v) (entry_lines es ++ ls) n (rs ++ (r ∷ [])) (rs ++ (r' ∷ [])) (
            out_cb-line list_cb k v n _ _ c.no_colon c.trimmed c.no_error
              (list_cb-entry k v rs r c.no_name))
          ∙ e,
    )

each_line-listing :
    (ls : List Listed) (n : ℕ) (rs : List Resource)
    → All IsListed ls
    → (m : ℕ) × (each_line list_cb (listing ls) (running n rs) ≡ running m (rs ++ map listed ls))
unfolding all_chars
each_line-listing [] n rs h = (n, unfold each_line in rw append-nil refl)
each_line-listing (l ∷ ls) n rs h =
    let es = l.entries in
    let (m, e) = each_line-entries es (listing ls) (suc n) rs (new l.name) h.0.each in
    let (m', e') = each_line-listing ls m (rs ++ (listed l ∷ [])) h.1 in
    (
      m',
      each_line-step (line "name" l.name) (entry_lines es ++ listing ls) n rs
            (rs ++ (new l.name ∷ []))
            (out_cb-line list_cb "name" l.name n _ _ refl h.0.name_trimmed name-ne-ral_error
              (list_cb-name l.name rs))
          ∙ e
          ∙ e'
          ∙ ap (running m') (append_assoc rs (listed l ∷ []) (map listed ls)),
    )

each_line-header :
    (ls : List String)
    → each_line list_cb ("# simple" ∷ ls) (start []) ≡ each_line list_cb ls (running 0 [])
unfolding each_line out_cb
each_line-header ls = refl

-- A successful script that prints the header and lists resources whose entries can be listed gets
-- exactly these resources read, in order; no change is recorded, and the system is as the script
-- left it.
pub instances-listing :
    {W : Type 0} (script : Script W) (ls : List Listed) (c : Call W) (w' : W)
    → All IsListed ls
    → script.run ("ral_action=list" ∷ []) c.world
      ≡ (record { lines = "# simple" ∷ listing ls; success = true }, w')
    → instances script c ≡ (ok (map listed ls), record c { world = w' })
unfolding instances run_action finish
instances-listing script ls c w' h e =
    let (m, read) = each_line-listing ls 0 [] h in
    rw e (rw (each_line-header (listing ls) ∙ read) refl)
