-- ===== src/Host/Entries.antt =====
-- `host_provider`: its operations on the tree of augeas.
use libral.Base.{
  String, none, some, Option, List, [], ◌∷◌, ◌==◌, if◌then◌else◌, Result, ok, err, throws,
  logic_error, ◌>>=◌, Exec, bind, lift, pure, fail,
}
use libral.Base.Text.{◌<>◌}
use libral.Value.{text, as_array}
use libral.Resource.{Resource, Update, name, new, assign, current, lookup_text_or}
use libral.Context.{add_attr, add_attrs, add_absent}
use libral.Provider.{Call}
use libral.Mount.Tree.{Handle, read, extract, extract_array, set as set_node, erase, rm}
use libral.Mount.Set.{on_system, note}

module _ {W : Type 0} (aug : Handle W) where
  -- the node for an update, from the matches for its name
  abbrev pub base_of : Update → Result (List String) → Exec W String
  base_of u (ok []) w = aug.next "/files/etc/hosts" w
  base_of u (ok (m ∷ [])) w = (ok m, w)
  base_of u (ok (m ∷ n ∷ ms)) w = (err ("multiple entries with hostname '" <> name u <> "'"), w)
  base_of u (err e) w = (err e, w)
  base_of u (throws x) w = (throws x, w)

  -- `base(upd)`
  unfoldable pub base : Update → Exec W String
  base u w = base_of u (aug.match_paths ("/files/etc/hosts/*[canonical = '" <> name u <> "']") w) w

  -- `make(name, base, ens)`
  unfoldable pub make : String → String → String → W → Result Resource
  make n node ens w = do
    r₁ ← extract aug node (new n) "ip" "ipaddr" none w
    r₂ ← extract_array aug node r₁ "host_aliases" "alias" w
    r₃ ← extract aug node r₂ "comment" "#comment" none w
    r₄ ← assign r₃ "ensure" (text ens)
    assign r₄ "target" (text "/etc/hosts")

  abbrev pub make_named : String → Option String → W → Result Resource
  make_named node none w = err "Missing canonical host name"
  make_named node (some n) w = make n node "present" w

  -- the loop of `get`
  unfoldable pub read_entries : List String → W → Result (List Resource)
  read_entries [] w = ok []
  read_entries (node ∷ nodes) w = do
    n ← read aug node "canonical" w
    r ← make_named node n w
    rest ← read_entries nodes w
    ok (r ∷ rest)

  -- `get(ctx, names, config)`
  unfoldable pub get : List String → W → Result (List Resource)
  get names w = do
    nodes ← aug.match_paths "/files/etc/hosts/*[label() != '#comment']" w
    rs ← read_entries nodes w
    add_absent rs names

  -- the loop over the aliases of `update_base`
  unfoldable pub set_aliases : String → List String → Exec W (Unit {0})
  set_aliases node [] = pure tt
  set_aliases node (a ∷ as') =
      bind (set_node aug node "alias[last()+1]" (text a)) (λ _. set_aliases node as')

  abbrev aliases_of : Option (List String) → List String
  aliases_of none = []
  aliases_of (some ss) = ss

  unfoldable pub fill_base : Update → String → Exec W (Unit {0})
  fill_base u node = bind (erase aug node) (λ _. bind (lift (current u "ip")) (λ ip.
      bind (set_node aug node "ipaddr" ip) (λ _.
        bind (set_node aug node "canonical" (text (name u))) (λ _.
          bind (lift (current u "host_aliases")) (λ aliases.
            bind (set_aliases node (aliases_of (as_array aliases)))
              (λ _. bind (lift (current u "comment")) (set_node aug node "#comment")))))))

  -- `update_base(upd)`
  unfoldable pub update_base : Update → Exec W (Unit {0})
  update_base u = bind (base u) (fill_base u)

  -- `base(upd).ok().rm()`: `ok()` throws if there is an error.
  abbrev pub remove_node : Result String × W → Result (Unit {0}) × W
  remove_node (ok node, w) = rm aug node w
  remove_node (err e, w) = (throws logic_error, w)
  remove_node (throws x, w) = (throws x, w)

  unfoldable pub remove : Update → Exec W (Unit {0})
  remove u w = remove_node (base u w)

  abbrev pub state_of : Update → String
  state_of u = lookup_text_or u.is "ensure" "absent"

  abbrev pub ensure_of : Update → String
  ensure_of u = lookup_text_or u.should "ensure" (state_of u)

  unfoldable pub bring_to : Update → String → Exec (Call W) (Unit {0})
  bring_to u ensure =
      if ensure == "present"
      then bind (note u (add_attrs ("ip" ∷ "host_aliases" ∷ "comment" ∷ []) u))
          (λ _. on_system (update_base u))
      else if ensure == "absent"
      then on_system (remove u)
      else fail ("ensure has illegal value '" <> ensure <> "'")

  -- `set(ctx, upd)`
  unfoldable pub set_one : Update → Exec (Call W) (Unit {0})
  set_one u = bind (note u (add_attr "ensure" u)) (λ _. bring_to u (ensure_of u))

  unfoldable pub set_all : List Update → Exec (Call W) (Unit {0})
  set_all [] = pure tt
  set_all (u ∷ us) = bind (set_one u) (λ _. set_all us)

  -- `set(ctx, upds)`
  unfoldable pub set : List Update → Exec (Call W) (Unit {0})
  set us = bind (set_all us) (λ _. on_system aug.save)
