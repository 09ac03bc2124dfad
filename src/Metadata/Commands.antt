-- ===== src/Metadata/Commands.antt =====
-- What `suitable.commands` promises.
use libral.Base.{
  String, Bool, true, false, if◌then◌else◌, Result, ok, err, throws, ◌>>=◌, ◌≡◌, ◌↔◌, refl,
}
use libral.Metadata.Suitable.{
  Items, no_items, item, null, boolean, string, number, array, hash, allows, all_allow, text_of,
}

-- Every entry is a text, and lets the provider pass.
abbrev pub AreAllowed : (String → String) → Items → Type 0
AreAllowed which no_items = Unit
AreAllowed which (item v vs) =
    ((cmd : String) × (v ≡ string cmd) × (allows which cmd ≡ ok true)) × AreAllowed which vs

after :
    {P : Type 0} (r rest : Result Bool)
    → (rest ≡ ok true → P)
    → (r >>= λ passes. if passes then rest else ok false) ≡ ok true
    → (r ≡ ok true) × P
after (ok true) rest k h = (refl, k h)
after (ok false) rest k h = cc
after (err e) rest k h = cc
after (throws x) rest k h = cc

allowed :
    (which : String → String) (name : String) (vs : Items)
    → all_allow which name vs ≡ ok true
    → AreAllowed which vs
unfolding all_allow text_of
allowed which name no_items h = tt
allowed which name (item (string cmd) vs) h =
    let (passes, others) =
      after (allows which cmd) (all_allow which name vs) (allowed which name vs) h in
    ((cmd, refl, passes), others)
allowed which name (item null vs) h = cc
allowed which name (item (boolean b) vs) h = cc
allowed which name (item (number n) vs) h = cc
allowed which name (item (array ws) vs) h = cc
allowed which name (item (hash es) vs) h = cc

passing :
    (which : String → String) (name : String) (vs : Items)
    → AreAllowed which vs
    → all_allow which name vs ≡ ok true
unfolding all_allow text_of
passing which name no_items h = refl
passing which name (item v vs) ((cmd, is_text, passes), others) =
    rw (is_text, passes, passing which name vs others) refl

-- The check of the commands says yes if and only if each entry is a text and names a command that
-- is there, or, after "not ", one that is not.
pub all_allow_lem :
    (which : String → String) (name : String) (vs : Items)
    → (all_allow which name vs ≡ ok true) ↔ AreAllowed which vs
all_allow_lem which name vs = (allowed which name vs, passing which name vs)
