-- ===== src/Ral/Loading.antt =====
-- `ral::init_provider` and `ral::providers`: the providers that are built in and those that are
-- found in the data directories.
use libral.Base.{
  String, Bool, true, ◌||◌, Option, none, some, List, [], ◌∷◌, ◌++◌, map, ◌==◌, if◌then◌else◌,
  Result, ok, err, throws, Exception, ◌>>=◌, ◌≡◌, refl, arith, All, All-append,
}
use mathlib.Core.List.{Perm}
use libral.Provider.{ProvSpec}
use libral.Ral.Sorting.{insert, sort, IsSorted, sort-IsSorted, sort-perm}

-- What loading an external provider reads: the metadata of a path, the provider's name from the
-- path, and `parse_spec`.
pub record Loader : Type 0 where
  pub metadata : String → Result String
  pub stem : String → String
  pub parse_spec : String → String → Result ProvSpec

-- `init_provider`: a provider is used if it can be prepared and is suitable. An exception of
-- `prepare` goes up.
unfoldable pub init_provider : Result ProvSpec → Result (Option ProvSpec)
init_provider (ok s) = ok (if s.suitable then some s else none)
init_provider (err e) = ok none
init_provider (throws x) = throws x

-- the check of the calling convention
unfoldable pub is_convention : String → Bool
is_convention invoke = invoke == "simple" || invoke == "json"

-- an external provider has its specification from the constructor, so `prepare` succeeds
unfoldable pub with_spec : Result ProvSpec → Result (Option ProvSpec)
with_spec (ok s) = if is_convention s.invoke then init_provider (ok s) else ok none
with_spec (err e) = ok none
with_spec (throws x) = throws x

abbrev parse_with : Loader → String → Result String → Result ProvSpec
parse_with l path (ok yaml) = l.parse_spec (l.stem path) yaml
parse_with l path (err e) = err e
parse_with l path (throws x) = throws x

-- the callback for a file '*.prov'
unfoldable pub load_external : Loader → String → Result (Option ProvSpec)
load_external l path = with_spec (parse_with l path (l.metadata path))

-- `result.push_back(prov)` for a provider that is used, before those that come after it
abbrev pub add_some : Option ProvSpec → List ProvSpec → List ProvSpec
add_some none ps = ps
add_some (some p) ps = p ∷ ps

unfoldable pub load_builtins : List (Result ProvSpec) → Result (List ProvSpec)
load_builtins [] = ok []
load_builtins (r ∷ rs) = do used ← init_provider r; ps ← load_builtins rs; ok (add_some used ps)

unfoldable pub load_externals : Loader → List String → Result (List ProvSpec)
load_externals l [] = ok []
load_externals l (path ∷ paths) = do
  used ← load_external l path
  ps ← load_externals l paths
  ok (add_some used ps)

-- `providers()`, from the results of preparing those that are built in and the paths of the files
unfoldable pub providers : List (Result ProvSpec) → Loader → List String → Result (List ProvSpec)
providers builtin l paths = do
  first ← load_builtins builtin
  others ← load_externals l paths
  ok (sort (first ++ others))

-- A provider that can be used: it is suitable.
abbrev pub IsSuitable : ProvSpec → Type 0
IsSuitable p = p.suitable ≡ true

-- A result that is no exception.
abbrev pub Settled : {A : Type 0} → Result A → Type 0
Settled (throws x) = ⊥
Settled (err e) = Unit
Settled (ok a) = Unit

-- What is to be used of a provider that is built in: its specification, if that is suitable.
abbrev pub usable : Result ProvSpec → List ProvSpec
usable (ok s) = if s.suitable then s ∷ [] else []
usable (err e) = []
usable (throws x) = []

-- The same of a file, which also has to name a calling convention.
abbrev pub usable_file : Result ProvSpec → List ProvSpec
usable_file (ok s) = if is_convention s.invoke then usable (ok s) else []
usable_file (err e) = []
usable_file (throws x) = []

-- What is read of the file at a path
abbrev pub read_at : Loader → String → Result ProvSpec
read_at l path = parse_with l path (l.metadata path)

abbrev pub used : (Result ProvSpec → List ProvSpec) → List (Result ProvSpec) → List ProvSpec
used f [] = []
used f (r ∷ rs) = f r ++ used f rs

init_provider-usable :
    (r : Result ProvSpec) (ps : List ProvSpec)
    → Settled r
    → init_provider r >>= (λ p. ok (add_some p ps)) ≡ ok (usable r ++ ps)
unfolding init_provider
init_provider-usable (ok s) ps h = ground arith
init_provider-usable (err e) ps h = refl
init_provider-usable (throws x) ps h = absurd h

with_spec-usable :
    (r : Result ProvSpec) (ps : List ProvSpec)
    → Settled r
    → with_spec r >>= (λ p. ok (add_some p ps)) ≡ ok (usable_file r ++ ps)
unfolding with_spec init_provider
with_spec-usable (ok s) ps h = ground arith
with_spec-usable (err e) ps h = refl
with_spec-usable (throws x) ps h = absurd h

load_builtins-used :
    (rs : List (Result ProvSpec)) → All Settled rs → load_builtins rs ≡ ok (used usable rs)
unfolding load_builtins
load_builtins-used [] h = refl
load_builtins-used (r ∷ rs) h =
    rw (load_builtins-used rs h.1) (init_provider-usable r (used usable rs) h.0)

load_externals-used :
    (l : Loader) (paths : List String)
    → All Settled (map (read_at l) paths)
    → load_externals l paths ≡ ok (used usable_file (map (read_at l) paths))
unfolding load_externals load_external
load_externals-used l [] h = refl
load_externals-used l (path ∷ paths) h =
    rw (load_externals-used l paths h.1)
      (with_spec-usable (read_at l path) (used usable_file (map (read_at l) paths)) h.0)

used-IsSuitable :
    (f : Result ProvSpec → List ProvSpec)
    → ((r : Result ProvSpec) → All IsSuitable (f r))
    → (rs : List (Result ProvSpec)) → All IsSuitable (used f rs)
used-IsSuitable f fine [] = tt
used-IsSuitable f fine (r ∷ rs) =
    All-append IsSuitable (f r) (used f rs) (fine r) (used-IsSuitable f fine rs)

usable-IsSuitable : (r : Result ProvSpec) → All IsSuitable (usable r)
usable-IsSuitable (ok s) = ground arith
usable-IsSuitable (err e) = tt
usable-IsSuitable (throws x) = tt

usable_file-IsSuitable : (r : Result ProvSpec) → All IsSuitable (usable_file r)
usable_file-IsSuitable (ok s) = let h = usable-IsSuitable (ok s) in ground arith
usable_file-IsSuitable (err e) = tt
usable_file-IsSuitable (throws x) = tt

insert-IsSuitable :
    (p : ProvSpec) (ps : List ProvSpec)
    → IsSuitable p
    → All IsSuitable ps
    → All IsSuitable (insert p ps)
unfolding insert
insert-IsSuitable p [] h a = (h, tt)
insert-IsSuitable p (q ∷ qs) h a = ground (arith, insert-IsSuitable p qs)

sort-IsSuitable : (ps : List ProvSpec) → All IsSuitable ps → All IsSuitable (sort ps)
unfolding sort
sort-IsSuitable [] a = tt
sort-IsSuitable (p ∷ ps) a = insert-IsSuitable p (sort ps) a.0 (sort-IsSuitable ps a.1)

-- An exception while a provider that is built in is prepared leaves `providers`.
providers_throws :
    (builtin : List (Result ProvSpec)) (l : Loader) (paths : List String) (x : Exception)
    → load_builtins builtin ≡ throws x
    → providers builtin l paths ≡ throws x
unfolding providers
providers_throws builtin l paths x h = rw h refl

-- Where neither preparing the providers that are built in nor reading the files throws, `providers`
-- returns a list: it is sorted by qualified name, each of its providers is suitable for the system,
-- and it has all those, and no others, that are built in
-- or found and are suitable, where a file also has
-- to name a calling convention.
pub providers_sound :
    (builtin : List (Result ProvSpec)) (l : Loader) (paths : List String)
    → All Settled builtin
    → All Settled (map (read_at l) paths)
    → let found = used usable builtin ++ used usable_file (map (read_at l) paths) in
      (ps : List ProvSpec) × (providers builtin l paths ≡ ok ps)
      × IsSorted ps
      × All IsSuitable ps
      × Perm ps found
unfolding providers
providers_sound builtin l paths h g =
    let first = used usable builtin in
    let others = used usable_file (map (read_at l) paths) in
    (
      sort (first ++ others),
      rw (load_builtins-used builtin h, load_externals-used l paths g) refl,
      sort-IsSorted (first ++ others),
      sort-IsSuitable _ (
          All-append IsSuitable first others (used-IsSuitable usable usable-IsSuitable builtin)
            (used-IsSuitable usable_file usable_file-IsSuitable (map (read_at l) paths))),
      sort-perm (first ++ others),
    )
