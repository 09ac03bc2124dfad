-- ===== src/Cli/Wrapper.antt =====
-- lib/src/cwrapper.cc: the functions for callers from C. Each has a code and a text as its result.
use libral.Base.{
  ℕ, String, Option, none, some, List, [], ◌∷◌, Result, ok, err, throws, ◌>>=◌, is_empty,
  if◌then◌else◌,
}
use libral.Base.Text.{◌<>◌}
use libral.Resource.{Resource}
use libral.Provider.{create}
use libral.Provider as Provider
use libral.Provider.Find.{find}
use libral.Provider.Set.{set}
use libral.Json.Documents.{Documents}
use libral.Emitter.Json.{parse_set, parse_find, parse_list, parse_providers}
use libral.Cli.Arguments.{read_args}
use libral.Cli.Main.{Found, Library}

-- the message for an argument that the provider refuses
abbrev pub complaint : String → String → String → String
complaint prov_name attr detail =
    "Failed to read attribute " <> attr <> ", resource_name: " <> prov_name <> ", error: " <> detail

module _ {W : Type 0} (lib : Library W) (docs : Documents) where
  abbrev Answer : Type 0
  Answer = Result (ℕ × String)

  abbrev coded : Result String → Answer
  coded r = do s ← r; ok (0, s)

  abbrev not_found : String → Answer
  not_found n = ok (1, "Provider " <> n <> " not found")

  -- `get_providers`
  unfoldable pub get_providers : W → Answer × W
  get_providers w = let (ps, w') = lib.providers w in (ok (0, parse_providers docs ps), w')

  abbrev list_of : String → Option (Found W) × W → Answer × W
  list_of n (none, w) = (not_found n, w)
  list_of n (some f, w) =
      let (r, w') = Provider.get f.provider [] w in (coded (parse_list docs f.loaded.spec r), w')

  -- `get_resources`
  unfoldable pub get_resources : String → W → Answer × W
  get_resources n w = list_of n (lib.find_provider n w)

  abbrev one_of : String → String → Option (Found W) × W → Answer × W
  one_of n name (none, w) = (not_found n, w)
  one_of n name (some f, w) =
      let (r, w') = find f.provider name w in (coded (parse_find docs f.loaded.spec r), w')

  -- `get_resource`
  unfoldable pub get_resource : String → String → W → Answer × W
  get_resource n name w = one_of n name (lib.find_provider n w)

  abbrev set_should : Found W → Result Resource → W → Answer × W
  set_should f (ok should) w =
      let (r, w') = set f.provider (should ∷ []) w in (coded (parse_set docs f.loaded.spec r), w')
  set_should f (err e) w = (ok (1, e), w)
  set_should f (throws x) w = (throws x, w)

  abbrev change_of : String → String → List String → Option (Found W) × W → Answer × W
  change_of n name av (none, w) = (not_found n, w)
  change_of n name av (some f, w) =
      if is_empty av
      then (ok (1, "Number of desired attributes must be > 0"), w)
      else set_should f (read_args f.provider (complaint n) av (create name)) w

  -- `set_resource`
  unfoldable pub set_resource : String → String → List String → W → Answer × W
  set_resource n name av w = change_of n name av (lib.find_provider n w)
