-- ===== src/Metadata/Environment.antt =====
-- `environment::parse_spec` on this system, and what the flag that it is given decides.
use libral.Base.{
  String, Bool, true, false, Result, ok, ◌≡◌, refl, arith, >>=-elim, >>=-eq-ok, ◌>>=◌, Option, some,
}
use libral.Provider.{ProvSpec}
use libral.Targets.Local.{System, command}
use libral.Base.Text.{empty}
use libral.Command.{Command}
use libral.Metadata.Suitable.{Yaml, hash_get, read_suitable}
use libral.Metadata.Read.{
  read, read_node, parse_failed, provider_node, present, attrs_of, check_name, decide_suitable,
  spec_of,
}

-- `env.parse_spec(name, desc, suitable)`; `loaded` is what `YAML.load` makes of `desc`
unfoldable pub parse_spec :
    {W : Type 0} → System W → String → Result Yaml → Bool → W → Result ProvSpec
parse_spec sys name loaded suitable w = read (λ cmd. sys.which cmd w) loaded name suitable

-- The specification is suitable as its provider's node in the metadata decides.
abbrev pub IsDecided : (String → String) → Yaml → String → Bool → ProvSpec → Type 0
IsDecided which node name flag spec = decide_suitable which node name flag ≡ ok spec.suitable

read_node-IsDecided :
    (which : String → String) (name : String) (node : Yaml) (flag : Bool) (spec : ProvSpec)
    → read_node which name node flag ≡ ok spec
    → IsDecided which node name flag spec
unfolding read_node spec_of
read_node-IsDecided which name node flag =
    let P = IsDecided which node name flag in
    >>=-elim P (hash_get node "type") _ (λ type_node _.
      >>=-elim P (present "missing 'type' attribute" type_node) _ (λ _ _.
        >>=-elim P (hash_get node "attributes") _ (λ attrs _.
          >>=-elim P (attrs_of attrs) _ (λ specs _. >>=-elim P (check_name specs) _ (λ checked _.
            >>=-elim P (decide_suitable which node name flag) _
              (λ fits decided spec last. ground arith))))))

-- What is read from a document is decided by the node for the provider in it.
read-IsDecided :
    (which : String → String) (loaded : Result Yaml) (name : String) (flag : Bool) (spec : ProvSpec)
    → read which loaded name flag ≡ ok spec
    → (node : Yaml) × ((parse_failed loaded >>= provider_node) ≡ ok node)
      × IsDecided which node name flag spec
unfolding read
read-IsDecided which loaded name flag spec h =
    let (doc, e₁, rest) = >>=-eq-ok (parse_failed loaded) _ h in
    let (node, e₂, last) = >>=-eq-ok (provider_node doc) _ rest in
    (node, ground arith, read_node-IsDecided which name node flag spec last)

decide_suitable-flag :
    (which : String → String) (node : Yaml) (name : String) (flag fits : Bool)
    → decide_suitable which node name flag ≡ ok fits
    → fits ≡ true
    → flag ≡ true
unfolding decide_suitable
decide_suitable-flag which node name true fits h t = refl
decide_suitable-flag which node name false fits h t = cc

module _ {W : Type 0} (sys : System W) (w : W) where
  -- A suitable specification was given the flag.
  pub parse_spec-flag :
      (name : String) (loaded : Result Yaml) (flag : Bool) (spec : ProvSpec)
      → parse_spec sys name loaded flag w ≡ ok spec
      → spec.suitable ≡ true
      → flag ≡ true
  unfolding parse_spec
  parse_spec-flag name loaded flag spec h fine =
      let (node, _, decided) = read-IsDecided (λ cmd. sys.which cmd w) loaded name flag spec h in
      decide_suitable-flag (λ cmd. sys.which cmd w) node name flag spec.suitable decided fine

  -- A suitable specification whose flag is set is so by the test of its metadata.
  pub parse_spec-read_suitable :
      (name : String) (doc node : Yaml) (spec : ProvSpec)
      → provider_node doc ≡ ok node
      → parse_spec sys name (ok doc) true w ≡ ok spec
      → spec.suitable ≡ true
      → read_suitable (λ cmd. sys.which cmd w) node name ≡ ok true
  unfolding parse_spec parse_failed decide_suitable
  parse_spec-read_suitable name doc node spec there h fine =
      let (node', found, decided) =
        read-IsDecided (λ cmd. sys.which cmd w) (ok doc) name true spec h in
      ground arith

  -- A command is there: the name is found, and the command has its path and needs no upload.
  abbrev pub IsFound : String → Option Command → Type 0
  IsFound cmd held =
      (empty (sys.which cmd w) ≡ false)
      × (held ≡ some (record { path = sys.which cmd w; needs_upload = false }))

  pub command-IsFound :
      (cmd : String) → empty (sys.which cmd w) ≡ false → IsFound cmd (command sys cmd w)
  unfolding command
  command-IsFound cmd h = ground arith
