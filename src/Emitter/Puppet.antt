-- ===== src/Emitter/Puppet.antt =====
-- `puppet_emitter`: resources in the way Puppet writes them, their attributes aligned.
use Prim.Native.Nat.{◌%◌}
use libral.Base.{
  ℕ, zero, suc, ◌-◌, String, ltb, Option, none, some, List, [], ◌∷◌, ◌++◌, ◌==◌, if◌then◌else◌,
  Result, ok, err, throws, Exec, bind, lift, pure,
}
use libral.Base.Text.{◌<>◌, size}
use libral.Base.Dict.{Dict}
use libral.Value.{Value, text, to_quoted_string}
use libral.Resource.{Resource, Update, lookup_text}
use libral.Context.{Changes, show}
use libral.Provider.{ProvSpec}
use libral.Provider.Create.{create_after}
use libral.Emitter.Console.{Line, out, error, Console, say, Loaded, Emitter}

-- The escape sequences of namespace `color`, all empty where the output is no terminal.
pub record Colors : Type 0 where
  pub green : String
  pub red : String
  pub blue : String
  pub reset : String

-- The text with that many blanks behind it.
unfoldable pub blanks : ℕ → String
blanks zero = ""
blanks (suc n) = " " <> blanks n

-- what `std::left << std::setw(w)` makes of a text
unfoldable pub pad : ℕ → String → String
unfolding blanks
pad w s = s <> blanks (w - size s)

-- The body of the loop for `maxlen`, which is a `uint16_t`, and the loop.
unfoldable pub wider : ℕ → ℕ → ℕ
wider acc n = if ltb acc n then n % 65536 else acc

unfoldable pub maxlen {ℓ} : {V : Type ℓ} → ℕ → Dict V → ℕ
maxlen acc [] = acc
maxlen acc ((k, v) ∷ m) = maxlen (wider acc (size k)) m

module _ (c : Colors) where
  -- `print_resource_attr`
  unfoldable pub attr_line : String → Value → ℕ → Line
  attr_line name v w =
      out ("  " <> c.green <> pad w name <> c.reset <> " => " <> to_quoted_string v <> ",")

  abbrev ensure_lines : Option String → ℕ → List Line
  ensure_lines none w = []
  ensure_lines (some ens) w = attr_line "ensure" (text ens) w ∷ []

  -- the second loop of `print_resource`
  unfoldable pub other_lines : Dict Value → ℕ → List Line
  other_lines [] w = []
  other_lines ((k, v) ∷ m) w =
      let rest = other_lines m w in if k == "ensure" then rest else attr_line k v w ∷ rest

  -- `print_resource`
  unfoldable pub resource_lines : ProvSpec → Resource → List Line
  resource_lines spec r =
      let w = maxlen 0 r.attrs in
      out (c.blue <> spec.qname <> c.reset <> " { '" <> c.blue <> r.name <> c.reset <> "':")
      ∷ (ensure_lines (lookup_text r "ensure") w ++ (other_lines r.attrs w ++ (out "}" ∷ [])))

  unfoldable pub list_lines : ProvSpec → List Resource → List Line
  list_lines spec [] = []
  list_lines spec (r ∷ rs) = resource_lines spec r ++ list_lines spec rs

  abbrev failed : String → String
  failed detail = c.red <> "failed: " <> detail <> c.reset

  -- the loop of `print_set`
  unfoldable pub print_pairs : ProvSpec → List (Update × Changes) → Exec Console (Unit {0})
  print_pairs spec [] = pure tt
  print_pairs spec ((u, chgs) ∷ rest) = bind (lift (create_after u chgs)) (λ r.
      bind (say (resource_lines spec r ++ (out (show chgs) ∷ []))) (λ _. print_pairs spec rest))

  unfoldable pub print_set : Loaded → Result (List (Update × Changes)) → Exec Console (Unit {0})
  print_set p (ok pairs) = print_pairs p.spec pairs
  print_set p (err e) = say (out (failed e) ∷ [])
  print_set p (throws x) = lift (throws x)

  unfoldable pub print_find : Loaded → Result (Option Resource) → List Line
  print_find p (ok none) = []
  print_find p (ok (some r)) = resource_lines p.spec r
  print_find p (err e) = error (failed e) ∷ []
  print_find p (throws x) = []

  unfoldable pub print_list : Loaded → Result (List Resource) → List Line
  print_list p (ok rs) = list_lines p.spec rs
  print_list p (err e) = out (failed e) ∷ []
  print_list p (throws x) = []

  unfoldable pub print_providers : List Loaded → List Line
  print_providers [] = []
  print_providers (p ∷ ps) = out p.spec.qname ∷ print_providers ps

  abbrev pub puppet_emitter : Emitter
  puppet_emitter = record {
    print_set = print_set;
    print_find = print_find;
    print_list = print_list;
    print_providers = print_providers;
  }
