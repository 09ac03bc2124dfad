-- ===== src/Cli/Explain.antt =====
-- `print_explanation` of exe/ralsh.cc: the attributes of a provider, aligned.
use libral.Base.{ℕ, String, ◌||◌, Option, none, some, List, [], ◌∷◌, ◌++◌, ◌==◌, if◌then◌else◌}
use libral.Base.Text.{◌<>◌}
use libral.Base.Dict.{Dict, find}
use libral.Attr as Attr
use libral.Emitter.Console.{Line, out, Loaded}
use libral.Emitter.Puppet.{Colors, pad, maxlen}

module _ (c : Colors) (magenta : String) where
  -- `print_attr_explanation`
  unfoldable pub attr_explanation : String → Attr.Spec → ℕ → List Line
  attr_explanation name a w =
      out ("  " <> c.green <> pad w name <> c.reset <> " : " <> a.desc)
      ∷ out ("  " <> pad w " " <> " . kind = " <> c.blue <> Attr.show_kind a.kind <> c.reset)
      ∷ out ("  " <> pad w " " <> " . type = " <> c.blue <> Attr.show_type a.data_type <> c.reset)
      ∷ []

  abbrev if_there : String → Option Attr.Spec → ℕ → List Line
  if_there name none w = []
  if_there name (some a) w = attr_explanation name a w

  unfoldable pub other_explanations : Dict Attr.Spec → ℕ → List Line
  other_explanations [] w = []
  other_explanations ((k, a) ∷ m) w =
      let rest = other_explanations m w in
      if k == "name" || k == "ensure" then rest else attr_explanation k a w ++ rest

  -- `print_explanation`, for a provider that has its metadata
  unfoldable pub explanation : Loaded → List Line
  explanation p =
      let attrs = p.spec.attr_specs in
      let w = maxlen 0 attrs in
      (out (magenta <> "Provider " <> p.spec.qname)
        ∷ out ("  source: " <> p.source <> c.reset)
        ∷ out p.spec.desc
        ∷ [])
      ++ if_there "name" (find "name" attrs) w
      ++ if_there "ensure" (find "ensure" attrs) w
      ++ other_explanations attrs w
