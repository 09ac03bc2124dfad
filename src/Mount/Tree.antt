-- ===== src/Mount/Tree.antt =====
-- lib/src/augeas/node.cc: nodes of the tree of augeas, each named by its path.
use Prim.Native.String.{[] as nil, ◌∷◌ as cons}
use package.text.Mathlib.Text.{starts_with}
use libral.Base.{
  String, Bool, false, Option, none, some, List, [], ◌∷◌, if◌then◌else◌, code, nat_eq, Result, ok,
  Exec, pure, ◌>>=◌, is_empty,
}
use libral.Base.Text.{◌<>◌}
use libral.Value.{Value, text, array, is_present, to_string}
use libral.Resource.{Resource, assign}

-- The methods of `augeas::handle` that are used: each is a call of augeas and a test of its error.
-- `next` is the path that `make_node_seq_next` makes.
pub record Handle (W : Type 0) : Type 0 where
  pub match_paths : String → W → Result (List String)
  pub get : String → W → Result (Option String)
  pub set : String → String → Exec W (Unit {0})
  pub rm : String → Exec W (Unit {0})
  pub clear : String → Exec W (Unit {0})
  pub save : Exec W (Unit {0})
  pub next : String → Exec W String

unfoldable pub ends_in_slash : String → Bool
ends_in_slash nil = false
ends_in_slash (cons c nil) = nat_eq (code c) b'/'
ends_in_slash (cons c (cons d s)) = ends_in_slash (cons d s)

-- `append(p2)`
unfoldable pub append : String → String → String
append path p2 =
    if starts_with p2 "/" then p2 else if ends_in_slash path then path <> p2 else path <> "/" <> p2

abbrev with_found : Option String → List String → List String
with_found none ss = ss
with_found (some s) ss = s ∷ ss

module _ {W : Type 0} (aug : Handle W) where
  -- `node[path]`
  unfoldable pub read : String → String → W → Result (Option String)
  unfolding append
  read node label w = aug.get (append node label) w

  -- `set(path, v)`, and with a default
  unfoldable pub set : String → String → Value → Exec W (Unit {0})
  set node label v = if is_present v then aug.set (append node label) (to_string v) else pure tt

  unfoldable pub set_or : String → String → Value → String → Exec W (Unit {0})
  set_or node label v dflt =
      aug.set (append node label) (if is_present v then to_string v else dflt)

  unfoldable pub erase : String → Exec W (Unit {0})
  erase node = aug.rm (append node "*")

  unfoldable pub rm : String → Exec W (Unit {0})
  rm node = aug.rm node

  unfoldable pub clear : String → Exec W (Unit {0})
  clear node = aug.clear node

  abbrev assign_found : Resource → String → Option String → Option String → Result Resource
  assign_found res attr (some v) dflt = assign res attr (text v)
  assign_found res attr none (some v) = assign res attr (text v)
  assign_found res attr none none = ok res

  -- `extract(res, attr, label, deflt)`
  unfoldable pub extract : String → Resource → String → String → Option String → W → Result Resource
  extract node res attr label dflt w = do
    found ← read node label w
    assign_found res attr found dflt

  -- the loop of `extract_array`
  unfoldable pub values_of : List String → W → Result (List String)
  values_of [] w = ok []
  values_of (node ∷ nodes) w = do
    found ← aug.get node w
    rest ← values_of nodes w
    ok (with_found found rest)

  -- `extract_array(res, attr, label)`
  unfoldable pub extract_array : String → Resource → String → String → W → Result Resource
  extract_array node res attr label w = do
    nodes ← aug.match_paths (append node label) w
    ary ← values_of nodes w
    if is_empty ary then ok res else assign res attr (array ary)

  -- `resolve()`: the path of the only match; the node stays as it is where there is an error.
  abbrev only_match : String → Result (List String) → String
  only_match node (ok (m ∷ [])) = m
  only_match node _ = node

  unfoldable pub resolve : String → W → String
  resolve node w = only_match node (aug.match_paths node w)
