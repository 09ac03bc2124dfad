-- ===== src/Augeas/Tree.antt =====
-- `augeas::handle` over the functions of libaugeas, which are a parameter.
use libral.Base.{
  ℕ, ◌+◌, String, Option, none, some, List, if◌then◌else◌, leb, Result, ok, err, throws, undefined,
  ◌>>=◌, Exec,
}
use libral.Base.Text.{◌<>◌}
use libral.Mount.Tree.{ends_in_slash}

-- `aug_error_message`, `aug_error_minor_message` and `aug_error_details`
pub record Failure : Type 0 where
  pub message : String
  pub minor : Option String
  pub details : Option String

-- The functions of libaugeas; each leaves an error or clears it. `reader` and `writer` are the
-- callbacks of the handle, which load and save the tree; `number` is how a stream prints `_seq`, an
-- int of 32 bits, from how far it is above the least one.
pub record Library (A : Type 0) : Type 0 where
  pub transform : String → String → A → A
  pub reader : A → A
  pub writer : A → A
  pub match_paths : String → A → List String × A
  pub set : String → Option String → A → A
  pub rm : String → A → A
  pub get : String → A → Option String × A
  pub error : A → Option Failure
  pub number : ℕ → String

-- How far the greatest int is above the least one.
abbrev pub greatest : ℕ
greatest = 4294967295

-- The members of `handle` that change; `seq` is how far `_seq` is above the least int.
pub record Tree (A : Type 0) : Type 0 where
  pub aug : A
  pub seq : ℕ

abbrev behind : Option String → String
behind none = ""
behind (some s) = ": " <> s

module _ {A : Type 0} (lib : Library A) where
  abbrev pub error_of : Option Failure → Result (Unit {0})
  error_of none = ok tt
  error_of (some f) = err (f.message <> behind f.minor <> behind f.details <> "\n")

  -- `check_error()`
  unfoldable pub check_error : A → Result (Unit {0})
  check_error a = error_of (lib.error a)

  -- A call of the library, and the test for an error.
  abbrev checked : (A → A) → Exec (Tree A) (Unit {0})
  checked call t = let a = call t.aug in (check_error a, record t { aug = a })

  -- `include(lens, glob)`, `load()`, `set(path, value)`, `clear(path)`, `rm(path)`
  unfoldable pub include : String → String → Exec (Tree A) (Unit {0})
  include lens glob = checked (lib.transform lens glob)

  unfoldable pub load : Exec (Tree A) (Unit {0})
  load = checked lib.reader

  unfoldable pub set : String → String → Exec (Tree A) (Unit {0})
  set path value = checked (lib.set path (some value))

  unfoldable pub clear : String → Exec (Tree A) (Unit {0})
  clear path = checked (lib.set path none)

  unfoldable pub rm : String → Exec (Tree A) (Unit {0})
  rm path = checked (lib.rm path)

  -- `match(pathx)` and `get(pathx)`; the error that they leave is that of the next call
  unfoldable pub match_paths : String → Tree A → Result (List String)
  match_paths path t = do let (paths, a) = lib.match_paths path t.aug; _ ← check_error a; ok paths

  unfoldable pub get : String → Tree A → Result (Option String)
  get path t = do let (value, a) = lib.get path t.aug; _ ← check_error a; ok value

  -- `make_node_seq_next(path)`: the path of the node. Counting beyond the greatest int is undefined.
  unfoldable pub make_node_seq_next : String → Exec (Tree A) String
  make_node_seq_next path t = if leb greatest t.seq then (throws undefined, t) else (
    ok (path <> (if ends_in_slash path then "" else "/") <> "0" <> lib.number (t.seq + 1)),
    record t { seq = t.seq + 1 },
  )
