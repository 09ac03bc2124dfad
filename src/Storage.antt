-- ===== src/Storage.antt =====
-- The objects of class `result<R>` of lib/inc/libral/result.hpp: a tag, and a union of which one
-- member is alive. What uses results as values is justified in Storage/Refinement.
pub mod Program
pub mod Refinement
use libral.Base.{
  String, Bool, true, false, Option, none, some, Result, ok, err, throws, logic_error, undefined,
  ◌>>=◌,
}

pub data Tag : Type 0 where
  tag_err tag_ok : Tag

-- The member of the union that is alive.
pub data Member (R : Type 0) : Type 0 where
  raw : Member R
  an_error : String → Member R
  a_value : R → Member R

pub record Object (R : Type 0) : Type 0 where
  pub tag : Tag
  pub member : Member R

module _ {R : Type 0} where
  -- Placement new. A member is made only where none is alive, else the old one is never destroyed.
  abbrev pub construct : Member R → Member R → Result (Member R)
  construct new raw = ok new
  construct new _ = throws undefined

  -- `_ok.~R()` and `_err.~error()`, of the member that is alive
  abbrev pub destroy_ok : Member R → Result (Member R)
  destroy_ok (a_value x) = ok raw
  destroy_ok _ = throws undefined

  abbrev pub destroy_err : Member R → Result (Member R)
  destroy_err (an_error e) = ok raw
  destroy_err _ = throws undefined

  -- `_ok = x` and `_err = e`
  abbrev pub put_ok : R → Member R → Result (Member R)
  put_ok x (a_value y) = ok (a_value x)
  put_ok x _ = throws undefined

  abbrev pub put_err : String → Member R → Result (Member R)
  put_err e (an_error d) = ok (an_error e)
  put_err e _ = throws undefined

  -- `_ok` and `_err`, read
  abbrev pub read_ok : Member R → Result R
  read_ok (a_value x) = ok x
  read_ok _ = throws undefined

  abbrev pub read_err : Member R → Result String
  read_err (an_error e) = ok e
  read_err _ = throws undefined

  abbrev pub replace_ok : String → Member R → Result (Member R)
  replace_ok e m = do empty ← destroy_ok m; construct (an_error e) empty

  abbrev pub replace_err : R → Member R → Result (Member R)
  replace_err x m = do empty ← destroy_err m; construct (a_value x) empty

  abbrev pub with_tag : Tag → Result (Member R) → Result (Object R)
  with_tag t made = do m ← made; ok (record { tag = t; member = m })

  -- `assign(const error& err)`
  unfoldable pub assign_err : String → Object R → Result (Object R)
  assign_err e o = elim o.tag [
    | tag_ok ↦ with_tag tag_err (replace_ok e o.member)
    | tag_err ↦ with_tag tag_err (put_err e o.member)
  ]

  -- `assign(const R& ok)`
  unfoldable pub assign_ok : R → Object R → Result (Object R)
  assign_ok x o = elim o.tag [
    | tag_ok ↦ with_tag tag_ok (put_ok x o.member)
    | tag_err ↦ with_tag tag_ok (replace_err x o.member)
  ]

  -- `assign(const result& other)`
  unfoldable pub assign : Object R → Object R → Result (Object R)
  assign other o = elim other.tag [
    | tag_ok ↦ do x ← read_ok other.member; assign_ok x o
    | tag_err ↦ do e ← read_err other.member; assign_err e o
  ]

  -- `init(const result& other)`, in memory where nothing is alive
  unfoldable pub init : Object R → Result (Object R)
  init other = elim other.tag [
    | tag_ok ↦ do x ← read_ok other.member; with_tag other.tag (construct (a_value x) raw)
    | tag_err ↦ do e ← read_err other.member; with_tag other.tag (construct (an_error e) raw)
  ]

  -- `init(result&& other)` with what is left of the other object; `left_ok` and `left_err` are what
  -- the move constructors leave of a value and of an error.
  unfoldable pub init_move : (R → R) → (String → String) → Object R → Result (Object R × Object R)
  init_move left_ok left_err other = elim other.tag [
    | tag_ok ↦ do
      x ← read_ok other.member
      o ← with_tag other.tag (construct (a_value x) raw)
      left ← put_ok (left_ok x) other.member
      ok (o, record other { member = left })
    | tag_err ↦ do
      e ← read_err other.member
      o ← with_tag other.tag (construct (an_error e) raw)
      left ← put_err (left_err e) other.member
      ok (o, record other { member = left })
  ]

  -- `is_ok()`, which is also `operator bool()`
  abbrev pub is_ok : Object R → Bool
  is_ok o = elim o.tag [ tag_ok ↦ true | tag_err ↦ false ]

  -- `~result()`: what is left in the union
  unfoldable pub destruct : Object R → Result (Member R)
  destruct o = elim o.tag [ tag_ok ↦ destroy_ok o.member | tag_err ↦ destroy_err o.member ]

  -- `ok()` and `err()`
  unfoldable pub get_ok : Object R → Result R
  get_ok o = elim o.tag [ tag_ok ↦ read_ok o.member | tag_err ↦ throws logic_error ]

  unfoldable pub get_err : Object R → Result String
  get_err o = elim o.tag [ tag_ok ↦ throws logic_error | tag_err ↦ read_err o.member ]

-- `result<void>`: an error that may be there. It converts to `true` where there is an error.
abbrev pub VoidObject : Type 0
VoidObject = Option String

unfoldable pub void_to_bool : VoidObject → Bool
void_to_bool none = false
void_to_bool (some e) = true

unfoldable pub void_err : VoidObject → Result String
void_err none = throws logic_error
void_err (some e) = ok e
