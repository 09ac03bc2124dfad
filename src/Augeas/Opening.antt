-- ===== src/Augeas/Opening.antt =====
-- `handle::make` and the constructor of `augeas::handle`.
use libral.Base.{ℕ, String, Option, none, some}
use libral.Augeas.Tree.{Library, Tree}

-- `aug_init` with a root, `aug_load` and `aug_save`
pub record Functions (A : Type 0) : Type 0 where
  pub init : Option String → A
  pub aug_load : A → A
  pub aug_save : A → A

-- A callback that is given, or the function of libaugeas.
abbrev pub or_else : {A : Type 0} → Option (A → A) → (A → A) → A → A
or_else none default = default
or_else (some callback) default = callback

-- With a callback, libaugeas has no files of its own to read or write.
abbrev pub root_for : {A : Type 0} → (reader writer : Option (A → A)) → Option String
root_for none none = none
root_for _ _ = some "/dev/null"

-- `handle::make(reader, writer)`: the functions that the handle calls, and the handle. `garbage` is
-- how far `_seq`, which the constructor leaves as it is, happens to be above the least int.
unfoldable pub make :
    {A : Type 0}
    → Functions A
    → Library A
    → (garbage : ℕ) → (reader writer : Option (A → A)) → Library A × Tree A
make aug lib garbage reader writer = (
  record lib { reader = or_else reader aug.aug_load; writer = or_else writer aug.aug_save },
  record { aug = aug.init (root_for reader writer); seq = garbage },
)
