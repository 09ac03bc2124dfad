-- ===== src/Base/Text.antt =====
-- The functions of <string>, <cctype> and boost/algorithm/string that the code calls on texts. A
-- text is the sequence of its characters; the classes of <cctype> are those of the C locale.
pub mod Laws
pub mod Trim
use Prim.Native.String.{[] as nil, ◌∷◌ as cons, ◌++◌ as append}
use libral.Base.{
  ℕ, suc, ◌+◌, ◌-◌, Char, code, String, Bool, true, false, ◌&&◌, ◌||◌, Option, none, some, leb,
  nat_eq, if◌then◌else◌, List, [], ◌∷◌, ◌≡◌, refl,
}

-- `a + b` on texts
infixr 65 ◌<>◌
abbrev pub ◌<>◌ : String → String → String
a <> b = append a b

abbrev pub empty : String → Bool
empty nil = true
empty (cons c s) = false

-- `s.length()`
unfoldable pub size : String → ℕ
size nil = 0
size (cons c s) = suc (size s)

-- std::isspace
abbrev pub is_space : ℕ → Bool
is_space c = nat_eq c 32 || (leb 9 c && leb c 13)

-- std::tolower
abbrev pub to_lower : ℕ → ℕ
to_lower c = if leb b'A' c && leb c b'Z' then c + 32 else c

-- std::islower, std::isdigit
abbrev pub is_lower : ℕ → Bool
is_lower c = leb b'a' c && leb c b'z'

abbrev pub is_digit : ℕ → Bool
is_digit c = leb b'0' c && leb c b'9'

-- Every character has the property.
unfoldable pub all_chars : (ℕ → Bool) → String → Bool
all_chars p nil = true
all_chars p (cons c s) = p (code c) && all_chars p s

-- What a text is as a C string: it ends before its first NUL.
unfoldable pub c_str : String → String
c_str nil = nil
c_str (cons c s) = let rest = c_str s in if nat_eq (code c) 0 then nil else cons c rest

-- boost::iequals
unfoldable pub iequals : String → String → Bool
iequals nil nil = true
iequals (cons c s) (cons d t) = nat_eq (to_lower (code c)) (to_lower (code d)) && iequals s t
iequals _ _ = false

-- boost::istarts_with
unfoldable pub istarts_with : String → String → Bool
istarts_with s nil = true
istarts_with nil (cons d t) = false
istarts_with (cons c s) (cons d t) =
    nat_eq (to_lower (code c)) (to_lower (code d)) && istarts_with s t

-- `s.erase(std::remove_if(s.begin(), s.end(), std::isspace), s.end())`
unfoldable pub erase_spaces : String → String
erase_spaces nil = nil
erase_spaces (cons c s) =
    let rest = erase_spaces s in if is_space (code c) then rest else cons c rest

unfoldable pub trim_left : String → String
trim_left nil = nil
trim_left (cons c s) = let rest = trim_left s in if is_space (code c) then rest else cons c s

abbrev cons_unless_blank : Char → String → String
cons_unless_blank c nil = if is_space (code c) then nil else cons c nil
cons_unless_blank c (cons d s) = cons c (cons d s)

unfoldable pub trim_right : String → String
trim_right nil = nil
trim_right (cons c s) = cons_unless_blank c (trim_right s)

-- boost::trim
unfoldable pub trim : String → String
unfolding trim_left trim_right
trim s = trim_left (trim_right s)

-- `s.find(c)`: what stands before and behind the first `c`.
unfoldable pub split_at : ℕ → String → Option (String × String)
split_at k nil = none
split_at k (cons c s) =
    let rest = split_at k s in
    if nat_eq (code c) k
    then some (nil, s)
    else elim rest [ none ↦ none | some (before, behind) ↦ some (cons c before, behind) ]

abbrev pub cons_first : Char → List String → List String
cons_first c [] = (cons c nil) ∷ []
cons_first c (w ∷ ws) = (cons c w) ∷ ws

-- `boost::split(ws, s, boost::is_any_of(k))`: the text with no `k` in it is one word.
unfoldable pub split : ℕ → String → List String
split k nil = nil ∷ []
split k (cons c s) =
    let rest = split k s in if nat_eq (code c) k then nil ∷ rest else cons_first c rest

-- The words with a separator between them, as the loops with a flag `first` write them.
unfoldable pub join : String → List String → String
join sep [] = nil
join sep (w ∷ []) = w
join sep (w ∷ v ∷ ws) = w <> sep <> join sep (v ∷ ws)

-- `s.substr(n)`, for a position within the text; `none` past its end, where it throws.
unfoldable pub substr_from : ℕ → String → Option String
substr_from ℕ.zero s = some s
substr_from (ℕ.suc n) nil = none
substr_from (ℕ.suc n) (cons c s) = substr_from n s

split_test : split b',' "a,b,,c" ≡ "a" ∷ "b" ∷ "" ∷ "c" ∷ []
unfolding split
split_test = refl

trim_test : trim "  a b \n" ≡ "a b"
unfolding trim
trim_test = refl

split_at_test : split_at b':' "key: v:w" ≡ some ("key", " v:w")
unfolding split_at
split_at_test = refl

join_test : join ", " ("a" ∷ "b" ∷ []) ≡ "a, b"
unfolding join
join_test = refl
