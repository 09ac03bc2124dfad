-- ===== src/Ruby/RoundTrip.antt =====
-- A resource that goes to Ruby and comes back.
use mathlib.Core.List.{append_assoc, append-nil}
use libral.Base.{String, true, List, [], ◌∷◌, ◌++◌, ok, ◌≡◌, ◌≢◌, refl, All, ap, ◌∙◌, ==_false, sym}
use libral.Base.Dict.{Dict, IsOrdered}
use libral.Base.Text.{c_str}
use libral.Base.Text.Laws.{Free, c_str_id}
use libral.Base.Dict.{before}
use libral.Base.Dict.Order.{put_last, IsOrdered-front, before-ne}
use libral.Value.{Value, nothing, boolean, text, array}
use libral.Resource.{Resource, assign}
use libral.Ruby.Values.{
  RubyValue, value, list, entries, aset, string_value_cstr, read_entries, value_to_ruby,
  value_from_ruby, hash_of, resource_to_ruby, assign_all, resource_from_ruby,
}

-- A text with no NUL in it.
abbrev pub IsCString : String → Type 0
IsCString s = Free 0 s

-- A value that the binding takes back: a text or an array, with no NUL.
abbrev pub IsReadable : Value → Type 0
IsReadable nothing = ⊥
IsReadable (boolean b) = ⊥
IsReadable (text s) = IsCString s
IsReadable (array ss) = All IsCString ss

-- An attribute that can be set, with a value that the binding takes back.
abbrev pub IsSettable : String × Value → Type 0
IsSettable e = (e.0 ≢ "name") × IsCString e.0 × IsReadable e.1

string_value_cstr_ok : (s : String) → IsCString s → string_value_cstr s ≡ value s
unfolding string_value_cstr
string_value_cstr_ok s h = rw h refl

-- A hash with the attributes as they are.
abbrev plain : Dict Value → List (String × RubyValue)
plain [] = []
plain ((k, v) ∷ m) = (k, value_to_ruby v) ∷ plain m

aset_last :
    (k : String) (v : Value) (front : Dict Value)
    → All (λ (e : String × Value). before e.0 k ≡ true) front
    → aset k (value_to_ruby v) (plain front) ≡ plain (front ++ ((k, v) ∷ []))
unfolding aset
aset_last k v [] h = refl
aset_last k v ((j, w) ∷ front) h =
    rw (before-ne j k h.0) (ap (◌∷◌ (j, value_to_ruby w)) (aset_last k v front h.1))

hash_of-plain :
    (front m : Dict Value)
    → IsOrdered (front ++ m)
    → All IsSettable m
    → hash_of m (plain front) ≡ plain (front ++ m)
unfolding hash_of
hash_of-plain front [] ordered h = ap plain (sym (append-nil front))
hash_of-plain front ((k, v) ∷ m) ordered h =
    let last : aset (c_str k) (value_to_ruby v) (plain front) ≡ plain (front ++ ((k, v) ∷ [])) =
      ap (λ s. aset s (value_to_ruby v) (plain front)) (c_str_id k h.0.1)
      ∙ aset_last k v front (IsOrdered-front k v front m ordered) in
    ap (hash_of m) last
    ∙ hash_of-plain (front ++ ((k, v) ∷ [])) m (rw (append_assoc front ((k, v) ∷ []) m) ordered) h.1
    ∙ ap plain (append_assoc front ((k, v) ∷ []) m)

module _ (inspect : RubyValue → String) where
  read_entries-entries :
      (whole : RubyValue) (ss : List String)
      → All IsCString ss
      → read_entries inspect whole (entries ss) ≡ value ss
  unfolding read_entries entries
  read_entries-entries whole [] h = refl
  read_entries-entries whole (s ∷ ss) h =
      rw (c_str_id s h.0, string_value_cstr_ok s h.0, read_entries-entries whole ss h.1) refl

  value_from_ruby-value_to_ruby :
      (v : Value) → IsReadable v → value_from_ruby inspect (value_to_ruby v) ≡ value v
  unfolding value_from_ruby value_to_ruby
  value_from_ruby-value_to_ruby nothing h = absurd h
  value_from_ruby-value_to_ruby (boolean b) h = absurd h
  value_from_ruby-value_to_ruby (text s) h = rw (c_str_id s h, string_value_cstr_ok s h) refl
  value_from_ruby-value_to_ruby (array ss) h =
      rw (read_entries-entries (list (entries ss)) ss h) refl

  assign_last :
      (n k : String) (v : Value) (front back : Dict Value)
      → k ≢ "name"
      → IsOrdered (front ++ ((k, v) ∷ back))
      → assign (record { name = n; attrs = front }) k v
        ≡ ok (record { name = n; attrs = front ++ ((k, v) ∷ []) })
  unfolding assign
  assign_last n k v front back h ordered = rw (==_false k "name" h) (
      ap (λ (m : Dict Value). ok (record { name = n; attrs = m }))
        (put_last k v front (IsOrdered-front k v front back ordered)))

  assign_all-plain :
      (n : String) (front m : Dict Value)
      → IsOrdered (front ++ m)
      → All IsSettable m
      → assign_all inspect (plain m) (record { name = n; attrs = front })
        ≡ value (record { name = n; attrs = front ++ m })
  unfolding assign_all
  assign_all-plain n front [] ordered h =
      ap (λ (m : Dict Value). value (record { name = n; attrs = m })) (sym (append-nil front))
  assign_all-plain n front ((k, v) ∷ m) ordered h =
      rw
        (
          value_from_ruby-value_to_ruby v h.0.2,
          string_value_cstr_ok k h.0.1,
          assign_last n k v front m h.0.0 ordered,
        )
        (assign_all-plain n (front ++ ((k, v) ∷ [])) m
            (rw (append_assoc front ((k, v) ∷ []) m) ordered) h.1
          ∙ ap (λ (d : Dict Value). value (record { name = n; attrs = d }))
              (append_assoc front ((k, v) ∷ []) m))

  -- A resource whose attributes are in the order of their names, as a map has them, none of them called
  -- "name", and have texts and arrays as values, comes back from Ruby as it was, if no NUL stands in
  -- its name and in the names, texts and entries of its attributes.
  pub resource_from_ruby-resource_to_ruby :
      (r : Resource)
      → IsOrdered r.attrs
      → IsCString r.name
      → All IsSettable r.attrs
      → resource_from_ruby inspect (resource_to_ruby r) ≡ value r
  unfolding resource_from_ruby resource_to_ruby
  resource_from_ruby-resource_to_ruby r ordered n h =
      rw (c_str_id r.name n, string_value_cstr_ok r.name n, hash_of-plain [] r.attrs ordered h)
        (assign_all-plain r.name [] r.attrs ordered h)
