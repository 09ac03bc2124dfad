-- ===== src/Examples/Bindings.antt =====
-- The binding for Ruby at concrete inputs.
use libral.Base.{String, Bool, [], ◌∷◌, ◌≡◌, ◌≢◌, refl, arith, eq_iff, All}
use libral.Base.Dict.{IsOrdered}
use libral.Base.Text.{c_str, all_chars}
use libral.Value.{text, array, boolean}
use libral.Resource.{Resource}
use libral.Ruby.Values.{
  RubyValue, truth, string_value, value, raises, provider_error, value_to_ruby, value_from_ruby,
  resource_to_ruby, resource_from_ruby,
}
use libral.Ruby.RoundTrip.{IsSettable, resource_from_ruby-resource_to_ruby}

abbrev shown : RubyValue → String
shown (truth b) = "true"
shown v = "value"

abbrev bob : Resource
bob = record {
  name = "bob";
  attrs = ("ensure", text "present") ∷ ("groups", array ("wheel" ∷ [])) ∷ [];
}

bob-IsOrdered : IsOrdered bob.attrs
bob-IsOrdered = ((refl, tt), (tt, tt))

ensure_ne : ◌≢◌ {A = String} "ensure" "name"
ensure_ne = ground (arith, eq_iff "ensure" "name")

groups_ne : ◌≢◌ {A = String} "groups" "name"
groups_ne = ground (arith, eq_iff "groups" "name")

bob-IsSettable : All IsSettable bob.attrs
unfolding all_chars
bob-IsSettable = ((ensure_ne, refl, refl), ((groups_ne, refl, (refl, tt)), tt))

resource_from_ruby-resource_to_ruby_example :
    resource_from_ruby shown (resource_to_ruby bob) ≡ value bob
unfolding all_chars
resource_from_ruby-resource_to_ruby_example =
    resource_from_ruby-resource_to_ruby shown bob bob-IsOrdered refl bob-IsSettable

-- A Boolean does not come back.
boolean_test :
    value_from_ruby shown (value_to_ruby (boolean Bool.true))
    ≡ raises provider_error "cannot convert true to a libral::value"
unfolding value_from_ruby value_to_ruby
boolean_test = refl

-- What stands behind a NUL does not go to Ruby, and a string with one is refused.
nul_test : value_to_ruby (text "a\0b") ≡ string_value "a"
unfolding value_to_ruby c_str
nul_test = refl
