-- ===== src/Examples/Types.antt =====
-- Types of attributes and the metadata of providers at concrete inputs.
use libral.Base.{
  String, Bool, true, false, Option, none, some, List, [], ◌∷◌, Result, ok, err, ◌==◌,
  if◌then◌else◌, ◌≡◌, ◌↔◌, refl, All,
}
use libral.Base.Text.{◌<>◌, join}
use libral.Base.Dict.{find}
use libral.Value.{array}
use libral.Attr.{
  Spec, DataType, enum_type, array_type, read_write, show_type, show_kind, read_string,
}
use libral.Attr.Create.{create}
use libral.Attr.Reads.{HasType, read_string-HasType}
use libral.Attr.RoundTrip.{create-show, create-show-create}
use libral.Provider.{ProvSpec}
use libral.Metadata.Suitable.{
  Yaml, Items, no_items, item, no_entries, entry, string, boolean, hash, all_allow,
}
use libral.Metadata.Read.{read, spec_of, read-IsValid, IsValid}

-- The attribute `ensure` of a host.
abbrev ensure : Spec
ensure = record {
  name = "ensure";
  desc = "state";
  data_type = enum_type ("present" ∷ "absent" ∷ []);
  kind = read_write;
}

ensure_is : create "ensure" "state" "enum[ present,absent ]" "rw" ≡ ok ensure
unfolding create libral.Attr.create_kind libral.Attr.Create.read_type libral.Base.Text.erase_spaces
    libral.Attr.Create.read_enum_type libral.Base.Text.split_at libral.Attr.Create.read_brackets
    libral.Attr.Create.read_options libral.Base.Text.split libral.Attr.Create.check_option
    libral.Base.Text.trim libral.Base.Text.all_chars
ensure_is = refl

create-show_example :
    create "ensure" "state" (show_type ensure.data_type) (show_kind ensure.kind) ≡ ok ensure
unfolding libral.Base.Text.all_chars
create-show_example =
    create-show ensure
      (record { filled = refl; plain = refl }, (record { filled = refl; plain = refl }, tt))

create-show-create_example :
    create "ensure" "state" (show_type ensure.data_type) (show_kind ensure.kind) ≡ ok ensure
create-show-create_example =
    create-show-create "ensure" "state" "enum[ present,absent ]" "rw" ensure ensure_is

words_read : read_string array_type "a, b" ≡ ok (array ("a" ∷ "b" ∷ []))
unfolding read_string libral.Attr.read_array
words_read = refl

read_string-HasType_example : HasType array_type (array ("a" ∷ "b" ∷ []))
read_string-HasType_example =
    read_string-HasType array_type "a, b" (array ("a" ∷ "b" ∷ [])) words_read

-- A system that has `sh` only.
abbrev which : String → String
which cmd = if cmd == "sh" then "/bin/sh" else ""

abbrev demo_node : Yaml
demo_node = hash (
    entry (string "type") (string "demo") (
      entry (string "suitable") (boolean true) (
        entry (string "attributes") (hash (entry (string "name") (hash no_entries) no_entries))
          no_entries)))

abbrev demo : Yaml
demo = hash (entry (string "provider") demo_node no_entries)

abbrev name_spec : Spec
name_spec = record {
  name = "name";
  desc = "(missing description)";
  data_type = DataType.string_type;
  kind = read_write;
}

abbrev demo_spec : ProvSpec
demo_spec = spec_of demo_node "basic" (("name", name_spec) ∷ []) true

demo_read : read which (ok demo) "basic" true ≡ ok demo_spec
unfolding read libral.Metadata.Read.parse_failed libral.Metadata.Read.provider_node
    libral.Metadata.Suitable.hash_get libral.Metadata.Read.present libral.Metadata.Suitable.is_null
    libral.Metadata.Suitable.entry_at libral.Metadata.Suitable.is_key libral.Metadata.Read.read_node
    libral.Metadata.Read.attrs_of libral.Metadata.Read.read_attrs libral.Metadata.Read.read_attr
    create libral.Attr.create_kind libral.Metadata.Suitable.hash_get_string
    libral.Metadata.Suitable.as_string libral.Attr.Create.read_type libral.Base.Text.erase_spaces
    find libral.Base.Dict.insert libral.Base.Dict.put libral.Metadata.Read.check_name
    libral.Metadata.Read.decide_suitable libral.Metadata.Suitable.read_suitable
    libral.Metadata.Suitable.suitable_of
demo_read = refl

read-IsValid_example : IsValid demo_spec
read-IsValid_example = read-IsValid which (ok demo) "basic" true demo_spec demo_read
