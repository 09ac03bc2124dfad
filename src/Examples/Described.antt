-- ===== src/Examples/Described.antt =====
-- What providers say about themselves, at a concrete system.
use libral.Base.{String, true, false, Option, none, some, [], ◌∷◌, Result, ok, ◌≡◌, refl, arith}
use libral.Base.Text.{◌<>◌}
use libral.Attr.{Spec, DataType, read_write}
use libral.Provider.{ProvSpec}
use libral.Targets.Local.{System}
use libral.Targets.Local as Here
use libral.Targets.Session.{Local}
use libral.Ral.Target.{
  Ral, create, connect, command, script, which, done, connecting, commanding, local-command,
}
use libral.Metadata.Suitable.{
  Yaml, Items, Entries, no_items, item, no_entries, entry, string, array, hash, hash_get, entry_at,
}
use libral.Metadata.Read.{spec_of}
use libral.Metadata.Environment.{IsFound}
use libral.Accounts.Describe.{describe_user, describe_user-IsFound, find_commands}

-- A system on which every command is found.
abbrev server : System String
server = record {
  execute = λ path args input w.
      (record { success = true; output = ""; error = ""; exit_code = "0" }, path);
  each_line = λ path args w. (record { lines = []; success = true }, path);
  which = λ cmd w. "/usr/sbin/" <> cmd;
  access = λ path w. true;
  stream_in = λ path w. "";
  stream_out = λ path text w. w;
}

abbrev suitable_for : Items → Entries
suitable_for commands = entry (string "commands") (array commands) no_entries

abbrev node_for : String → Items → Yaml
node_for type commands = hash (
    entry (string "type") (string type) (
      entry (string "suitable") (hash (suitable_for commands)) (
        entry (string "attributes") (hash (entry (string "name") (hash no_entries) no_entries))
          no_entries)))

abbrev metadata : String → Items → Yaml
metadata type commands = hash (entry (string "provider") (node_for type commands) no_entries)

abbrev user_commands : Items
user_commands = item (string "useradd") (item (string "usermod") (item (string "userdel") no_items))

abbrev name_spec : Spec
name_spec = record {
  name = "name";
  desc = "(missing description)";
  data_type = DataType.string_type;
  kind = read_write;
}

abbrev spec_for : String → Items → ProvSpec
spec_for type commands = spec_of (node_for type commands) type (("name", name_spec) ∷ []) true

user_described :
    (describe_user server (ok (metadata "user" user_commands)) true "").0
    ≡ ok (spec_for "user" user_commands)
unfolding describe_user libral.Metadata.Environment.parse_spec libral.Metadata.Read.read
    libral.Metadata.Read.parse_failed libral.Metadata.Read.provider_node
    libral.Metadata.Suitable.hash_get libral.Metadata.Read.present libral.Metadata.Suitable.is_null
    libral.Metadata.Suitable.entry_at libral.Metadata.Suitable.is_key libral.Metadata.Read.read_node
    libral.Metadata.Read.attrs_of libral.Metadata.Read.read_attrs libral.Metadata.Read.read_attr
    libral.Attr.Create.create libral.Attr.create_kind libral.Metadata.Suitable.hash_get_string
    libral.Accounts.Describe.all_held find_commands libral.Attr.Create.read_type
    libral.Base.Dict.find libral.Base.Dict.insert libral.Base.Dict.put libral.Base.Text.erase_spaces
    libral.Metadata.Read.check_name libral.Metadata.Read.decide_suitable
    libral.Metadata.Suitable.all_allow libral.Metadata.Suitable.allows
    libral.Metadata.Suitable.as_string libral.Metadata.Suitable.commands_allow
    libral.Metadata.Suitable.read_suitable libral.Metadata.Suitable.suitable_of
    libral.Metadata.Suitable.text_of libral.Targets.Local.command
user_described = refl

describe_user-IsFound_example :
    (true ≡ true)
    × IsFound server "" "useradd"
        (describe_user server (ok (metadata "user" user_commands)) true "").1.add
    × IsFound server "" "usermod"
        (describe_user server (ok (metadata "user" user_commands)) true "").1.mod_account
    × IsFound server "" "userdel"
        (describe_user server (ok (metadata "user" user_commands)) true "").1.del
unfolding spec_of
describe_user-IsFound_example =
    describe_user-IsFound server "" (ok (metadata "user" user_commands)) true
      (spec_for "user" user_commands) user_described refl

-- ssh and scp that fail.
abbrev unreachable : Local String
unreachable = record {
  execute = λ file args input w.
      (record { success = false; output = ""; error = "refused"; exit_code = "255" }, "tried");
  each_line = λ file args w. (record { lines = []; success = false }, w);
  filename = λ path. path;
  slash = λ dir name. dir <> "/" <> name;
}

abbrev at_home : Ral String
at_home = create ("/usr/share/ral" ∷ []) ""

abbrev tried : Ral String
tried = (connect server unreachable "root@db" true false at_home).1

abbrev searched : Ral String
searched = (command server unreachable "useradd" tried).1

searched-local : searched.local ≡ true
unfolding command connect libral.Targets.Ssh.connect libral.Targets.Session.run_ssh
    libral.Targets.Session.run create
searched-local = refl

local-command_example :
    (command server unreachable "mount" searched
      ≡ (Here.command server "mount" searched.world, searched))
    × (script server unreachable "mount" searched
        ≡ (Here.script server "mount" searched.world, searched))
    × (which server unreachable "mount" searched ≡ (server.which "mount" searched.world, searched))
local-command_example =
    local-command server unreachable ("/usr/share/ral" ∷ []) "" searched
      (commanding "useradd" (connecting "root@db" true false done)) searched-local "mount"
