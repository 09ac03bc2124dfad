-- ===== src/Examples/Remotes.antt =====
-- Targets that are reached with ssh, at concrete inputs.
use libral.Base.{String, Bool, true, false, List, ◌∷◌, [], ◌++◌, ◌≡◌, refl, All, ok}
use libral.Command.{Status, Shell, run as run_command}
use libral.Targets.Running.{ran, placed, command_runs}
use libral.Simple.Protocol.{Reply}
use libral.Targets.Session.{Local, Remote, Session, ssh_opts}
use libral.Targets.Ssh.{target_of, upload}
use libral.Targets.Traffic.{
  Made, recording, IsLine, ◌⟶*◌, uploading, here, after, tmpdir_stays, traffic_reaches_target,
}

abbrev printing : Bool → String → Status
printing good out = record { success = good; output = out; error = "refused"; exit_code = "0" }

-- A target on which every program works and prints one directory, and one on which only the first
-- program works.
abbrev working : List Made → Status
working made = printing true "/tmp/ral1"

abbrev no_lines : List Made → Reply
no_lines made = record { lines = []; success = true }

abbrev last_part : String → String
last_part path = "hosts"

abbrev server : Remote
server = record { target = "root@db"; sudo = true; keep = false }

abbrev connected : Session (List Made)
connected = record { tmpdir = ""; world = [] }

abbrev prepared : Session (List Made)
prepared = record {
  tmpdir = "/tmp/ral1";
  world = ("ssh", ssh_opts ++ ("root@db" ∷ "mktemp" ∷ "-t" ∷ "-d" ∷ "ralXXXXXX" ∷ [])) ∷ [];
}

abbrev uploaded : Session (List Made)
uploaded = (upload (recording working no_lines last_part) server "/usr/share/hosts" connected).1

-- Another upload, and a run of what was uploaded.
abbrev worked : Session (List Made)
worked = (upload (recording working no_lines last_part) server "/usr/share/hosts" prepared).1

upload_steps : ◌⟶*◌ (recording working no_lines last_part) server prepared worked
upload_steps = after (uploading "/usr/share/hosts") here

tmpdir_stays_example : worked.tmpdir ≡ "/tmp/ral1"
tmpdir_stays_example =
    tmpdir_stays (recording working no_lines last_part) server prepared worked upload_steps refl

abbrev first_steps : Session (List Made)
first_steps = (upload (recording working no_lines last_part) server "/usr/share/hosts" connected).1

steps_from_start : ◌⟶*◌ (recording working no_lines last_part) server connected first_steps
steps_from_start = after (uploading "/usr/share/hosts") here

traffic_reaches_target_example : All (λ m. IsLine server m.0 m.1) first_steps.world
traffic_reaches_target_example =
    traffic_reaches_target working no_lines last_part server connected first_steps steps_from_start
      tt

-- A script that has not been uploaded yet.
abbrev new_script : Shell (Session (List Made))
new_script = record {
  cmd = record { path = "/usr/share/libral/demo.prov"; needs_upload = true };
  world = connected;
}

abbrev recorder : Local (List Made)
recorder = recording working no_lines last_part

command_runs_example :
    run_command (target_of recorder server) ("list" ∷ []) new_script
    ≡ (ok tt, ran recorder server ("list" ∷ []) (placed recorder server new_script))
command_runs_example =
    command_runs recorder server (λ file args stdin w. refl) ("list" ∷ []) new_script
