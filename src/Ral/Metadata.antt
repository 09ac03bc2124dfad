-- ===== src/Ral/Metadata.antt =====
-- `ral::get_metadata`, `run_describe` and `find_in_data_dirs`.
use libral.Base.{
  String, not, Option, none, some, List, [], ◌∷◌, if◌then◌else◌, Result, ok, err, Exec, pure, lift,
}
use libral.Base.Do.{◌>>=◌}
use libral.Base.Text.{◌<>◌, empty}
use libral.Command.{Status, Target, Shell, executable, execute}

-- what `run_describe` makes of the status of 'ral_action=describe'
unfoldable pub described : Status → Result String
described res =
    if not res.success
    then (if empty res.output
        then err ("ignored as it exited with status " <> res.exit_code)
        else err (
            "ignored as it exited with status " <> res.exit_code <> ". Output was '" <> res.output
            <> "'"))
    else if not (empty res.error)
    then err ("ignored as it produced stderr '" <> res.error <> "'")
    else ok res.output

unfoldable pub not_executable : String → String
not_executable path = "file " <> path <> " looks like a provider but is not executable"

module _ {W : Type 0} (tgt : Target W) where
  unfoldable pub run_describe : Exec (Shell W) String
  run_describe = do
    runs ← executable tgt
    if runs
        then (do res ← execute tgt ("ral_action=describe" ∷ []) none; lift (described res))
        else (λ s. (err (not_executable s.cmd.path), s))

  -- `yaml` is the content of the '.yaml' file beside the provider, if it can be read.
  unfoldable pub get_metadata : Option String → Exec (Shell W) String
  get_metadata yaml = elim yaml [ none ↦ run_describe | some content ↦ pure content ]

-- `find_in_data_dirs(file)`; `canonical` is `boost::filesystem::canonical`.
unfoldable pub find_in_data_dirs :
    (String → String → Option String) → String → List String → Option String
find_in_data_dirs canonical file [] = none
find_in_data_dirs canonical file (dir ∷ dirs) =
    let rest = find_in_data_dirs canonical file dirs in
    elim (canonical file dir) [ none ↦ rest | some p ↦ some p ]
