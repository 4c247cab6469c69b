-- ===== src/Ssh/Tests.antt =====
-- Metadata as a daemon registers them, with the port as a text.
use github_idea_os_app.Base.{
  String, ◌≡◌, refl, true, ◌&&◌, some, [], ◌∷◌, string_eq, nat_eq, option_eq, is_nonempty,
}
use github_idea_os_app.Base.Dict.{Dict, get}
use github_idea_os_app.Base.Int.{pos, negsuc}
use github_idea_os_app.Types.Value.{Value, boolean, text}
use github_idea_os_app.Ssh.{parse_int, parse_digits, is_true, trimmed, read_runtime_ssh_config}
use github_idea_os_app.Ssh.Laws.{is_enabled, is_usable, read_runtime_ssh_config_lem}
use native.Mathlib.Decide.{ℕ_discrete}

abbrev metadata : Dict String Value
metadata =
    ("ssh_enabled", boolean true)
    ∷ ("ssh_host", text " h ")
    ∷ ("ssh_user", text "u")
    ∷ ("ssh_port", text "2222x")
    ∷ []

reads_prefix : parse_int "2222x" ≡ some (pos 2222)
unfolding parse_int parse_digits ℕ_discrete
reads_prefix = refl

reads_sign : parse_int "-5" ≡ some (negsuc 4)
unfolding parse_int parse_digits ℕ_discrete
reads_sign = refl

read_runtime_ssh_config_lem_example :
    (is_enabled (read_runtime_ssh_config metadata) ≡ (
      is_true (get "ssh_enabled" metadata)
      && is_nonempty (trimmed (get "ssh_host" metadata))
      && is_nonempty (trimmed (get "ssh_user" metadata))))
    × (is_usable (read_runtime_ssh_config metadata) ≡ true)
read_runtime_ssh_config_lem_example = read_runtime_ssh_config_lem metadata
