-- ===== src/Ssh/Laws.antt =====
-- What an SSH configuration can be relied on for.
use github_idea_os_app.Base.{
  String, ◌≡◌, refl, inl, inr, Bool, true, false, ◌&&◌, Bool-cases, string_eq, string_discrete,
  nat_eq, option_eq, is_nonempty,
}
use github_idea_os_app.Base.Dict.{Dict, get}
use github_idea_os_app.Base.Int.{ℤ}
use github_idea_os_app.Types.Value.{Value}
use github_idea_os_app.Ssh.{
  RuntimeSshConfig, enabled, disabled, is_true, trimmed, read_port, is_positive,
  positive_or_default, read_runtime_ssh_config,
}

abbrev pub is_enabled : RuntimeSshConfig → Bool
is_enabled (enabled host port user) = true
is_enabled (disabled host port user reason) = false

-- An enabled configuration names a host, a positive port and a user; another says why it is not.
abbrev pub is_usable : RuntimeSshConfig → Bool
is_usable (enabled host port user) = is_nonempty host && is_positive port && is_nonempty user
is_usable (disabled host port user reason) = is_nonempty reason

default_positive : (n : ℤ) → is_positive (positive_or_default n) ≡ true
default_positive n = elim (Bool-cases (is_positive n)) [ inl e ↦ rw e e | inr e ↦ rw e refl ]

reasons :
    (is_nonempty "SSH access is not enabled for this runtime." ≡ true)
    × (is_nonempty "SSH metadata is incomplete. Set ssh_host and ssh_user on the runtime." ≡ true)
unfolding string_discrete Bool-cases
reasons = (refl, refl)

-- For every metadata the configuration is enabled exactly when SSH is switched on and a host and a user
-- are given, and then it names a host, a user and a positive port; else it gives a reason.
pub read_runtime_ssh_config_lem :
    (metadata : Dict String Value)
    → (is_enabled (read_runtime_ssh_config metadata) ≡ (
        is_true (get "ssh_enabled" metadata)
        && is_nonempty (trimmed (get "ssh_host" metadata))
        && is_nonempty (trimmed (get "ssh_user" metadata))))
      × (is_usable (read_runtime_ssh_config metadata) ≡ true)
unfolding read_runtime_ssh_config
read_runtime_ssh_config_lem metadata =
    let (a, b) = reasons in
    elim (Bool-cases (is_true (get "ssh_enabled" metadata))) [
      | inr e ↦ rw (read_runtime_ssh_config, e) (refl, a)
      | inl e ↦ elim (Bool-cases (is_nonempty (trimmed (get "ssh_host" metadata)))) [
        | inr f ↦ rw (read_runtime_ssh_config, e, f) (refl, b)
        | inl f ↦ elim (Bool-cases (is_nonempty (trimmed (get "ssh_user" metadata)))) [
          | inr g ↦ rw (read_runtime_ssh_config, e, f, g) (refl, b)
          | inl g ↦
              rw (read_runtime_ssh_config, e, f, g)
                (refl, rw (default_positive (read_port (get "ssh_port" metadata)), f, g) refl)
        ]
      ]
    ]
