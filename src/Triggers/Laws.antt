-- ===== src/Triggers/Laws.antt =====
-- What normalized triggers satisfy.
use github_idea_os_app.Base.{
  ℕ, suc, String, ◌≡◌, refl, inl, inr, Bool, true, false, not, ◌&&◌, Option, some, List, [], ◌∷◌,
  arith, if◌then◌else◌, Bool-cases, Option-cases, ◌==◌, string_eq, string_discrete, nat_eq,
  option_eq, get_or, is_empty, All,
}
use github_idea_os_app.Base.Dict.{Dict, get, set, get-set}
use github_idea_os_app.Base.Text.{is_blank, trim}
use native.Mathlib.Decide.{ℕ_discrete}
use github_idea_os_app.Types.Value.{Value, text}
use github_idea_os_app.Types.Agent.{AgentTrigger}
use github_idea_os_app.Triggers.{
  AgentTriggerType, on_assign, on_comment, on_mention, on_scheduled, default_cron, default_timezone,
  is_missing, normalize_trigger_config, as_trigger_type, normalize_from, default_agent_triggers,
  normalize_agent_triggers,
}

-- A configuration says when to run: its cron line and its time zone are texts that are not blank.
abbrev pub has_schedule : Dict String Value → Bool
has_schedule config =
    not (is_missing (get "cron" config)) && not (is_missing (get "timezone" config))

-- A scheduled trigger says when to run.
abbrev pub can_run : AgentTriggerType → Dict String Value → Bool
can_run on_scheduled config = has_schedule config
can_run _ config = true

other_key : (◌==◌ {A = String} "timezone" "cron") ≡ false
unfolding string_discrete Bool-cases
other_key = refl

defaults_given :
    (is_missing (some (text default_cron)) ≡ false)
    × (is_missing (some (text default_timezone)) ≡ false)
unfolding is_missing is_blank ℕ_discrete
defaults_given = (refl, refl)

-- A map in which a key has a text that is not blank: as it was, or set.
abbrev with_default : String → String → Dict String Value → Dict String Value
with_default key value config =
    if is_missing (get key config) then set key (text value) config else config

eq_self : (key : String) → (key == key) ≡ true
eq_self key = ground arith

given :
    (key value : String) (config : Dict String Value)
    → is_missing (some (text value)) ≡ false
    → is_missing (get key (with_default key value config)) ≡ false
given key value config d = elim (Bool-cases (is_missing (get key config))) [
  | inl e ↦ rw (e, get-set key key (text value) config, eq_self key) d
  | inr e ↦ rw (e, e) refl
]

untouched :
    (key other value : String) (config : Dict String Value)
    → (key == other) ≡ false
    → get other (with_default key value config) ≡ get other config
untouched key other value config n = ground (arith, get-set key other (text value) config, n)

scheduled_config :
    (config : Option (Dict String Value))
    → has_schedule (normalize_trigger_config on_scheduled config) ≡ true
unfolding normalize_trigger_config
scheduled_config config =
    let (d, t) = defaults_given in
    let m = with_default "cron" default_cron (get_or config []) in
    rw
      (
        given "timezone" default_timezone m t,
        untouched "timezone" "cron" default_timezone m other_key,
        given "cron" default_cron (get_or config []) d,
      )
      refl

keeps :
    (config : Dict String Value)
    → has_schedule config ≡ true
    → normalize_trigger_config on_scheduled (some config) ≡ config
unfolding normalize_trigger_config
keeps config h = ground arith

normal_config :
    (type : AgentTriggerType) (config : Option (Dict String Value))
    → can_run type (normalize_trigger_config type config) ≡ true
normal_config on_assign config = refl
normal_config on_comment config = refl
normal_config on_mention config = refl
normal_config on_scheduled config = scheduled_config config

normal_from :
    (to_text : ℕ → String) (n : ℕ) (raw : List AgentTrigger)
    → All (λ t. can_run t.type t.config ≡ true) (normalize_from to_text n raw)
unfolding normalize_from
normal_from to_text n [] = tt
normal_from to_text n (t ∷ raw) = elim (Option-cases (as_trigger_type (trim t.type))) [
  | inl e ↦ rw (normalize_from, e) (normal_from to_text (suc n) raw)
  | inr (type, e) ↦
      rw (normalize_from, e) (normal_config type t.config, normal_from to_text (suc n) raw)
]

default_schedule : All (λ t. can_run t.type t.config ≡ true) default_agent_triggers
unfolding get is_missing is_blank ℕ_discrete string_discrete Bool-cases
default_schedule = (refl, (refl, (refl, (refl, tt))))

-- For every list of triggers the result is not empty, and every scheduled trigger of it says when to
-- run.
pub normalize_agent_triggers_lem :
    (to_text : ℕ → String) (raw : Option (List AgentTrigger))
    → (is_empty (normalize_agent_triggers to_text raw) ≡ false)
      × All (λ t. can_run t.type t.config ≡ true) (normalize_agent_triggers to_text raw)
unfolding normalize_agent_triggers
normalize_agent_triggers_lem to_text raw =
    elim (Bool-cases (is_empty (normalize_from to_text 0 (get_or raw [])))) [
      | inl e ↦ rw e (refl, default_schedule)
      | inr e ↦ rw e (e, normal_from to_text 0 (get_or raw []))
    ]

-- Normalizing a configuration again changes nothing.
pub normalize_trigger_config_idem :
    (type : AgentTriggerType) (config : Option (Dict String Value))
    → normalize_trigger_config type (some (normalize_trigger_config type config))
      ≡ normalize_trigger_config type config
unfolding normalize_trigger_config
normalize_trigger_config_idem on_assign config = refl
normalize_trigger_config_idem on_comment config = refl
normalize_trigger_config_idem on_mention config = refl
normalize_trigger_config_idem on_scheduled config =
    keeps (normalize_trigger_config on_scheduled config) (scheduled_config config)
