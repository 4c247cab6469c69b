-- ===== src/Triggers.antt =====
-- apps/web/shared/agent-triggers.ts. `to_text` stands for the text of a number in a template.
pub mod Laws
mod Tests
use github_idea_os_app.Base.{
  ℕ, zero, suc, ◌+◌, ◌-◌, ◌*◌, ◌/◌, ◌%◌, ◌≤◌, ◌<◌, Ordering, compare, String, ◌≡◌, refl, sym, ap,
  subst, ◌∙◌, ◌≢◌, ◌↔◌, ◌⊎◌, inl, inr, Bool, true, false, not, ◌&&◌, ◌||◌, Option, none, some, List,
  [], ◌∷◌, ◌++◌, map, arith, if◌then◌else◌, Bool-cases, Option-cases, Eq, ◌==◌, string_eq,
  string_discrete, nat_eq, option_eq, ltb, leb, get_or, or_else, is_some, is_nonempty, is_truthy,
  length, any, filter, find, head?, is_empty, All, length-append, length-filter-le, any-append,
  any-filter, filter-append, includes, has, IsUnique, IsUnique-concat, IsUnique-filter, has-map,
  IsUnique-map, map_option, find_key, remove_key, map_key, add_new, has-find_key, find_key-append,
  find_key-remove_key, any-eq_true, All-append, All-filter, All-of_forall, All-imp, All-filter-map,
  eq_nil_of_All, map-congr, map-map, All-zip, All-of_none, All-filter_self, any_of_All, All-mem,
  Mem, Perm, find_key-map_key, find_key-add_new, IsUnique-add_new, IsUnique-map_key,
}
use github_idea_os_app.Base.Dict.{Dict, get, set}
use github_idea_os_app.Base.Text.{is_blank, trim}
use github_idea_os_app.Types.Value.{Value, null, boolean, number, text, array, object}
use github_idea_os_app.Types.Agent.{AgentTrigger}
use Prim.Native.String.{◌++◌ as text_append}

pub data AgentTriggerType : Type 0 where
  on_assign on_comment on_mention on_scheduled : AgentTriggerType

-- The text of a type.
abbrev pub type_text : AgentTriggerType → String
type_text on_assign = "on_assign"
type_text on_comment = "on_comment"
type_text on_mention = "on_mention"
type_text on_scheduled = "on_scheduled"

abbrev pub agent_trigger_types : List AgentTriggerType
agent_trigger_types = on_assign ∷ on_comment ∷ on_mention ∷ on_scheduled ∷ []

abbrev pub default_cron : String
default_cron = "0 9 * * 1-5"

abbrev pub default_timezone : String
default_timezone = "UTC"

pub record NormalizedAgentTrigger : Type 0 where
  pub id : String
  pub type : AgentTriggerType
  pub enabled : Bool
  pub config : Dict String Value

-- `typeof v !== "string" || v.trim() === ""`
unfoldable pub is_missing : Option Value → Bool
is_missing (some (text s)) = is_blank s
is_missing _ = true

unfoldable pub normalize_trigger_config :
    AgentTriggerType → Option (Dict String Value) → Dict String Value
normalize_trigger_config on_scheduled config =
    let normalized = get_or config [] in
    let with_cron =
      if is_missing (get "cron" normalized)
      then set "cron" (text default_cron) normalized
      else normalized in
    if is_missing (get "timezone" with_cron)
    then set "timezone" (text default_timezone) with_cron
    else with_cron
normalize_trigger_config _ config = get_or config []

-- `isAgentTriggerType`, with the type that a text names.
unfoldable pub as_trigger_type : String → Option AgentTriggerType
as_trigger_type value = find (λ t. type_text t == value) agent_trigger_types

module _ (to_text : ℕ → String) where
  -- `trigger.id?.trim() || …`
  unfoldable pub trigger_id : Option String → AgentTriggerType → ℕ → String
  trigger_id none type index = text_append (type_text type) (text_append "-" (to_text index))
  trigger_id (some id) type index =
      if is_nonempty (trim id)
      then trim id
      else text_append (type_text type) (text_append "-" (to_text index))

  -- The `map` and the `filter`, from an index on.
  unfoldable pub normalize_from : ℕ → List AgentTrigger → List NormalizedAgentTrigger
  normalize_from index [] = []
  normalize_from index (trigger ∷ triggers) =
      let rest = normalize_from (suc index) triggers in
      elim (as_trigger_type (trim trigger.type)) [
        | none ↦ rest
        | some type ↦
            record {
              id = trigger_id trigger.id type index;
              type = type;
              enabled = get_or trigger.enabled true;
              config = normalize_trigger_config type trigger.config;
            }
            ∷ rest
      ]

abbrev pub default_agent_triggers : List NormalizedAgentTrigger
default_agent_triggers =
    record { id = "on_assign-default"; type = on_assign; enabled = true; config = [] }
    ∷ record { id = "on_comment-default"; type = on_comment; enabled = true; config = [] }
    ∷ record { id = "on_mention-default"; type = on_mention; enabled = true; config = [] }
    ∷ record {
      id = "on_scheduled-default";
      type = on_scheduled;
      enabled = false;
      config = ("cron", text default_cron) ∷ ("timezone", text default_timezone) ∷ [];
    }
    ∷ []

unfoldable pub normalize_agent_triggers :
    (ℕ → String) → Option (List AgentTrigger) → List NormalizedAgentTrigger
normalize_agent_triggers to_text raw_triggers =
    let normalized = normalize_from to_text 0 (get_or raw_triggers []) in
    if is_empty normalized then default_agent_triggers else normalized
