-- ===== src/Triggers/Tests.antt =====
-- A scheduled trigger with a blank cron line.
use github_idea_os_app.Base.{
  String, ◌≡◌, true, false, Option, none, some, List, [], ◌∷◌, string_eq, nat_eq, option_eq,
  is_empty, All,
}
use github_idea_os_app.Base.Dict.{Dict}
use github_idea_os_app.Types.Value.{Value, text}
use github_idea_os_app.Types.Agent.{AgentTrigger}
use github_idea_os_app.Triggers.{normalize_agent_triggers}
use github_idea_os_app.Triggers.Laws.{can_run, normalize_agent_triggers_lem}

abbrev config : Option (Dict String Value)
config = some (("cron", text " ") ∷ [])

abbrev triggers : Option (List AgentTrigger)
triggers =
    some (record { id = none; type = " on_scheduled "; enabled = none; config = config } ∷ [])

normalize_agent_triggers_lem_example :
    (is_empty (normalize_agent_triggers (λ n. "0") triggers) ≡ false)
    × All (λ t. can_run t.type t.config ≡ true) (normalize_agent_triggers (λ n. "0") triggers)
normalize_agent_triggers_lem_example = normalize_agent_triggers_lem (λ n. "0") triggers
