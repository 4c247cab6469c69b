-- ===== src/WorkspaceStore/Identity.antt =====
-- The three places that keep the workspace's identity.
use github_idea_os_app.Base.{
  String, ◌≡◌, refl, sym, ◌∙◌, inl, inr, Option, none, some, List, [], ◌∷◌, arith, if◌then◌else◌,
  Option-cases, ◌==◌, string_eq, nat_eq, option_eq, find, map_option,
}
use github_idea_os_app.Base.Async.{Response, resolved, rejected}
use github_idea_os_app.Types.Workspace.{Workspace, MemberWithUser}
use github_idea_os_app.Types.Agent.{Agent, AgentUpdates, Skill}
use github_idea_os_app.WorkspaceStore.{
  AppState, choose, set_identity, hydrate_start, hydrate_end, switch_workspace,
  refresh_workspaces_end, refresh_members_end, refresh_agents_end, update_agent, refresh_skills_end,
  upsert_skill, remove_skill, create_workspace_end, update_workspace, leave_end, clear_workspace,
}

-- The parts of the actions of the store; an action waits between its parts, and other parts may run
-- there. What a part got from an earlier one is any value.
pub data Action : Type 0 where
  hydrate : List Workspace → Option String → Action
  hydrated : Response (List MemberWithUser) → Response (List Agent) → Response (List Skill) → Action
  switch : String → Action
  refreshed_workspaces : Option String → Response (List Workspace) → Action
  refreshed_members : Response (List MemberWithUser) → Action
  refreshed_agents : Response (List Agent) → Action
  updated_agent : String → AgentUpdates → Action
  refreshed_skills : List Skill → Response (List Skill) → Action
  upserted_skill : Skill → Action
  removed_skill : String → Action
  created_workspace : Workspace → Action
  updated_workspace : Workspace → Action
  left : List Workspace → Option String → Action
  cleared : Action

unfoldable pub step : Action → AppState → AppState
step (hydrate ws_list preferred) s = (hydrate_start ws_list preferred s).0
step (hydrated members agents skills) s = hydrate_end members agents skills s
step (switch id) s = (switch_workspace id s).0
step (refreshed_workspaces preferred response) s = (refresh_workspaces_end preferred response s).0
step (refreshed_members response) s = refresh_members_end response s
step (refreshed_agents response) s = refresh_agents_end response s
step (updated_agent id updates) s = update_agent id updates s
step (refreshed_skills existing response) s = refresh_skills_end existing response s
step (upserted_skill skill) s = upsert_skill skill s
step (removed_skill id) s = remove_skill id s
step (created_workspace ws) s = create_workspace_end ws s
step (updated_workspace ws) s = update_workspace ws s
step (left ws_list preferred) s = (leave_end ws_list preferred s).0
step cleared s = clear_workspace s

unfoldable pub run : List Action → AppState → AppState
unfolding step
run [] s = s
run (a ∷ actions) s = run actions (step a s)

-- The API client and the browser's storage name the workspace that is open, or none.
abbrev pub IsConsistent : AppState → Type 0
IsConsistent s =
    (s.api_workspace_id ≡ map_option (λ w. w.id) s.workspace)
    × (s.stored_workspace_id ≡ map_option (λ w. w.id) s.workspace)

hydrate_start-IsConsistent :
    (ws_list : List Workspace) (preferred : Option String) (s : AppState)
    → IsConsistent (hydrate_start ws_list preferred s).0
unfolding hydrate_start
hydrate_start-IsConsistent ws_list preferred s = elim (Option-cases (choose ws_list preferred)) [
  | inl e ↦ rw (hydrate_start, e) (refl, refl)
  | inr (w, e) ↦ rw (hydrate_start, e) (refl, refl)
]

switch_workspace-IsConsistent :
    (id : String) (s : AppState) → IsConsistent s → IsConsistent (switch_workspace id s).0
unfolding switch_workspace
switch_workspace-IsConsistent id s c = elim (Option-cases (find (λ w. w.id == id) s.workspaces)) [
  | inl e ↦ rw (switch_workspace, e) c
  | inr (w, e) ↦ rw (switch_workspace, e) (hydrate_start-IsConsistent s.workspaces (some w.id) _)
]

-- An update of the open workspace keeps its id.
update_keeps :
    (ws : Workspace) (current : Option Workspace)
    → map_option
        (λ w. w.id)
        (if map_option (λ w. w.id) current == some ws.id then some ws else current)
      ≡ map_option (λ w. w.id) current
update_keeps ws none = ground arith
update_keeps ws (some w) = ground arith

step-IsConsistent : (a : Action) (s : AppState) → IsConsistent s → IsConsistent (step a s)
unfolding step hydrate_end refresh_workspaces_end refresh_members_end refresh_agents_end
    update_agent refresh_skills_end upsert_skill remove_skill create_workspace_end update_workspace
    leave_end clear_workspace set_identity
step-IsConsistent (hydrate ws_list preferred) s c = hydrate_start-IsConsistent ws_list preferred s
step-IsConsistent (hydrated members agents skills) s c = c
step-IsConsistent (switch id) s c = switch_workspace-IsConsistent id s c
step-IsConsistent (refreshed_workspaces preferred (resolved ws_list)) s c =
    hydrate_start-IsConsistent ws_list preferred s
step-IsConsistent (refreshed_workspaces preferred rejected) s c = c
step-IsConsistent (refreshed_members (resolved members)) s c = c
step-IsConsistent (refreshed_members rejected) s c = c
step-IsConsistent (refreshed_agents (resolved agents)) s c = c
step-IsConsistent (refreshed_agents rejected) s c = c
step-IsConsistent (updated_agent id updates) s c = c
step-IsConsistent (refreshed_skills existing (resolved skills)) s c = c
step-IsConsistent (refreshed_skills existing rejected) s c = c
step-IsConsistent (upserted_skill skill) s c = c
step-IsConsistent (removed_skill id) s c = c
step-IsConsistent (created_workspace ws) s c = c
step-IsConsistent (updated_workspace ws) s (c, d) =
    (c ∙ sym (update_keeps ws s.workspace), d ∙ sym (update_keeps ws s.workspace))
step-IsConsistent (left ws_list preferred) s c = hydrate_start-IsConsistent ws_list preferred s
step-IsConsistent cleared s c = (refl, refl)

-- Through every sequence of the parts of the store's actions, in every order, the API client and the
-- browser's storage name the workspace that is open, if they did so at the start.
pub run-IsConsistent :
    (actions : List Action) (s : AppState) → IsConsistent s → IsConsistent (run actions s)
unfolding run
run-IsConsistent [] s c = c
run-IsConsistent (a ∷ actions) s c = run-IsConsistent actions (step a s) (step-IsConsistent a s c)
