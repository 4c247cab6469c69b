-- ===== src/WorkspaceStore.antt =====
-- apps/web/features/workspace/store.ts, with what it changes elsewhere: the workspace id of the API
-- client, the one kept in `localStorage`, and the stores of issues, inbox and runtimes. An
-- asynchronous action is cut at its `await`. Toasts and logs are left out.
pub mod Identity
pub mod Switch
pub mod Skills
mod Tests
use github_idea_os_app.Base.{
  ℕ, zero, suc, ◌+◌, ◌-◌, ◌*◌, ◌/◌, ◌%◌, ◌≤◌, ◌<◌, Ordering, compare, String, ◌≡◌, refl, sym, ap,
  subst, ◌∙◌, ◌≢◌, ◌↔◌, ◌⊎◌, inl, inr, Bool, true, false, not, ◌&&◌, ◌||◌, Option, none, some, List,
  [], ◌∷◌, ◌++◌, map, arith, if◌then◌else◌, Bool-cases, Option-cases, Eq, ◌==◌, string_eq,
  string_discrete, nat_eq, option_eq, ltb, leb, get_or, or_else, is_some, is_nonempty, is_truthy,
  length, any, filter, find, head?, is_empty, All, length-append, length-filter-le, any-append,
  any-filter, filter-append, includes, has, IsUnique, IsUnique-concat, IsUnique-filter, has-map,
  IsUnique-map, map_option, find_key, remove_key, map_key, add_new, has-find_key, find_key-append,
  find_key-remove_key, any-eq_true, All-append, All-filter, All-of_forall, All-imp, All-filter-map,
  eq_nil_of_All, map-congr, map-map, All-zip, All-of_none, All-filter_self, any_of_All, All-mem,
  Mem, Perm, find_key-map_key, find_key-add_new, IsUnique-add_new, IsUnique-map_key,
}
use github_idea_os_app.Base.Async.{Response, resolved, rejected, answered}
use github_idea_os_app.Base.Dict.{Dict, get, set}
use github_idea_os_app.Types.Workspace.{Workspace, MemberWithUser}
use github_idea_os_app.Types.Agent.{Agent, AgentUpdates, spread_agent, Skill, SkillFile}
use github_idea_os_app.IssueStore
use github_idea_os_app.IssueStore.{IssueState}
use github_idea_os_app.InboxStore
use github_idea_os_app.InboxStore.{InboxState}
use github_idea_os_app.RuntimeStore
use github_idea_os_app.RuntimeStore.{RuntimeState}

pub record AppState : Type 0 where
  pub workspace : Option Workspace
  pub workspaces : List Workspace
  pub members : List MemberWithUser
  pub agents : List Agent
  pub skills : List Skill
  pub api_workspace_id : Option String
  pub stored_workspace_id : Option String
  pub issues : IssueState
  pub inbox : InboxState
  pub runtimes : RuntimeState

-- The workspace that `hydrateWorkspace` opens.
unfoldable pub choose : List Workspace → Option String → Option Workspace
choose ws_list preferred =
    or_else (if is_truthy preferred then find (λ w. some w.id == preferred) ws_list else none)
      (head? ws_list)

-- What a running `hydrateWorkspace` holds: the workspace, and what the two `fetch`es hold.
pub record Hydration : Type 0 where
  pub next : Workspace
  pub issues_initial : Bool
  pub inbox_initial : Bool

unfoldable pub set_identity : Option String → AppState → AppState
set_identity id s = record s { api_workspace_id = id; stored_workspace_id = id }

-- `hydrateWorkspace` up to `Promise.all`; without a workspace to open it returns there.
unfoldable pub hydrate_start :
    List Workspace → Option String → AppState → AppState × Option Hydration
unfolding set_identity
hydrate_start ws_list preferred s = elim (choose ws_list preferred) [
  | none ↦ (
    record (set_identity none s) {
      workspaces = ws_list;
      workspace = none;
      members = [];
      agents = [];
      skills = [];
    },
    none,
  )
  | some next ↦ (
    record (set_identity (some next.id) s) {
      workspaces = ws_list;
      workspace = some next;
      issues = (IssueStore.fetch_start s.issues).0;
      inbox = (InboxStore.fetch_start s.inbox).0;
    },
    some (record {
      next = next;
      issues_initial = (IssueStore.fetch_start s.issues).1;
      inbox_initial = (InboxStore.fetch_start s.inbox).1;
    }),
  )
]

-- `hydrateWorkspace` once every call has been answered.
unfoldable pub hydrate_end :
    Response (List MemberWithUser)
    → Response (List Agent)
    → Response (List Skill)
    → AppState
    → AppState
hydrate_end members agents skills s = record s {
  members = get_or (answered members) [];
  agents = get_or (answered agents) [];
  skills = get_or (answered skills) [];
}

-- `switchWorkspace` up to the `Promise.all` of its `hydrateWorkspace`.
unfoldable pub switch_workspace : String → AppState → AppState × Option Hydration
unfolding set_identity
switch_workspace workspace_id s = elim (find (λ w. w.id == workspace_id) s.workspaces) [
  | none ↦ (s, none)
  | some ws ↦ hydrate_start s.workspaces (some ws.id) (record (set_identity (some ws.id) s) {
    issues = IssueStore.set_issues [] s.issues;
    inbox = InboxStore.set_items [] s.inbox;
    runtimes = RuntimeStore.set_runtimes [] s.runtimes;
    workspace = some ws;
    members = [];
    agents = [];
    skills = [];
  })
]

-- What `refreshWorkspaces` prefers, read before its call: `workspace?.id ?? storedWorkspaceId`.
unfoldable pub refresh_workspaces_start : AppState → Option String
refresh_workspaces_start s = or_else (map_option (λ w. w.id) s.workspace) s.stored_workspace_id

unfoldable pub refresh_workspaces_end :
    Option String → Response (List Workspace) → AppState → AppState × Option Hydration
refresh_workspaces_end preferred (resolved ws_list) s = hydrate_start ws_list preferred s
refresh_workspaces_end preferred rejected s = (s, none)

-- `refreshMembers` and `refreshAgents` once the server has answered; without a workspace they do
-- nothing.
unfoldable pub refresh_members_end : Response (List MemberWithUser) → AppState → AppState
refresh_members_end (resolved members) s = record s { members = members }
refresh_members_end rejected s = s

unfoldable pub refresh_agents_end : Response (List Agent) → AppState → AppState
refresh_agents_end (resolved agents) s = record s { agents = agents }
refresh_agents_end rejected s = s

unfoldable pub update_agent : String → AgentUpdates → AppState → AppState
update_agent id updates s = record s {
  agents = map (λ a. if a.id == id then spread_agent a updates else a) s.agents;
}

-- `s.files?.length`
abbrev pub has_files : Skill → Bool
has_files s = not (is_empty (get_or s.files []))

-- `new Map(existing.filter(…).map(…))`
unfoldable pub files_by_id :
    List Skill → Dict String (List SkillFile) → Dict String (List SkillFile)
files_by_id [] m = m
files_by_id (s ∷ existing) m =
    files_by_id existing (if has_files s then set s.id (get_or s.files []) m else m)

-- `{ ...s, files: s.files ?? filesById.get(s.id) ?? [] }`
abbrev pub with_files : Dict String (List SkillFile) → Skill → Skill
with_files files s = record s { files = some (get_or s.files (get_or (get s.id files) [])) }

unfoldable pub merge_files : List Skill → List Skill → List Skill
merge_files existing fetched = let files = files_by_id existing [] in map (with_files files) fetched

-- `refreshSkills` once the server has answered, with the skills it read before the call.
unfoldable pub refresh_skills_end : List Skill → Response (List Skill) → AppState → AppState
unfolding merge_files
refresh_skills_end existing (resolved fetched) s = record s {
  skills = merge_files existing fetched;
}
refresh_skills_end existing rejected s = s

-- The first skill of the same id is replaced.
unfoldable pub replace_first : Skill → List Skill → List Skill
replace_first skill [] = []
replace_first skill (s ∷ skills) =
    let rest = replace_first skill skills in if s.id == skill.id then skill ∷ skills else s ∷ rest

unfoldable pub upsert : Skill → List Skill → List Skill
unfolding replace_first
upsert skill skills =
    if any (λ s. s.id == skill.id) skills then replace_first skill skills else skills ++ skill ∷ []

unfoldable pub upsert_skill : Skill → AppState → AppState
unfolding upsert
upsert_skill skill s = record s { skills = upsert skill s.skills }

unfoldable pub remove_skill : String → AppState → AppState
remove_skill id s = record s { skills = filter (λ k. not (k.id == id)) s.skills }

-- `createWorkspace` once the server has made it.
unfoldable pub create_workspace_end : Workspace → AppState → AppState
create_workspace_end ws s = record s { workspaces = s.workspaces ++ ws ∷ [] }

unfoldable pub update_workspace : Workspace → AppState → AppState
update_workspace ws s = record s {
  workspace = if map_option (λ w. w.id) s.workspace == some ws.id then some ws else s.workspace;
  workspaces = map (λ item. if item.id == ws.id then ws else item) s.workspaces;
}

-- What `leaveWorkspace` and `deleteWorkspace` prefer, read when the server has done it.
unfoldable pub leave_start : String → AppState → Option String
leave_start workspace_id s =
    let current = map_option (λ w. w.id) s.workspace in
    if current == some workspace_id then none else current

-- The two when the list has been read again.
unfoldable pub leave_end : List Workspace → Option String → AppState → AppState × Option Hydration
leave_end ws_list preferred s = hydrate_start ws_list preferred s

unfoldable pub clear_workspace : AppState → AppState
unfolding set_identity
clear_workspace s = record (set_identity none s) {
  workspace = none;
  workspaces = [];
  members = [];
  agents = [];
  skills = [];
}
