-- ===== src/ApiClient/Laws.antt =====
-- What holds of the requests of all methods.
use github_idea_os_app.Base.{
  ℕ, String, ◌≡◌, refl, ◌∙◌, Bool, true, false, not, ◌&&◌, ◌||◌, Option, none, some, List, [], ◌∷◌,
  arith, if◌then◌else◌, Bool-cases, ◌==◌, string_eq, string_discrete, nat_eq, option_eq, get_or,
  or_else, is_some, is_nonempty,
}
use github_idea_os_app.Base.Dict.{Dict, get, get-set}
use github_idea_os_app.Base.Text.{starts_with}
use github_idea_os_app.ApiClient.Request.{
  Method, get_method, Param, param, count, Request, set_text, set_count,
}
use github_idea_os_app.ApiClient.Accounts.{
  send_code, start_github_oauth, AuthCall, auth_request, IdeaCall, idea_request,
}
use github_idea_os_app.ApiClient.Issues.{
  list_comments, list_issue_subscribers, IssueCall, issue_request, CommentCall, comment_request,
  SubscriberCall, subscriber_request, ListIssuesParams, list_issues_query, list_issues,
  create_issue,
}
use github_idea_os_app.ApiClient.Agents.{
  list_agent_tasks, list_inbox, AgentCall, agent_request, RuntimeCall, runtime_request, TaskCall,
  task_request, InboxCall, inbox_request, list_agents_query, list_agents, list_runtimes,
}
use github_idea_os_app.ApiClient.Workspaces.{
  list_workspaces, list_skills, list_personal_access_tokens, list_attachments, WorkspaceCall,
  workspace_request, SkillCall, skill_request, TokenCall, token_request, AttachmentCall,
  attachment_request,
}
use github_idea_os_app.Types.Value.{Value}
use native.Mathlib.Decide.{ℕ_discrete}

-- A call of a method of the client.
pub data Call : Type 0 where
  of_auth : AuthCall → Call
  of_idea : IdeaCall → Call
  of_issue : IssueCall → Call
  of_comment : CommentCall → Call
  of_subscriber : SubscriberCall → Call
  of_agent : AgentCall → Call
  of_runtime : RuntimeCall → Call
  of_task : TaskCall → Call
  of_inbox : InboxCall → Call
  of_workspace : WorkspaceCall → Call
  of_skill : SkillCall → Call
  of_token : TokenCall → Call
  of_attachment : AttachmentCall → Call

-- The request of a call, with the id of the client's workspace.
unfoldable pub request : Option String → Call → Request
request id (of_auth c) = auth_request c
request id (of_idea c) = idea_request c
request id (of_issue c) = issue_request id c
request id (of_comment c) = comment_request c
request id (of_subscriber c) = subscriber_request c
request id (of_agent c) = agent_request id c
request id (of_runtime c) = runtime_request id c
request id (of_task c) = task_request c
request id (of_inbox c) = inbox_request c
request id (of_workspace c) = workspace_request c
request id (of_skill c) = skill_request c
request id (of_token c) = token_request c
request id (of_attachment c) = attachment_request c

abbrev pub is_get : Method → Bool
is_get get_method = true
is_get _ = false

abbrev pub from_root : List String → Bool
from_root [] = false
from_root (piece ∷ rest) = starts_with piece "/api/" || starts_with piece "/auth/"

-- `fetch` refuses a GET with a body; a path that does not start at the root of the server would be
-- joined to the host's name.
abbrev pub is_sendable : Request → Bool
is_sendable r = (not (is_get r.method) || not (is_some r.body)) && from_root r.path

auth_sendable : (c : AuthCall) → is_sendable (auth_request c) ≡ true
unfolding auth_request starts_with ℕ_discrete
auth_sendable (send_code a) = refl
auth_sendable _ = refl

idea_sendable : (c : IdeaCall) → is_sendable (idea_request c) ≡ true
unfolding idea_request starts_with ℕ_discrete
idea_sendable (start_github_oauth a) = refl
idea_sendable _ = refl

issue_sendable : (id : Option String) (c : IssueCall) → is_sendable (issue_request id c) ≡ true
unfolding issue_request starts_with ℕ_discrete
issue_sendable id (list_issues a) = refl
issue_sendable _ _ = refl

comment_sendable : (c : CommentCall) → is_sendable (comment_request c) ≡ true
unfolding comment_request starts_with ℕ_discrete
comment_sendable (list_comments a) = refl
comment_sendable _ = refl

subscriber_sendable : (c : SubscriberCall) → is_sendable (subscriber_request c) ≡ true
unfolding subscriber_request starts_with ℕ_discrete
subscriber_sendable (list_issue_subscribers a) = refl
subscriber_sendable _ = refl

agent_sendable : (id : Option String) (c : AgentCall) → is_sendable (agent_request id c) ≡ true
unfolding agent_request starts_with ℕ_discrete
agent_sendable id (list_agents a b) = refl
agent_sendable _ _ = refl

runtime_sendable :
    (id : Option String) (c : RuntimeCall) → is_sendable (runtime_request id c) ≡ true
unfolding runtime_request starts_with ℕ_discrete
runtime_sendable id (list_runtimes a) = refl
runtime_sendable _ _ = refl

task_sendable : (c : TaskCall) → is_sendable (task_request c) ≡ true
unfolding task_request starts_with ℕ_discrete
task_sendable (list_agent_tasks a) = refl
task_sendable _ = refl

inbox_sendable : (c : InboxCall) → is_sendable (inbox_request c) ≡ true
unfolding inbox_request starts_with ℕ_discrete
inbox_sendable list_inbox = refl
inbox_sendable _ = refl

workspace_sendable : (c : WorkspaceCall) → is_sendable (workspace_request c) ≡ true
unfolding workspace_request starts_with ℕ_discrete
workspace_sendable list_workspaces = refl
workspace_sendable _ = refl

skill_sendable : (c : SkillCall) → is_sendable (skill_request c) ≡ true
unfolding skill_request starts_with ℕ_discrete
skill_sendable list_skills = refl
skill_sendable _ = refl

token_sendable : (c : TokenCall) → is_sendable (token_request c) ≡ true
unfolding token_request starts_with ℕ_discrete
token_sendable list_personal_access_tokens = refl
token_sendable _ = refl

attachment_sendable : (c : AttachmentCall) → is_sendable (attachment_request c) ≡ true
unfolding attachment_request starts_with ℕ_discrete
attachment_sendable (list_attachments a) = refl
attachment_sendable _ = refl

-- Every request starts at the root of the server, and no GET has a body.
request_sendable : (id : Option String) (c : Call) → is_sendable (request id c) ≡ true
unfolding request
request_sendable id (of_auth c) = auth_sendable c
request_sendable id (of_idea c) = idea_sendable c
request_sendable id (of_issue c) = issue_sendable id c
request_sendable id (of_comment c) = comment_sendable c
request_sendable id (of_subscriber c) = subscriber_sendable c
request_sendable id (of_agent c) = agent_sendable id c
request_sendable id (of_runtime c) = runtime_sendable id c
request_sendable id (of_task c) = task_sendable c
request_sendable id (of_inbox c) = inbox_sendable c
request_sendable id (of_workspace c) = workspace_sendable c
request_sendable id (of_skill c) = skill_sendable c
request_sendable id (of_token c) = token_sendable c
request_sendable id (of_attachment c) = attachment_sendable c

-- The parameter that a text gives, when there is one.
abbrev pub as_param : Option String → Option Param
as_param none = none
as_param (some s) = if is_nonempty s then some (param s) else none

get-set_text :
    (j name : String) (o : Option String) (q : Dict String Param)
    → get j (set_text name o q) ≡ (if j == name then or_else (as_param o) (get j q) else get j q)
unfolding set_text
get-set_text j name none q = ground arith
get-set_text j name (some s) q = ground (arith, get-set name j (param s) q)

get-set_count :
    (j name : String) (o : Option ℕ) (q : Dict String Param)
    → (j == name) ≡ false
    → get j (set_count name o q) ≡ get j q
unfolding set_count
get-set_count j name none q h = refl
get-set_count j name (some n) q h = ground (arith, get-set name j (count n) q)

abbrev pub own_workspace : Option ListIssuesParams → Option String
own_workspace none = none
own_workspace (some p) = p.workspace_id

abbrev pub query_of : Request → Dict String Param
query_of r = get_or r.query []

or_else-none : (o : Option Param) → or_else o none ≡ o
or_else-none none = refl
or_else-none (some a) = refl

own_scoped :
    (own id : Option String)
    → get "workspace_id" (set_text "workspace_id" (or_else own id) []) ≡ as_param (or_else own id)
unfolding string_discrete Bool-cases get
own_scoped own id =
    get-set_text "workspace_id" "workspace_id" (or_else own id) []
    ∙ or_else-none (as_param (or_else own id))

list_issues_scoped :
    (id : Option String) (params : Option ListIssuesParams)
    → get "workspace_id" (list_issues_query id params)
      ≡ as_param (or_else (own_workspace params) id)
unfolding list_issues_query string_discrete Bool-cases get set_text set_count
list_issues_scoped id none = own_scoped none id
list_issues_scoped id (some p) =
    rw
      (
        get-set_text "workspace_id" "assignee_id" p.assignee_id _,
        get-set_text "workspace_id" "priority" p.priority _,
        get-set_text "workspace_id" "status" p.status _,
        get-set_text "workspace_id" "workspace_id" (or_else p.workspace_id id) _,
        get-set_count "workspace_id" "offset" p.offset _ refl,
        get-set_count "workspace_id" "limit" p.limit [] refl,
      )
      (or_else-none (as_param (or_else p.workspace_id id)))

list_agents_scoped :
    (id own : Option String) (archived : Bool)
    → get "workspace_id" (list_agents_query id own archived) ≡ as_param (or_else own id)
unfolding list_agents_query string_discrete Bool-cases get
list_agents_scoped id own false = own_scoped own id
list_agents_scoped id own true =
    get-set "include_archived" "workspace_id" (param "true")
      (set_text "workspace_id" (or_else own id) [])
    ∙ own_scoped own id

-- Issues, agents and runtimes are listed for the workspace that is asked for, or else for the
-- client's own, and an issue is created in the client's own; without either the query names none.
request_scoped :
    (id own : Option String) (params : Option ListIssuesParams) (archived : Bool) (issue : Value)
    → (get "workspace_id" (query_of (issue_request id (list_issues params)))
        ≡ as_param (or_else (own_workspace params) id))
      × (get "workspace_id" (query_of (issue_request id (create_issue issue))) ≡ as_param id)
      × (get "workspace_id" (query_of (agent_request id (list_agents own archived)))
          ≡ as_param (or_else own id))
      × (get "workspace_id" (query_of (runtime_request id (list_runtimes own)))
          ≡ as_param (or_else own id))
unfolding issue_request agent_request runtime_request string_discrete Bool-cases get
request_scoped id own params archived issue = (
  list_issues_scoped id params,
  own_scoped none id,
  list_agents_scoped id own archived,
  own_scoped own id,
)
