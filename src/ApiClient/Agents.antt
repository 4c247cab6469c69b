-- ===== src/ApiClient/Agents.antt =====
-- The methods on agents, runtimes, tasks and the inbox. The id of the client's own workspace comes
-- first.
use github_idea_os_app.Base.{
  ℕ, String, Bool, Option, [], ◌∷◌, if◌then◌else◌, string_eq, nat_eq, option_eq, or_else,
}
use github_idea_os_app.Base.Dict.{Dict, set}
use github_idea_os_app.Types.Value.{Value, text, object, end, field}
use github_idea_os_app.ApiClient.Request.{
  get_method, post_method, put_method, delete_method, Param, param, Request, send, send_json,
  send_query, set_text, set_count,
}

unfoldable pub list_agents_query : Option String → Option String → Bool → Dict String Param
list_agents_query workspace_id own_id include_archived =
    let search = set_text "workspace_id" (or_else own_id workspace_id) [] in
    if include_archived then set "include_archived" (param "true") search else search

pub data AgentCall : Type 0 where
  list_agents : Option String → Bool → AgentCall
  get_agent : String → AgentCall
  create_agent : Value → AgentCall
  update_agent : String → Value → AgentCall
  archive_agent : String → AgentCall
  restore_agent : String → AgentCall

unfoldable pub agent_request : Option String → AgentCall → Request
agent_request workspace_id (list_agents own_id include_archived) =
    send_query ("/api/agents" ∷ []) (list_agents_query workspace_id own_id include_archived)
agent_request workspace_id (get_agent id) = send get_method ("/api/agents/" ∷ id ∷ [])
agent_request workspace_id (create_agent data_value) =
    send_json post_method ("/api/agents" ∷ []) data_value
agent_request workspace_id (update_agent id data_value) =
    send_json put_method ("/api/agents/" ∷ id ∷ []) data_value
agent_request workspace_id (archive_agent id) =
    send post_method ("/api/agents/" ∷ id ∷ "/archive" ∷ [])
agent_request workspace_id (restore_agent id) =
    send post_method ("/api/agents/" ∷ id ∷ "/restore" ∷ [])

pub data RuntimeCall : Type 0 where
  list_runtimes : Option String → RuntimeCall
  get_runtime_usage : String → Option ℕ → RuntimeCall
  get_runtime_task_activity : String → RuntimeCall
  ping_runtime : String → RuntimeCall
  get_ping_result : String → String → RuntimeCall
  initiate_update : String → String → RuntimeCall
  get_update_result : String → String → RuntimeCall
  create_admin_ssh_session : String → RuntimeCall
  get_admin_ssh_session : String → RuntimeCall
  close_admin_ssh_session : String → RuntimeCall

unfoldable pub runtime_request : Option String → RuntimeCall → Request
runtime_request workspace_id (list_runtimes own_id) =
    send_query ("/api/runtimes" ∷ []) (set_text "workspace_id" (or_else own_id workspace_id) [])
runtime_request workspace_id (get_runtime_usage runtime_id days) =
    send_query ("/api/runtimes/" ∷ runtime_id ∷ "/usage" ∷ []) (set_count "days" days [])
runtime_request workspace_id (get_runtime_task_activity runtime_id) =
    send get_method ("/api/runtimes/" ∷ runtime_id ∷ "/activity" ∷ [])
runtime_request workspace_id (ping_runtime runtime_id) =
    send post_method ("/api/runtimes/" ∷ runtime_id ∷ "/ping" ∷ [])
runtime_request workspace_id (get_ping_result runtime_id ping_id) =
    send get_method ("/api/runtimes/" ∷ runtime_id ∷ "/ping/" ∷ ping_id ∷ [])
runtime_request workspace_id (initiate_update runtime_id target_version) =
    send_json post_method ("/api/runtimes/" ∷ runtime_id ∷ "/update" ∷ [])
      (object (field "target_version" (text target_version) end))
runtime_request workspace_id (get_update_result runtime_id update_id) =
    send get_method ("/api/runtimes/" ∷ runtime_id ∷ "/update/" ∷ update_id ∷ [])
runtime_request workspace_id (create_admin_ssh_session runtime_id) =
    send post_method ("/api/admin/runtimes/" ∷ runtime_id ∷ "/ssh-sessions" ∷ [])
runtime_request workspace_id (get_admin_ssh_session session_id) =
    send get_method ("/api/admin/ssh-sessions/" ∷ session_id ∷ [])
runtime_request workspace_id (close_admin_ssh_session session_id) =
    send delete_method ("/api/admin/ssh-sessions/" ∷ session_id ∷ [])

pub data TaskCall : Type 0 where
  list_agent_tasks : String → TaskCall
  get_active_task_for_issue : String → TaskCall
  list_task_messages : String → TaskCall
  list_tasks_by_issue : String → TaskCall
  cancel_task : String → String → TaskCall

unfoldable pub task_request : TaskCall → Request
task_request (list_agent_tasks agent_id) =
    send get_method ("/api/agents/" ∷ agent_id ∷ "/tasks" ∷ [])
task_request (get_active_task_for_issue issue_id) =
    send get_method ("/api/issues/" ∷ issue_id ∷ "/active-task" ∷ [])
task_request (list_task_messages task_id) =
    send get_method ("/api/daemon/tasks/" ∷ task_id ∷ "/messages" ∷ [])
task_request (list_tasks_by_issue issue_id) =
    send get_method ("/api/issues/" ∷ issue_id ∷ "/task-runs" ∷ [])
task_request (cancel_task issue_id task_id) =
    send post_method ("/api/issues/" ∷ issue_id ∷ "/tasks/" ∷ task_id ∷ "/cancel" ∷ [])

pub data InboxCall : Type 0 where
  list_inbox : InboxCall
  mark_inbox_read : String → InboxCall
  archive_inbox : String → InboxCall
  get_unread_inbox_count : InboxCall
  mark_all_inbox_read : InboxCall
  archive_all_inbox : InboxCall
  archive_all_read_inbox : InboxCall
  archive_completed_inbox : InboxCall

unfoldable pub inbox_request : InboxCall → Request
inbox_request list_inbox = send get_method ("/api/inbox" ∷ [])
inbox_request (mark_inbox_read id) = send post_method ("/api/inbox/" ∷ id ∷ "/read" ∷ [])
inbox_request (archive_inbox id) = send post_method ("/api/inbox/" ∷ id ∷ "/archive" ∷ [])
inbox_request get_unread_inbox_count = send get_method ("/api/inbox/unread-count" ∷ [])
inbox_request mark_all_inbox_read = send post_method ("/api/inbox/mark-all-read" ∷ [])
inbox_request archive_all_inbox = send post_method ("/api/inbox/archive-all" ∷ [])
inbox_request archive_all_read_inbox = send post_method ("/api/inbox/archive-all-read" ∷ [])
inbox_request archive_completed_inbox = send post_method ("/api/inbox/archive-completed" ∷ [])
