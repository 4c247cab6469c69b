-- ===== src/Types/Inbox.antt =====
-- apps/web/shared/types/inbox.ts. `"member" | "agent"` is the type of issue.ts of that name.
use github_idea_os_app.Base.{String, Bool, Option, List}
use github_idea_os_app.Types.Issue.{IssueStatus, IssueAssigneeType}

pub data InboxSeverity : Type 0 where
  action_required attention info : InboxSeverity

pub data InboxItemType : Type 0 where
  issue_assigned unassigned assignee_changed status_changed priority_changed : InboxItemType
  due_date_changed new_comment mentioned review_requested task_completed : InboxItemType
  task_failed agent_blocked agent_completed reaction_added : InboxItemType

pub record InboxItem : Type 0 where
  pub id : String
  pub workspace_id : String
  pub recipient_type : IssueAssigneeType
  pub recipient_id : String
  pub actor_type : Option IssueAssigneeType
  pub actor_id : Option String
  pub type : InboxItemType
  pub severity : InboxSeverity
  pub issue_id : Option String
  pub title : String
  pub body : Option String
  pub issue_status : Option IssueStatus
  pub idea_id : Option String
  pub idea_slug : Option String
  pub idea_code : Option String
  pub idea_title : Option String
  pub idea_is_system : Option Bool
  pub read : Bool
  pub archived : Bool
  pub created_at : String
  pub details : Option (List (String × String))
