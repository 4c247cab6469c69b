-- ===== src/Types/Issue.antt =====
-- apps/web/shared/types/issue.ts. A field that may be null or absent is an `Option`, since no code
-- modelled here tells the two apart. A position is a finite double,
-- given in units of 2^-1074: every finite double is a whole number of them.
use github_idea_os_app.Base.{ℕ, String, Bool, Option, none, some, List, Eq, get_or}
use github_idea_os_app.Base.Int.{ℤ}

pub data IssueStatus : Type 0 where
  backlog todo in_progress in_review done blocked cancelled : IssueStatus

pub data IssueExecutionStage : Type 0 where
  idle planning plan_ready build_ready building : IssueExecutionStage

-- The priority `none` is spelled `no_priority`.
pub data IssuePriority : Type 0 where
  urgent high medium low no_priority : IssuePriority

pub data IssueAssigneeType : Type 0 where
  member agent : IssueAssigneeType

unfoldable pub IssueStatus-discrete : Discrete IssueStatus
IssueStatus-discrete = hlevel

unfoldable pub IssuePriority-discrete : Discrete IssuePriority
IssuePriority-discrete = hlevel

unfoldable pub IssueAssigneeType-discrete : Discrete IssueAssigneeType
IssueAssigneeType-discrete = hlevel

instance abbrev pub status_eq : Eq IssueStatus
status_eq = record { dec = IssueStatus-discrete }

instance abbrev pub priority_eq : Eq IssuePriority
priority_eq = record { dec = IssuePriority-discrete }

instance abbrev pub assignee_type_eq : Eq IssueAssigneeType
assignee_type_eq = record { dec = IssueAssigneeType-discrete }

pub record IssueReaction : Type 0 where
  pub id : String
  pub issue_id : String
  pub actor_type : String
  pub actor_id : String
  pub emoji : String
  pub created_at : String

pub record Issue : Type 0 where
  pub id : String
  pub workspace_id : String
  pub number : ℕ
  pub identifier : String
  pub title : String
  pub description : Option String
  pub status : IssueStatus
  pub execution_stage : IssueExecutionStage
  pub priority : IssuePriority
  pub assignee_type : Option IssueAssigneeType
  pub assignee_id : Option String
  pub creator_type : IssueAssigneeType
  pub creator_id : String
  pub parent_issue_id : Option String
  pub repo_url : Option String
  pub idea_id : Option String
  pub idea_slug : Option String
  pub idea_code : Option String
  pub idea_title : Option String
  pub idea_is_system : Option Bool
  pub idea_root_issue_id : Option String
  pub idea_root_identifier : Option String
  pub idea_root_title : Option String
  pub is_idea_root : Option Bool
  pub position : ℤ
  pub due_date : Option String
  pub reactions : Option (List IssueReaction)
  pub created_at : String
  pub updated_at : String

-- `Partial<Issue>`: `none` is a key that is left out.
pub record IssueUpdates : Type 0 where
  pub id : Option String
  pub workspace_id : Option String
  pub number : Option ℕ
  pub identifier : Option String
  pub title : Option String
  pub description : Option (Option String)
  pub status : Option IssueStatus
  pub execution_stage : Option IssueExecutionStage
  pub priority : Option IssuePriority
  pub assignee_type : Option (Option IssueAssigneeType)
  pub assignee_id : Option (Option String)
  pub creator_type : Option IssueAssigneeType
  pub creator_id : Option String
  pub parent_issue_id : Option (Option String)
  pub repo_url : Option (Option String)
  pub idea_id : Option (Option String)
  pub idea_slug : Option (Option String)
  pub idea_code : Option (Option String)
  pub idea_title : Option (Option String)
  pub idea_is_system : Option (Option Bool)
  pub idea_root_issue_id : Option (Option String)
  pub idea_root_identifier : Option (Option String)
  pub idea_root_title : Option (Option String)
  pub is_idea_root : Option (Option Bool)
  pub position : Option ℤ
  pub due_date : Option (Option String)
  pub reactions : Option (Option (List IssueReaction))
  pub created_at : Option String
  pub updated_at : Option String

-- `{ ...issue, ...updates }`
unfoldable pub spread : Issue → IssueUpdates → Issue
spread i u = record {
  id = get_or u.id i.id;
  workspace_id = get_or u.workspace_id i.workspace_id;
  number = get_or u.number i.number;
  identifier = get_or u.identifier i.identifier;
  title = get_or u.title i.title;
  description = get_or u.description i.description;
  status = get_or u.status i.status;
  execution_stage = get_or u.execution_stage i.execution_stage;
  priority = get_or u.priority i.priority;
  assignee_type = get_or u.assignee_type i.assignee_type;
  assignee_id = get_or u.assignee_id i.assignee_id;
  creator_type = get_or u.creator_type i.creator_type;
  creator_id = get_or u.creator_id i.creator_id;
  parent_issue_id = get_or u.parent_issue_id i.parent_issue_id;
  repo_url = get_or u.repo_url i.repo_url;
  idea_id = get_or u.idea_id i.idea_id;
  idea_slug = get_or u.idea_slug i.idea_slug;
  idea_code = get_or u.idea_code i.idea_code;
  idea_title = get_or u.idea_title i.idea_title;
  idea_is_system = get_or u.idea_is_system i.idea_is_system;
  idea_root_issue_id = get_or u.idea_root_issue_id i.idea_root_issue_id;
  idea_root_identifier = get_or u.idea_root_identifier i.idea_root_identifier;
  idea_root_title = get_or u.idea_root_title i.idea_root_title;
  is_idea_root = get_or u.is_idea_root i.is_idea_root;
  position = get_or u.position i.position;
  due_date = get_or u.due_date i.due_date;
  reactions = get_or u.reactions i.reactions;
  created_at = get_or u.created_at i.created_at;
  updated_at = get_or u.updated_at i.updated_at;
}

-- The updates that a whole issue stands for.
unfoldable pub all_fields : Issue → IssueUpdates
all_fields i = record {
  id = some i.id;
  workspace_id = some i.workspace_id;
  number = some i.number;
  identifier = some i.identifier;
  title = some i.title;
  description = some i.description;
  status = some i.status;
  execution_stage = some i.execution_stage;
  priority = some i.priority;
  assignee_type = some i.assignee_type;
  assignee_id = some i.assignee_id;
  creator_type = some i.creator_type;
  creator_id = some i.creator_id;
  parent_issue_id = some i.parent_issue_id;
  repo_url = some i.repo_url;
  idea_id = some i.idea_id;
  idea_slug = some i.idea_slug;
  idea_code = some i.idea_code;
  idea_title = some i.idea_title;
  idea_is_system = some i.idea_is_system;
  idea_root_issue_id = some i.idea_root_issue_id;
  idea_root_identifier = some i.idea_root_identifier;
  idea_root_title = some i.idea_root_title;
  is_idea_root = some i.is_idea_root;
  position = some i.position;
  due_date = some i.due_date;
  reactions = some i.reactions;
  created_at = some i.created_at;
  updated_at = some i.updated_at;
}

-- No key at all.
abbrev pub no_updates : IssueUpdates
no_updates = record {
  id = none;
  workspace_id = none;
  number = none;
  identifier = none;
  title = none;
  description = none;
  status = none;
  execution_stage = none;
  priority = none;
  assignee_type = none;
  assignee_id = none;
  creator_type = none;
  creator_id = none;
  parent_issue_id = none;
  repo_url = none;
  idea_id = none;
  idea_slug = none;
  idea_code = none;
  idea_title = none;
  idea_is_system = none;
  idea_root_issue_id = none;
  idea_root_identifier = none;
  idea_root_title = none;
  is_idea_root = none;
  position = none;
  due_date = none;
  reactions = none;
  created_at = none;
  updated_at = none;
}
