-- ===== src/Samples.antt =====
-- The data that the tests run on.
use github_idea_os_app.Base.{
  ℕ, String, Bool, true, false, Option, none, some, List, [], ◌∷◌, if◌then◌else◌, ◌==◌, string_eq,
  nat_eq, option_eq,
}
use github_idea_os_app.Base.Int.{pos}
use github_idea_os_app.Types.Issue.{Issue, IssueStatus, IssueReaction, member, idle, medium, done}
use github_idea_os_app.Types.Inbox.{InboxItem, info, new_comment}
use github_idea_os_app.Types.Comment.{TimelineEntry, EntryType, IssueSubscriber, commenter}
use github_idea_os_app.Types.Workspace.{Workspace}
use github_idea_os_app.Types.Agent.{Skill, SkillFile, AgentRuntime, local, online}
use github_idea_os_app.WorkspaceStore.{AppState}

abbrev pub an_issue : String → IssueStatus → Option String → Issue
an_issue id status due = record {
  id = id;
  workspace_id = "w1";
  number = 1;
  identifier = "MUL-1";
  title = id;
  description = none;
  status = status;
  execution_stage = idle;
  priority = medium;
  assignee_type = none;
  assignee_id = none;
  creator_type = member;
  creator_id = "u1";
  parent_issue_id = none;
  repo_url = none;
  idea_id = none;
  idea_slug = none;
  idea_code = none;
  idea_title = none;
  idea_is_system = none;
  idea_root_issue_id = none;
  idea_root_identifier = none;
  idea_root_title = none;
  is_idea_root = none;
  position = pos 1;
  due_date = due;
  reactions = none;
  created_at = "2026-01-01";
  updated_at = "2026-01-01";
}

abbrev pub an_item : String → Option String → Bool → Bool → String → InboxItem
an_item id issue_id read archived created_at = record {
  id = id;
  workspace_id = "w1";
  recipient_type = member;
  recipient_id = "u1";
  actor_type = none;
  actor_id = none;
  type = new_comment;
  severity = info;
  issue_id = issue_id;
  title = id;
  body = none;
  issue_status = none;
  idea_id = none;
  idea_slug = none;
  idea_code = none;
  idea_title = none;
  idea_is_system = none;
  read = read;
  archived = archived;
  created_at = created_at;
  details = none;
}

abbrev pub an_entry : String → Option String → TimelineEntry
an_entry id parent_id = record {
  type = EntryType.comment;
  id = id;
  actor_type = "member";
  actor_id = "u1";
  created_at = "2026-01-01";
  action = none;
  details = none;
  content = some "text";
  parent_id = parent_id;
  updated_at = none;
  comment_type = none;
  reactions = none;
  attachments = none;
}

-- A comment, a reply to it, a reply to the reply, and another comment.
abbrev pub a_thread : List TimelineEntry
a_thread =
    an_entry "c3" (some "c2")
    ∷ an_entry "c1" none
    ∷ an_entry "c2" (some "c1")
    ∷ an_entry "c4" none
    ∷ []

abbrev pub a_workspace : String → Workspace
a_workspace id = record {
  id = id;
  name = id;
  slug = id;
  description = none;
  context = none;
  settings = [];
  repos = [];
  issue_prefix = "MUL";
  created_at = "2026-01-01";
  updated_at = "2026-01-01";
}

abbrev pub a_skill : String → Option (List SkillFile) → Skill
a_skill id files = record {
  id = id;
  workspace_id = "w1";
  name = id;
  description = "";
  content = "";
  config = [];
  files = files;
  created_by = none;
  created_at = "2026-01-01";
  updated_at = "2026-01-01";
}

abbrev pub a_file : SkillFile
a_file = record {
  id = "f1";
  skill_id = "s1";
  path = "a.md";
  content = "x";
  created_at = "";
  updated_at = "";
}

abbrev pub a_subscriber : String → IssueSubscriber
a_subscriber user_id = record {
  issue_id = "i1";
  user_type = member;
  user_id = user_id;
  reason = commenter;
  created_at = "2026-01-01";
}

abbrev pub a_reaction : String → String → IssueReaction
a_reaction id actor_id = record {
  id = id;
  issue_id = "i1";
  actor_type = "member";
  actor_id = actor_id;
  emoji = "+1";
  created_at = "";
}

abbrev pub a_time : String → ℕ
a_time s = if s == "2026-01-02" then 2 else 1

abbrev pub some_items : List InboxItem
some_items =
    an_item "n1" (some "i1") false false "2026-01-01"
    ∷ an_item "n2" (some "i1") true false "2026-01-02"
    ∷ an_item "n3" none false true "2026-01-02"
    ∷ []

abbrev pub some_issues : List Issue
some_issues = an_issue "i1" done none ∷ an_issue "i2" IssueStatus.todo (some "2026-01-02") ∷ []

abbrev pub a_runtime : AgentRuntime
a_runtime = record {
  id = "r1";
  workspace_id = "w1";
  daemon_id = none;
  name = "local";
  runtime_mode = local;
  provider = "claude";
  status = online;
  device_info = "";
  metadata = [];
  last_seen_at = none;
  created_at = "2026-01-01";
  updated_at = "2026-01-01";
}

-- An application with two workspaces, the first of them open.
abbrev pub an_app : AppState
an_app = record {
  workspace = some (a_workspace "w1");
  workspaces = a_workspace "w1" ∷ a_workspace "w2" ∷ [];
  members = [];
  agents = [];
  skills = a_skill "s1" none ∷ [];
  api_workspace_id = some "w1";
  stored_workspace_id = some "w1";
  issues = record { issues = some_issues; loading = false; active_issue_id = none };
  inbox = record { items = some_items; loading = false };
  runtimes = record { runtimes = []; selected_id = ""; fetching = false };
}
