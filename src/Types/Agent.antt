-- ===== src/Types/Agent.antt =====
-- apps/web/shared/types/agent.ts. The fields of a trigger are as the server may send them: the type
-- is any text, and the others may be missing. A skill of a list has no files.
use github_idea_os_app.Base.{ℕ, String, Bool, Option, List, get_or}
use github_idea_os_app.Base.Dict.{Dict}
use github_idea_os_app.Types.Value.{Value}

pub data AgentStatus : Type 0 where
  idle working blocked error offline : AgentStatus

pub data AgentRuntimeMode : Type 0 where
  local cloud : AgentRuntimeMode

pub data AgentVisibility : Type 0 where
  workspace private : AgentVisibility

pub data RuntimeStatus : Type 0 where
  online offline : RuntimeStatus

pub data ToolAuthType : Type 0 where
  oauth api_key no_auth : ToolAuthType

pub record AgentRuntime : Type 0 where
  pub id : String
  pub workspace_id : String
  pub daemon_id : Option String
  pub name : String
  pub runtime_mode : AgentRuntimeMode
  pub provider : String
  pub status : RuntimeStatus
  pub device_info : String
  pub metadata : List (String × Value)
  pub last_seen_at : Option String
  pub created_at : String
  pub updated_at : String

-- `Partial<AgentRuntime>`: the fields that are given.
pub record RuntimeUpdates : Type 0 where
  pub id : Option String
  pub workspace_id : Option String
  pub daemon_id : Option (Option String)
  pub name : Option String
  pub runtime_mode : Option AgentRuntimeMode
  pub provider : Option String
  pub status : Option RuntimeStatus
  pub device_info : Option String
  pub metadata : Option (List (String × Value))
  pub last_seen_at : Option (Option String)
  pub created_at : Option String
  pub updated_at : Option String

-- `{ ...r, ...updates }`
unfoldable pub spread_runtime : AgentRuntime → RuntimeUpdates → AgentRuntime
spread_runtime r u = record {
  id = get_or u.id r.id;
  workspace_id = get_or u.workspace_id r.workspace_id;
  daemon_id = get_or u.daemon_id r.daemon_id;
  name = get_or u.name r.name;
  runtime_mode = get_or u.runtime_mode r.runtime_mode;
  provider = get_or u.provider r.provider;
  status = get_or u.status r.status;
  device_info = get_or u.device_info r.device_info;
  metadata = get_or u.metadata r.metadata;
  last_seen_at = get_or u.last_seen_at r.last_seen_at;
  created_at = get_or u.created_at r.created_at;
  updated_at = get_or u.updated_at r.updated_at;
}

pub record SkillFile : Type 0 where
  pub id : String
  pub skill_id : String
  pub path : String
  pub content : String
  pub created_at : String
  pub updated_at : String

pub record Skill : Type 0 where
  pub id : String
  pub workspace_id : String
  pub name : String
  pub description : String
  pub content : String
  pub config : List (String × Value)
  pub files : Option (List SkillFile)
  pub created_by : Option String
  pub created_at : String
  pub updated_at : String

pub record AgentTool : Type 0 where
  pub id : String
  pub name : String
  pub description : String
  pub auth_type : ToolAuthType
  pub connected : Bool
  pub config : List (String × Value)

pub record AgentTrigger : Type 0 where
  pub id : Option String
  pub type : String
  pub enabled : Option Bool
  pub config : Option (Dict String Value)

pub record Agent : Type 0 where
  pub id : String
  pub workspace_id : String
  pub runtime_id : String
  pub name : String
  pub description : String
  pub instructions : String
  pub avatar_url : Option String
  pub runtime_mode : AgentRuntimeMode
  pub runtime_config : List (String × Value)
  pub visibility : AgentVisibility
  pub status : AgentStatus
  pub max_concurrent_tasks : ℕ
  pub owner_id : Option String
  pub skills : List Skill
  pub tools : List AgentTool
  pub triggers : List AgentTrigger
  pub created_at : String
  pub updated_at : String
  pub archived_at : Option String
  pub archived_by : Option String

-- `Partial<Agent>`: the fields that are given.
pub record AgentUpdates : Type 0 where
  pub id : Option String
  pub workspace_id : Option String
  pub runtime_id : Option String
  pub name : Option String
  pub description : Option String
  pub instructions : Option String
  pub avatar_url : Option (Option String)
  pub runtime_mode : Option AgentRuntimeMode
  pub runtime_config : Option (List (String × Value))
  pub visibility : Option AgentVisibility
  pub status : Option AgentStatus
  pub max_concurrent_tasks : Option ℕ
  pub owner_id : Option (Option String)
  pub skills : Option (List Skill)
  pub tools : Option (List AgentTool)
  pub triggers : Option (List AgentTrigger)
  pub created_at : Option String
  pub updated_at : Option String
  pub archived_at : Option (Option String)
  pub archived_by : Option (Option String)

-- `{ ...a, ...updates }`
unfoldable pub spread_agent : Agent → AgentUpdates → Agent
spread_agent a u = record {
  id = get_or u.id a.id;
  workspace_id = get_or u.workspace_id a.workspace_id;
  runtime_id = get_or u.runtime_id a.runtime_id;
  name = get_or u.name a.name;
  description = get_or u.description a.description;
  instructions = get_or u.instructions a.instructions;
  avatar_url = get_or u.avatar_url a.avatar_url;
  runtime_mode = get_or u.runtime_mode a.runtime_mode;
  runtime_config = get_or u.runtime_config a.runtime_config;
  visibility = get_or u.visibility a.visibility;
  status = get_or u.status a.status;
  max_concurrent_tasks = get_or u.max_concurrent_tasks a.max_concurrent_tasks;
  owner_id = get_or u.owner_id a.owner_id;
  skills = get_or u.skills a.skills;
  tools = get_or u.tools a.tools;
  triggers = get_or u.triggers a.triggers;
  created_at = get_or u.created_at a.created_at;
  updated_at = get_or u.updated_at a.updated_at;
  archived_at = get_or u.archived_at a.archived_at;
  archived_by = get_or u.archived_by a.archived_by;
}
