-- ===== src/Types/Workspace.antt =====
-- apps/web/shared/types/workspace.ts.
use github_idea_os_app.Base.{String, Bool, Option, List}
use github_idea_os_app.Types.Value.{Value}

pub data MemberRole : Type 0 where
  owner admin member : MemberRole

pub record WorkspaceRepo : Type 0 where
  pub url : String
  pub description : String

pub record Workspace : Type 0 where
  pub id : String
  pub name : String
  pub slug : String
  pub description : Option String
  pub context : Option String
  pub settings : List (String × Value)
  pub repos : List WorkspaceRepo
  pub issue_prefix : String
  pub created_at : String
  pub updated_at : String

pub record MemberWithUser : Type 0 where
  pub id : String
  pub workspace_id : String
  pub user_id : String
  pub role : MemberRole
  pub created_at : String
  pub name : String
  pub email : String
  pub avatar_url : Option String

pub record User : Type 0 where
  pub id : String
  pub name : String
  pub email : String
  pub avatar_url : Option String
  pub is_super_admin : Option Bool
  pub created_at : String
  pub updated_at : String
