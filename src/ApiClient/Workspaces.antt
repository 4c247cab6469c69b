-- ===== src/ApiClient/Workspaces.antt =====
-- The methods on workspaces, members, skills, tokens and attachments.
use github_idea_os_app.Base.{String, [], ◌∷◌, string_eq, nat_eq, option_eq}
use github_idea_os_app.Types.Value.{Value}
use github_idea_os_app.ApiClient.Request.{
  get_method, post_method, put_method, patch_method, delete_method, Request, send, send_json,
}

pub data WorkspaceCall : Type 0 where
  list_workspaces : WorkspaceCall
  get_workspace : String → WorkspaceCall
  create_workspace : Value → WorkspaceCall
  update_workspace : String → Value → WorkspaceCall
  list_members : String → WorkspaceCall
  create_member : String → Value → WorkspaceCall
  update_member : String → String → Value → WorkspaceCall
  delete_member : String → String → WorkspaceCall
  leave_workspace : String → WorkspaceCall
  delete_workspace : String → WorkspaceCall

unfoldable pub workspace_request : WorkspaceCall → Request
workspace_request list_workspaces = send get_method ("/api/workspaces" ∷ [])
workspace_request (get_workspace id) = send get_method ("/api/workspaces/" ∷ id ∷ [])
workspace_request (create_workspace data_value) =
    send_json post_method ("/api/workspaces" ∷ []) data_value
workspace_request (update_workspace id data_value) =
    send_json patch_method ("/api/workspaces/" ∷ id ∷ []) data_value
workspace_request (list_members workspace_id) =
    send get_method ("/api/workspaces/" ∷ workspace_id ∷ "/members" ∷ [])
workspace_request (create_member workspace_id data_value) =
    send_json post_method ("/api/workspaces/" ∷ workspace_id ∷ "/members" ∷ []) data_value
workspace_request (update_member workspace_id member_id data_value) =
    send_json patch_method ("/api/workspaces/" ∷ workspace_id ∷ "/members/" ∷ member_id ∷ [])
      data_value
workspace_request (delete_member workspace_id member_id) =
    send delete_method ("/api/workspaces/" ∷ workspace_id ∷ "/members/" ∷ member_id ∷ [])
workspace_request (leave_workspace workspace_id) =
    send post_method ("/api/workspaces/" ∷ workspace_id ∷ "/leave" ∷ [])
workspace_request (delete_workspace workspace_id) =
    send delete_method ("/api/workspaces/" ∷ workspace_id ∷ [])

pub data SkillCall : Type 0 where
  list_skills : SkillCall
  get_skill : String → SkillCall
  create_skill : Value → SkillCall
  update_skill : String → Value → SkillCall
  delete_skill : String → SkillCall
  import_skill : Value → SkillCall
  list_agent_skills : String → SkillCall
  set_agent_skills : String → Value → SkillCall

unfoldable pub skill_request : SkillCall → Request
skill_request list_skills = send get_method ("/api/skills" ∷ [])
skill_request (get_skill id) = send get_method ("/api/skills/" ∷ id ∷ [])
skill_request (create_skill data_value) = send_json post_method ("/api/skills" ∷ []) data_value
skill_request (update_skill id data_value) =
    send_json put_method ("/api/skills/" ∷ id ∷ []) data_value
skill_request (delete_skill id) = send delete_method ("/api/skills/" ∷ id ∷ [])
skill_request (import_skill data_value) =
    send_json post_method ("/api/skills/import" ∷ []) data_value
skill_request (list_agent_skills agent_id) =
    send get_method ("/api/agents/" ∷ agent_id ∷ "/skills" ∷ [])
skill_request (set_agent_skills agent_id data_value) =
    send_json put_method ("/api/agents/" ∷ agent_id ∷ "/skills" ∷ []) data_value

pub data TokenCall : Type 0 where
  list_personal_access_tokens : TokenCall
  create_personal_access_token : Value → TokenCall
  revoke_personal_access_token : String → TokenCall

unfoldable pub token_request : TokenCall → Request
token_request list_personal_access_tokens = send get_method ("/api/tokens" ∷ [])
token_request (create_personal_access_token data_value) =
    send_json post_method ("/api/tokens" ∷ []) data_value
token_request (revoke_personal_access_token id) = send delete_method ("/api/tokens/" ∷ id ∷ [])

pub data AttachmentCall : Type 0 where
  list_attachments : String → AttachmentCall
  delete_attachment : String → AttachmentCall

unfoldable pub attachment_request : AttachmentCall → Request
attachment_request (list_attachments issue_id) =
    send get_method ("/api/issues/" ∷ issue_id ∷ "/attachments" ∷ [])
attachment_request (delete_attachment id) = send delete_method ("/api/attachments/" ∷ id ∷ [])
