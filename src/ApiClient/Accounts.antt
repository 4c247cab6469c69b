-- ===== src/ApiClient/Accounts.antt =====
-- The methods on the account and on ideas. The data of a request is the value it is written as.
use github_idea_os_app.Base.{String, Option, [], ◌∷◌, string_eq, nat_eq, option_eq, get_or}
use github_idea_os_app.Base.Dict.{set}
use github_idea_os_app.Types.Value.{Value, text, object, end, field}
use github_idea_os_app.ApiClient.Request.{
  get_method, post_method, put_method, patch_method, delete_method, param, Request, send, send_json,
  send_query,
}

pub data AuthCall : Type 0 where
  send_code : String → AuthCall
  verify_code : String → String → AuthCall
  login_with_password : String → String → AuthCall
  get_me : AuthCall
  update_me : Value → AuthCall

unfoldable pub auth_request : AuthCall → Request
auth_request (send_code email) =
    send_json post_method ("/auth/send-code" ∷ []) (object (field "email" (text email) end))
auth_request (verify_code email code) =
    send_json post_method ("/auth/verify-code" ∷ [])
      (object (field "email" (text email) (field "code" (text code) end)))
auth_request (login_with_password email password) =
    send_json post_method ("/auth/password-login" ∷ [])
      (object (field "email" (text email) (field "password" (text password) end)))
auth_request get_me = send get_method ("/api/me" ∷ [])
auth_request (update_me data_value) = send_json patch_method ("/api/me" ∷ []) data_value

pub data IdeaCall : Type 0 where
  start_github_oauth : Option String → IdeaCall
  get_github_account : IdeaCall
  disconnect_github_account : IdeaCall
  get_idea_os_config : IdeaCall
  update_idea_os_config : Value → IdeaCall
  list_ideas : IdeaCall
  recommend_idea_names : Value → IdeaCall
  create_idea : Value → IdeaCall
  get_idea : String → IdeaCall
  get_idea_issues : String → IdeaCall
  update_idea : String → Value → IdeaCall
  create_idea_issue : String → Value → IdeaCall
  retry_idea_repo : String → IdeaCall
  delete_idea : String → IdeaCall

unfoldable pub idea_request : IdeaCall → Request
idea_request (start_github_oauth redirect_path) =
    send_query ("/api/github/oauth/start" ∷ [])
      (set "redirect_path" (param (get_or redirect_path "/settings?tab=ideas")) [])
idea_request get_github_account = send get_method ("/api/github/account" ∷ [])
idea_request disconnect_github_account = send delete_method ("/api/github/account" ∷ [])
idea_request get_idea_os_config = send get_method ("/api/ideas/config" ∷ [])
idea_request (update_idea_os_config data_value) =
    send_json put_method ("/api/ideas/config" ∷ []) data_value
idea_request list_ideas = send get_method ("/api/ideas" ∷ [])
idea_request (recommend_idea_names data_value) =
    send_json post_method ("/api/ideas/recommend-name" ∷ []) data_value
idea_request (create_idea data_value) = send_json post_method ("/api/ideas" ∷ []) data_value
idea_request (get_idea slug) = send get_method ("/api/ideas/" ∷ slug ∷ [])
idea_request (get_idea_issues slug) = send get_method ("/api/ideas/" ∷ slug ∷ "/issues" ∷ [])
idea_request (update_idea slug data_value) =
    send_json put_method ("/api/ideas/" ∷ slug ∷ []) data_value
idea_request (create_idea_issue slug data_value) =
    send_json post_method ("/api/ideas/" ∷ slug ∷ "/issues" ∷ []) data_value
idea_request (retry_idea_repo slug) = send post_method ("/api/ideas/" ∷ slug ∷ "/retry-repo" ∷ [])
idea_request (delete_idea slug) = send delete_method ("/api/ideas/" ∷ slug ∷ [])
