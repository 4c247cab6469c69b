-- ===== src/ApiClient/Issues.antt =====
-- The methods on issues, comments, reactions and subscribers. The id of the client's own workspace
-- comes first.
use github_idea_os_app.Base.{
  ℕ, String, Option, none, some, List, [], ◌∷◌, string_eq, nat_eq, option_eq, get_or, or_else,
}
use github_idea_os_app.Base.Dict.{Dict}
use github_idea_os_app.Types.Value.{Value, text, array, object, end, field}
use github_idea_os_app.ApiClient.Request.{
  get_method, post_method, put_method, delete_method, Param, Request, send, send_json, send_query,
  set_text, set_count, text_field, texts, texts_field,
}

pub record ListIssuesParams : Type 0 where
  pub limit : Option ℕ
  pub offset : Option ℕ
  pub workspace_id : Option String
  pub status : Option String
  pub priority : Option String
  pub assignee_id : Option String

-- A parameter of `params`, which may be missing.
abbrev of_params {ℓ} :
    {A : Type ℓ} → (ListIssuesParams → Option A) → Option ListIssuesParams → Option A
of_params f none = none
of_params f (some p) = f p

unfoldable pub list_issues_query : Option String → Option ListIssuesParams → Dict String Param
list_issues_query workspace_id params =
    let limited =
      set_count "offset" (of_params (λ p. p.offset) params)
        (set_count "limit" (of_params (λ p. p.limit) params) []) in
    let placed =
      set_text "workspace_id" (or_else (of_params (λ p. p.workspace_id) params) workspace_id)
        limited in
    set_text "assignee_id" (of_params (λ p. p.assignee_id) params) (
      set_text "priority" (of_params (λ p. p.priority) params)
        (set_text "status" (of_params (λ p. p.status) params) placed))

pub data IssueCall : Type 0 where
  list_issues : Option ListIssuesParams → IssueCall
  get_issue : String → IssueCall
  create_issue : Value → IssueCall
  update_issue : String → Value → IssueCall
  confirm_issue_plan : String → IssueCall
  delete_issue : String → IssueCall
  batch_update_issues : List String → Value → IssueCall
  batch_delete_issues : List String → IssueCall

unfoldable pub issue_request : Option String → IssueCall → Request
issue_request workspace_id (list_issues params) =
    send_query ("/api/issues" ∷ []) (list_issues_query workspace_id params)
issue_request workspace_id (get_issue id) = send get_method ("/api/issues/" ∷ id ∷ [])
issue_request workspace_id (create_issue data_value) = record {
  method = post_method;
  path = "/api/issues" ∷ [];
  query = some (set_text "workspace_id" workspace_id []);
  body = some data_value;
}
issue_request workspace_id (update_issue id data_value) =
    send_json put_method ("/api/issues/" ∷ id ∷ []) data_value
issue_request workspace_id (confirm_issue_plan id) =
    send post_method ("/api/issues/" ∷ id ∷ "/confirm-plan" ∷ [])
issue_request workspace_id (delete_issue id) = send delete_method ("/api/issues/" ∷ id ∷ [])
issue_request workspace_id (batch_update_issues issue_ids updates) =
    send_json post_method ("/api/issues/batch-update" ∷ [])
      (object (field "issue_ids" (array (texts issue_ids)) (field "updates" updates end)))
issue_request workspace_id (batch_delete_issues issue_ids) =
    send_json post_method ("/api/issues/batch-delete" ∷ [])
      (object (field "issue_ids" (array (texts issue_ids)) end))

pub data CommentCall : Type 0 where
  list_comments : String → CommentCall
  create_comment :
      String → String → Option String → Option String → Option (List String) → CommentCall
  list_timeline : String → CommentCall
  update_comment : String → String → CommentCall
  delete_comment : String → CommentCall
  add_reaction : String → String → CommentCall
  remove_reaction : String → String → CommentCall
  add_issue_reaction : String → String → CommentCall
  remove_issue_reaction : String → String → CommentCall

unfoldable pub comment_request : CommentCall → Request
comment_request (list_comments issue_id) =
    send get_method ("/api/issues/" ∷ issue_id ∷ "/comments" ∷ [])
comment_request (create_comment issue_id content type parent_id attachment_ids) =
    send_json post_method ("/api/issues/" ∷ issue_id ∷ "/comments" ∷ []) (
      object (
        field "content" (text content) (
          field "type" (text (get_or type "comment"))
            (text_field "parent_id" parent_id (texts_field "attachment_ids" attachment_ids end)))))
comment_request (list_timeline issue_id) =
    send get_method ("/api/issues/" ∷ issue_id ∷ "/timeline" ∷ [])
comment_request (update_comment comment_id content) =
    send_json put_method ("/api/comments/" ∷ comment_id ∷ [])
      (object (field "content" (text content) end))
comment_request (delete_comment comment_id) =
    send delete_method ("/api/comments/" ∷ comment_id ∷ [])
comment_request (add_reaction comment_id emoji) =
    send_json post_method ("/api/comments/" ∷ comment_id ∷ "/reactions" ∷ [])
      (object (field "emoji" (text emoji) end))
comment_request (remove_reaction comment_id emoji) =
    send_json delete_method ("/api/comments/" ∷ comment_id ∷ "/reactions" ∷ [])
      (object (field "emoji" (text emoji) end))
comment_request (add_issue_reaction issue_id emoji) =
    send_json post_method ("/api/issues/" ∷ issue_id ∷ "/reactions" ∷ [])
      (object (field "emoji" (text emoji) end))
comment_request (remove_issue_reaction issue_id emoji) =
    send_json delete_method ("/api/issues/" ∷ issue_id ∷ "/reactions" ∷ [])
      (object (field "emoji" (text emoji) end))

pub data SubscriberCall : Type 0 where
  list_issue_subscribers : String → SubscriberCall
  subscribe_to_issue : String → Option String → Option String → SubscriberCall
  unsubscribe_from_issue : String → Option String → Option String → SubscriberCall

unfoldable pub subscriber_request : SubscriberCall → Request
subscriber_request (list_issue_subscribers issue_id) =
    send get_method ("/api/issues/" ∷ issue_id ∷ "/subscribers" ∷ [])
subscriber_request (subscribe_to_issue issue_id user_id user_type) =
    send_json post_method ("/api/issues/" ∷ issue_id ∷ "/subscribe" ∷ [])
      (object (text_field "user_id" user_id (text_field "user_type" user_type end)))
subscriber_request (unsubscribe_from_issue issue_id user_id user_type) =
    send_json post_method ("/api/issues/" ∷ issue_id ∷ "/unsubscribe" ∷ [])
      (object (text_field "user_id" user_id (text_field "user_type" user_type end)))
