-- ===== src/Types/Comment.antt =====
-- apps/web/shared/types/comment.ts, activity.ts, subscriber.ts and attachment.ts.
use github_idea_os_app.Base.{ℕ, String, Option, List, Eq}
use github_idea_os_app.Types.Issue.{IssueAssigneeType}
use github_idea_os_app.Types.Value.{Value}

pub data CommentType : Type 0 where
  comment status_change progress_update system : CommentType

pub record Reaction : Type 0 where
  pub id : String
  pub comment_id : String
  pub actor_type : String
  pub actor_id : String
  pub emoji : String
  pub created_at : String

pub record Attachment : Type 0 where
  pub id : String
  pub workspace_id : String
  pub issue_id : Option String
  pub comment_id : Option String
  pub uploader_type : String
  pub uploader_id : String
  pub filename : String
  pub url : String
  pub download_url : String
  pub content_type : String
  pub size_bytes : ℕ
  pub created_at : String

-- The reactions of a comment may be missing: the code reads them by `?? []`.
pub record Comment : Type 0 where
  pub id : String
  pub issue_id : String
  pub author_type : IssueAssigneeType
  pub author_id : String
  pub content : String
  pub type : CommentType
  pub parent_id : Option String
  pub reactions : Option (List Reaction)
  pub attachments : List Attachment
  pub created_at : String
  pub updated_at : String

pub data EntryType : Type 0 where
  activity comment : EntryType

pub record TimelineEntry : Type 0 where
  pub type : EntryType
  pub id : String
  pub actor_type : String
  pub actor_id : String
  pub created_at : String
  pub action : Option String
  pub details : Option (List (String × Value))
  pub content : Option String
  pub parent_id : Option String
  pub updated_at : Option String
  pub comment_type : Option String
  pub reactions : Option (List Reaction)
  pub attachments : Option (List Attachment)

pub data SubscriberReason : Type 0 where
  creator assignee commenter mentioned manual : SubscriberReason

unfoldable pub SubscriberReason-discrete : Discrete SubscriberReason
SubscriberReason-discrete = hlevel

instance abbrev pub reason_eq : Eq SubscriberReason
reason_eq = record { dec = SubscriberReason-discrete }

pub record IssueSubscriber : Type 0 where
  pub issue_id : String
  pub user_type : IssueAssigneeType
  pub user_id : String
  pub reason : SubscriberReason
  pub created_at : String
