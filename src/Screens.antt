-- ===== src/Screens.antt =====
-- The small stores of the screens: apps/web/features/navigation/store.ts, features/modals/store.ts, and
-- issues-scope-store.ts and draft-store.ts of features/issues/stores.
use github_idea_os_app.Base.{
  String, ◌≡◌, Bool, false, not, ◌||◌, Option, none, some, List, [], ◌∷◌, if◌then◌else◌, string_eq,
  get_or, is_nonempty, any, Bool-cases, inl, inr,
}
use github_idea_os_app.Base.Text.{starts_with}
use github_idea_os_app.Types.Issue.{
  IssueStatus, todo, IssuePriority, no_priority, IssueAssigneeType,
}
use github_idea_os_app.Types.Value.{Fields}

abbrev pub excluded_prefixes : List String
excluded_prefixes = "/login" ∷ "/pair/" ∷ []

pub record NavigationState : Type 0 where
  pub last_path : String

abbrev pub navigation : NavigationState
navigation = record { last_path = "/issues" }

unfoldable pub on_path_change : String → NavigationState → NavigationState
on_path_change path s =
    if not (any (λ prefix. starts_with path prefix) excluded_prefixes)
    then record s { last_path = path }
    else s

pub data ModalType : Type 0 where
  create_workspace create_issue : ModalType

pub record ModalStore : Type 0 where
  pub modal : Option ModalType
  pub data_of : Option Fields

abbrev pub modals : ModalStore
modals = record { modal = none; data_of = none }

abbrev pub open_modal : ModalType → Option Fields → ModalStore → ModalStore
open_modal modal data_of s = record { modal = some modal; data_of = data_of }

abbrev pub close_modal : ModalStore → ModalStore
close_modal s = record { modal = none; data_of = none }

pub data IssuesScope : Type 0 where
  all members agents : IssuesScope

pub record IssuesScopeState : Type 0 where
  pub scope : IssuesScope

abbrev pub issues_scope : IssuesScopeState
issues_scope = record { scope = all }

abbrev pub set_scope : IssuesScope → IssuesScopeState → IssuesScopeState
set_scope scope s = record { scope = scope }

pub record IssueDraft : Type 0 where
  pub idea_id : Option String
  pub title : String
  pub description : String
  pub status : IssueStatus
  pub priority : IssuePriority
  pub assignee_type : Option IssueAssigneeType
  pub assignee_id : Option String
  pub due_date : Option String

abbrev pub empty_draft : IssueDraft
empty_draft = record {
  idea_id = none;
  title = "";
  description = "";
  status = todo;
  priority = no_priority;
  assignee_type = none;
  assignee_id = none;
  due_date = none;
}

-- `Partial<IssueDraft>`: `none` is a key that is left out.
pub record DraftPatch : Type 0 where
  pub idea_id : Option (Option String)
  pub title : Option String
  pub description : Option String
  pub status : Option IssueStatus
  pub priority : Option IssuePriority
  pub assignee_type : Option (Option IssueAssigneeType)
  pub assignee_id : Option (Option String)
  pub due_date : Option (Option String)

-- `setDraft`
abbrev pub set_draft : DraftPatch → IssueDraft → IssueDraft
set_draft p d = record {
  idea_id = get_or p.idea_id d.idea_id;
  title = get_or p.title d.title;
  description = get_or p.description d.description;
  status = get_or p.status d.status;
  priority = get_or p.priority d.priority;
  assignee_type = get_or p.assignee_type d.assignee_type;
  assignee_id = get_or p.assignee_id d.assignee_id;
  due_date = get_or p.due_date d.due_date;
}

abbrev pub clear_draft : IssueDraft → IssueDraft
clear_draft d = empty_draft

unfoldable pub has_draft : IssueDraft → Bool
has_draft d = is_nonempty d.title || is_nonempty d.description

-- No path of the login or of pairing is ever the last one.
IsKept : NavigationState → Type 0
IsKept s = any (λ prefix. starts_with s.last_path prefix) excluded_prefixes ≡ false

on_path_change-IsKept :
    (path : String) (s : NavigationState) → IsKept s → IsKept (on_path_change path s)
unfolding IsKept on_path_change
on_path_change-IsKept path s h =
    elim (Bool-cases (any (λ prefix. starts_with path prefix) excluded_prefixes)) [
      | inl e ↦ rw e h
      | inr e ↦ rw e e
    ]
