-- ===== src/Realtime/Handlers.antt =====
-- The handlers of single events in apps/web/features/realtime/use-realtime-sync.ts, on the state of
-- the workspace store and of the stores beside it. A part of a payload that may be missing is an
-- `Option`.
use github_idea_os_app.Base.{
  String, ◌≡◌, refl, ap, ◌∙◌, ◌⊎◌, inl, inr, Bool, true, false, not, Option, none, some, List, [],
  ◌∷◌, map, arith, if◌then◌else◌, Bool-cases, Option-cases, ◌==◌, string_eq, nat_eq, option_eq,
  option_discrete, or_else, is_nonempty, find, All, map_option,
}
use github_idea_os_app.Base.Async.{Response, resolved, rejected}
use github_idea_os_app.Types.Issue.{Issue, IssueUpdates, IssueStatus, spread}
use github_idea_os_app.Types.Inbox.{InboxItem}
use github_idea_os_app.Types.Workspace.{Workspace}
use github_idea_os_app.IssueStore
use github_idea_os_app.InboxStore
use github_idea_os_app.IssueStore.{add_issue, update_issue, remove_issue}
use github_idea_os_app.InboxStore.{update_issue_status}
use github_idea_os_app.WorkspaceStore.{AppState, update_workspace}

-- `issue:updated`
unfoldable pub on_issue_updated : Option IssueUpdates → AppState → AppState
on_issue_updated none s = s
on_issue_updated (some issue) s = elim issue.id [
  | none ↦ s
  | some id ↦ if not (is_nonempty id) then s else record s {
    issues = update_issue id issue s.issues;
    inbox = elim issue.status [
      | none ↦ s.inbox
      | some status ↦ update_issue_status id status s.inbox
    ];
  }
]

-- `issue:created`
unfoldable pub on_issue_created : Option Issue → AppState → AppState
on_issue_created none s = s
on_issue_created (some issue) s = record s { issues = add_issue issue s.issues }

-- `issue:deleted`
unfoldable pub on_issue_deleted : Option String → AppState → AppState
on_issue_deleted none s = s
on_issue_deleted (some issue_id) s =
    if is_nonempty issue_id then record s { issues = remove_issue issue_id s.issues } else s

-- `inbox:new` up to the answer of its fetch; the payload may have no item.
unfoldable pub on_inbox_new : Option InboxItem → AppState → AppState × Bool
on_inbox_new none s = (s, false)
on_inbox_new (some item) s =
    let started = InboxStore.fetch_start s.inbox in (record s { inbox = started.0 }, started.1)

-- The refetch after a reconnection up to its answers: whether the issues and the inbox load for the
-- first time. The three refreshes of the workspace store change nothing before their answers.
unfoldable pub on_reconnect : AppState → AppState × (Bool × Bool)
on_reconnect s =
    let issues = IssueStore.fetch_start s.issues in
    let inbox = InboxStore.fetch_start s.inbox in
    (record s { issues = issues.0; inbox = inbox.0 }, (issues.1, inbox.1))

-- The refresh of `workspace`, once the server has answered.
unfoldable pub workspace_refreshed : Response (List Workspace) → AppState → AppState
workspace_refreshed rejected s = s
workspace_refreshed (resolved ws_list) s = elim s.workspace [
  | none ↦ s
  | some current ↦ elim (find (λ w. w.id == current.id) ws_list) [
    | none ↦ s
    | some updated ↦ update_workspace updated s
  ]
]

-- Whether `workspace:deleted`, `member:removed` and `member:added` refresh the workspaces.
unfoldable pub workspace_deleted_refreshes : String → AppState → Bool
workspace_deleted_refreshes workspace_id s = map_option (λ w. w.id) s.workspace == some workspace_id

unfoldable pub member_refreshes : String → Option String → Bool
member_refreshes user_id my_user_id = some user_id == my_user_id

-- An issue of the list, or an item of the inbox, that is of an issue shows its status.
abbrev pub ShowsStatus : String → IssueStatus → Issue → Type 0
ShowsStatus id status i = ((i.id == id) ≡ false) ⊎ (i.status ≡ status)

abbrev pub ItemShowsStatus : String → IssueStatus → InboxItem → Type 0
ItemShowsStatus id status i = ((i.issue_id == some id) ≡ false) ⊎ (i.issue_status ≡ some status)

issue_shows :
    (id : String) (status : IssueStatus) (u : IssueUpdates)
    → u.status ≡ some status
    → (issues : List Issue)
    → All (ShowsStatus id status) (map (λ i. if i.id == id then spread i u else i) issues)
unfolding spread
issue_shows id status u h [] = tt
issue_shows id status u h (i ∷ issues) = elim (Bool-cases (i.id == id)) [
  | inl e ↦ rw e (inr (rw h refl), issue_shows id status u h issues)
  | inr e ↦ rw e (inl e, issue_shows id status u h issues)
]

item_shows :
    (id : String) (status : IssueStatus) (items : List InboxItem)
    → All (ItemShowsStatus id status) (
        map
          (λ i. if i.issue_id == some id then record i { issue_status = some status } else i)
          items)
item_shows id status [] = tt
item_shows id status (i ∷ items) = elim (Bool-cases (i.issue_id == some id)) [
  | inl e ↦ rw e (inr refl, item_shows id status items)
  | inr e ↦ rw e (inl e, item_shows id status items)
]

-- After an update of an issue that carries a status, the issue of the list and every item of the inbox
-- that is of that issue show this status.
pub on_issue_updated_lem :
    (issue : IssueUpdates) (id : String) (status : IssueStatus) (s : AppState)
    → issue.id ≡ some id
    → is_nonempty id ≡ true
    → issue.status ≡ some status
    → All (ShowsStatus id status) (on_issue_updated (some issue) s).issues.issues
      × All (ItemShowsStatus id status) (on_issue_updated (some issue) s).inbox.items
unfolding on_issue_updated update_issue update_issue_status
on_issue_updated_lem issue id status s i n h =
    rw (i, n, h)
      (
        issue_shows id status (record issue { id = some id; status = some status }) refl
            s.issues.issues,
        item_shows id status s.inbox.items,
      )

find_same :
    (id : String) (ws : List Workspace) (w : Workspace)
    → find (λ w. w.id == id) ws ≡ some w
    → w.id ≡ id
find_same id [] w h = cc
find_same id (v ∷ ws) w h = ground (arith, find_same id ws w)

find-some_id :
    (id : String) (ws : List Workspace)
    → find (λ w. some w.id == some id) ws ≡ find (λ w. w.id == id) ws
find-some_id id [] = refl
find-some_id id (w ∷ ws) = ground (arith, find-some_id id ws)

none_found : (ws : List Workspace) → none ≡ or_else (find (λ w. some w.id == none) ws) none
unfolding option_discrete
none_found [] = refl
none_found (w ∷ ws) = none_found ws

same_test : (a b : String) → a ≡ b → (some b == some a) ≡ true
same_test a b e = ground arith

updates :
    (w : Workspace) (s : AppState)
    → (map_option (λ v. v.id) s.workspace == some w.id) ≡ true
    → (update_workspace w s).workspace ≡ some w
unfolding update_workspace
updates w s h = rw (update_workspace, h) refl

-- A refresh of the workspaces keeps the id of the open one, and shows what the server has for it.
pub workspace_refreshed_lem :
    (ws_list : List Workspace) (s : AppState)
    → (map_option (λ w. w.id) (workspace_refreshed (resolved ws_list) s).workspace
        ≡ map_option (λ w. w.id) s.workspace)
      × ((workspace_refreshed (resolved ws_list) s).workspace
          ≡ or_else
              (find (λ w. some w.id == map_option (λ v. v.id) s.workspace) ws_list)
              s.workspace)
unfolding workspace_refreshed update_workspace
workspace_refreshed_lem ws_list s = elim (Option-cases s.workspace) [
  | inl e ↦ rw e (refl, none_found ws_list)
  | inr (current, e) ↦ elim (Option-cases (find (λ w. w.id == current.id) ws_list)) [
    | inl f ↦
        rw (e, workspace_refreshed, find-some_id current.id ws_list, f)
          (ap (map_option (λ w. w.id)) e, e)
    | inr (w, f) ↦
        let same = find_same current.id ws_list w f in
        let p = updates w s (rw e (same_test w.id current.id same)) in
        rw (e, workspace_refreshed, find-some_id current.id ws_list, f)
          (ap (map_option (λ v. v.id)) p ∙ ap some same, p)
  ]
]
