-- ===== src/WorkspaceStore/Switch.antt =====
-- Which workspace is opened, and what switching to another leaves behind.
use github_idea_os_app.Base.{
  String, ◌≡◌, refl, ap, ◌∙◌, inl, inr, Bool, true, false, not, ◌&&◌, Option, none, some, List, [],
  ◌∷◌, arith, if◌then◌else◌, Bool-cases, Option-cases, ◌==◌, string_eq, nat_eq, option_eq, or_else,
  is_nonempty, is_truthy, any, find, head?, map_option,
}
use github_idea_os_app.Types.Workspace.{Workspace}
use github_idea_os_app.IssueStore
use github_idea_os_app.IssueStore.{IssueState}
use github_idea_os_app.InboxStore
use github_idea_os_app.RuntimeStore
use github_idea_os_app.WorkspaceStore.{
  AppState, choose, hydrate_start, switch_workspace, leave_start, leave_end,
}

-- The id of the open workspace.
abbrev pub open_id : AppState → Option String
open_id s = map_option (λ w. w.id) s.workspace

find_id :
    (id : String) (ws : List Workspace)
    → map_option (λ w. w.id) (find (λ w. some w.id == some id) ws)
      ≡ (if any (λ w. w.id == id) ws then some id else none)
find_id id [] = refl
find_id id (w ∷ ws) = ground (arith, find_id id ws)

any-some :
    (id : String) (ws : List Workspace)
    → any (λ w. some w.id == some id) ws ≡ any (λ w. w.id == id) ws
any-some id [] = refl
any-some id (w ∷ ws) = ground (arith, any-some id ws)

choose_id :
    (ws : List Workspace) (preferred : Option String)
    → map_option (λ w. w.id) (choose ws preferred) ≡ (
        if is_truthy preferred && any (λ w. some w.id == preferred) ws
        then preferred
        else map_option (λ w. w.id) (head? ws))
unfolding choose
choose_id ws none = refl
choose_id ws (some id) =
    rw (choose, any-some id ws)
      (from_find (is_nonempty id) (any (λ w. w.id == id) ws) (find (λ w. some w.id == some id) ws)
        (find_id id ws))
  where
    from_find :
        (t b : Bool) (o : Option Workspace)
        → map_option (λ w. w.id) o ≡ (if b then some id else none)
        → map_option (λ w. w.id) (or_else (if t then o else none) (head? ws))
          ≡ (if t && b then some id else map_option (λ w. w.id) (head? ws))
    from_find false b o h = refl
    from_find true true none h = cc
    from_find true true (some w) h = h
    from_find true false none h = refl
    from_find true false (some w) h = cc

open_id-hydrate_start :
    (ws : List Workspace) (preferred : Option String) (s : AppState)
    → open_id (hydrate_start ws preferred s).0 ≡ map_option (λ w. w.id) (choose ws preferred)
unfolding hydrate_start
open_id-hydrate_start ws preferred s = elim (Option-cases (choose ws preferred)) [
  | inl e ↦ rw (hydrate_start, e) refl
  | inr (w, e) ↦ rw (hydrate_start, e) refl
]

head_other :
    (id : String) (ws : List Workspace)
    → any (λ w. w.id == id) ws ≡ false
    → (map_option (λ w. w.id) (head? ws) == some id) ≡ false
head_other id [] h = ground arith
head_other id (w ∷ ws) h = ground arith

leave_opens :
    (id : String) (ws : List Workspace) (s : AppState)
    → open_id (leave_end ws (leave_start id s) s).0 ≡ (
        if not (open_id s == some id)
          && is_truthy (open_id s)
          && any (λ w. some w.id == open_id s) ws
        then open_id s
        else map_option (λ w. w.id) (head? ws))
unfolding leave_end leave_start
leave_opens id ws s =
    open_id-hydrate_start ws (leave_start id s) s
    ∙ choose_id ws (leave_start id s)
    ∙ preferred (open_id s)
  where
    preferred :
        (o : Option String)
        → (if is_truthy (if o == some id then none else o)
              && any (λ w. some w.id == (if o == some id then none else o)) ws
            then (if o == some id then none else o)
            else map_option (λ w. w.id) (head? ws))
          ≡ (if not (o == some id) && is_truthy o && any (λ w. some w.id == o) ws
              then o
              else map_option (λ w. w.id) (head? ws))
    preferred o = elim (Bool-cases (o == some id)) [ inl e ↦ rw e refl | inr e ↦ rw e refl ]

pick_other :
    (id : String) (o first : Option String) (t b : Bool)
    → (first == some id) ≡ false
    → ((if not (o == some id) && t && b then o else first) == some id) ≡ false
pick_other id o first t b h = ground arith

-- Leaving or deleting a workspace: one that the new list of the server no longer has is not open
-- afterwards. The workspace that was open stays open if it is another one and the list has it; else
-- the first of the list is opened, if there is one.
pub leave_end-leave_start :
    (id : String) (ws : List Workspace) (s : AppState)
    → any (λ w. w.id == id) ws ≡ false
    → let next = (leave_end ws (leave_start id s) s).0 in
      ((open_id next == some id) ≡ false)
      × (open_id next ≡ (
          if not (open_id s == some id)
            && is_truthy (open_id s)
            && any (λ w. some w.id == open_id s) ws
          then open_id s
          else map_option (λ w. w.id) (head? ws)))
leave_end-leave_start id ws s h = (
  ap (λ o. o == some id) (leave_opens id ws s)
      ∙ pick_other id (open_id s) (map_option (λ w. w.id) (head? ws)) (is_truthy (open_id s))
          (any (λ w. some w.id == open_id s) ws) (head_other id ws h),
  leave_opens id ws s,
)

selection_nil : (id : String) → RuntimeStore.selection id [] ≡ ""
unfolding RuntimeStore.selection
selection_nil id = ground arith

find_by_id :
    (id : String) (ws : List Workspace)
    → any (λ w. w.id == id) ws ≡ true
    → (w : Workspace) × (find (λ w. w.id == id) ws ≡ some w) × (w.id ≡ id)
find_by_id id [] h = cc
find_by_id id (w ∷ ws) h = elim (Bool-cases (w.id == id)) [
  | inl e ↦ (w, rw e refl, ground arith)
  | inr e ↦ rw e (find_by_id id ws (ground arith))
]

choose_by_id :
    (id : String) (ws : List Workspace)
    → is_nonempty id ≡ true
    → any (λ w. w.id == id) ws ≡ true
    → (w : Workspace) × (choose ws (some id) ≡ some w) × (w.id ≡ id)
choose_by_id id ws n h =
    from_id (choose ws (some id)) (choose_id ws (some id) ∙ rw (n, any-some id ws, h) refl)
  where
    from_id :
        (o : Option Workspace)
        → map_option (λ w. w.id) o ≡ some id
        → (w : Workspace) × (o ≡ some w) × (w.id ≡ id)
    from_id none e = cc
    from_id (some w) e = (w, refl, cc)

-- Switching to a workspace of the list opens it and leaves nothing of the one before: no issues, no
-- inbox, no runtimes, members, agents or skills, while issues and inbox are loading.
pub switch_workspace_lem :
    (id : String) (s : AppState)
    → is_nonempty id ≡ true
    → any (λ w. w.id == id) s.workspaces ≡ true
    → let next = (switch_workspace id s).0 in
      (open_id next ≡ some id)
      × (next.api_workspace_id ≡ some id)
      × (next.stored_workspace_id ≡ some id)
      × (next.issues.issues ≡ [])
      × (next.issues.loading ≡ true)
      × (next.inbox.items ≡ [])
      × (next.inbox.loading ≡ true)
      × (next.runtimes.runtimes ≡ [])
      × (next.runtimes.selected_id ≡ "")
      × (next.members ≡ [])
      × (next.agents ≡ [])
      × (next.skills ≡ [])
unfolding switch_workspace hydrate_start IssueStore.fetch_start InboxStore.fetch_start
    IssueStore.set_issues InboxStore.set_items RuntimeStore.set_runtimes
switch_workspace_lem id s n h =
    let (w, found, same) = find_by_id id s.workspaces h in
    let (next, chosen, is_next) = choose_by_id id s.workspaces n h in
    rw (switch_workspace, found, same, hydrate_start, chosen, is_next)
      (
        refl,
        refl,
        refl,
        refl,
        refl,
        refl,
        refl,
        refl,
        selection_nil s.runtimes.selected_id,
        refl,
        refl,
        refl,
      )
