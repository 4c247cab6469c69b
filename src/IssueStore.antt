-- ===== src/IssueStore.antt =====
-- apps/web/features/issues/store.ts. An asynchronous action is cut at its `await`: what runs before
-- it, and what runs when the answer is there, with other actions in between. Toasts and logs are
-- left out.
pub mod Laws
mod Tests
use github_idea_os_app.Base.{
  ℕ, zero, suc, ◌+◌, ◌-◌, ◌*◌, ◌/◌, ◌%◌, ◌≤◌, ◌<◌, Ordering, compare, String, ◌≡◌, refl, sym, ap,
  subst, ◌∙◌, ◌≢◌, ◌↔◌, ◌⊎◌, inl, inr, Bool, true, false, not, ◌&&◌, ◌||◌, Option, none, some, List,
  [], ◌∷◌, ◌++◌, map, arith, if◌then◌else◌, Bool-cases, Option-cases, Eq, ◌==◌, string_eq, nat_eq,
  option_eq, ltb, leb, get_or, or_else, is_some, is_nonempty, is_truthy, length, any, filter, find,
  head?, is_empty, All, length-append, length-filter-le, any-append, any-filter, filter-append,
  includes, has, IsUnique, IsUnique-concat, IsUnique-filter, has-map, IsUnique-map, map_option,
  find_key, remove_key, map_key, add_new, has-find_key, find_key-append, find_key-remove_key,
  find_key-map_key, find_key-add_new, IsUnique-add_new, IsUnique-map_key,
}
use github_idea_os_app.Base.Async.{Response, resolved, rejected}
use github_idea_os_app.Types.Issue.{Issue, IssueUpdates, spread}

pub record IssueState : Type 0 where
  pub issues : List Issue
  pub loading : Bool
  pub active_issue_id : Option String

pub initial : IssueState
initial = record { issues = []; loading = true; active_issue_id = none }

-- `fetch` up to `api.listIssues`: the new state, and the local `isInitialLoad`.
unfoldable pub fetch_start : IssueState → IssueState × Bool
fetch_start s =
    let is_initial_load = is_empty s.issues in
    (if is_initial_load then record s { loading = true } else s, is_initial_load)

-- `fetch` once the server has answered.
unfoldable pub fetch_end : Bool → Response (List Issue) → IssueState → IssueState
fetch_end is_initial_load (resolved issues) s = record s { issues = issues; loading = false }
fetch_end is_initial_load rejected s = if is_initial_load then record s { loading = false } else s

unfoldable pub set_issues : List Issue → IssueState → IssueState
set_issues issues s = record s { issues = issues }

unfoldable pub add_issue : Issue → IssueState → IssueState
add_issue issue s = record s {
  issues = if any (λ i. i.id == issue.id) s.issues then s.issues else s.issues ++ issue ∷ [];
}

unfoldable pub update_issue : String → IssueUpdates → IssueState → IssueState
update_issue id updates s = record s {
  issues = map (λ i. if i.id == id then spread i updates else i) s.issues;
}

unfoldable pub remove_issue : String → IssueState → IssueState
remove_issue id s = record s { issues = filter (λ i. not (i.id == id)) s.issues }

unfoldable pub set_active_issue : Option String → IssueState → IssueState
set_active_issue id s = record s { active_issue_id = id }
