-- ===== src/IssueStore/Tests.antt =====
-- Two issues, changed while a fetch is under way.
use github_idea_os_app.Base.{
  ◌≡◌, refl, inl, false, none, some, List, [], ◌∷◌, Bool-cases, string_eq, string_discrete, nat_eq,
  option_eq,
}
use github_idea_os_app.Types.Issue.{IssueUpdates, IssueStatus, no_updates}
use github_idea_os_app.Samples.{an_issue, some_issues}
use github_idea_os_app.IssueStore.{IssueState}
use github_idea_os_app.IssueStore.Laws.{
  Action, add, update, remove, step, run, HasUniqueIds, issue_at, apply_to_map, issue_at-step,
  run-HasUniqueIds,
}

abbrev store : IssueState
store = record { issues = some_issues; loading = false; active_issue_id = none }

abbrev renaming : IssueUpdates
renaming = record no_updates { title = some "new" }

issue_at-step_example :
    issue_at (step (update "i1" renaming) store) "i1"
    ≡ apply_to_map (update "i1" renaming) (issue_at store) "i1"
issue_at-step_example = issue_at-step (update "i1" renaming) store "i1" (inl refl)

abbrev changes : List Action
changes = add (an_issue "i3" IssueStatus.todo none) ∷ update "i1" renaming ∷ remove "i2" ∷ []

store-HasUniqueIds : HasUniqueIds store
unfolding string_discrete Bool-cases
store-HasUniqueIds = (refl, (refl, tt))

run-HasUniqueIds_example : HasUniqueIds (run changes store)
run-HasUniqueIds_example =
    run-HasUniqueIds changes store (tt, (inl refl, (tt, tt))) store-HasUniqueIds
