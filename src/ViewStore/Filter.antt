-- ===== src/ViewStore/Filter.antt =====
-- apps/web/features/issues/utils/filter.ts.
use github_idea_os_app.Base.{
  Bool, true, false, not, ◌&&◌, ◌||◌, some, List, if◌then◌else◌, ◌==◌, string_eq, nat_eq, option_eq,
  is_truthy, any, filter, is_empty, includes,
}
use github_idea_os_app.Types.Issue.{
  Issue, IssueStatus, IssuePriority, status_eq, priority_eq, assignee_type_eq,
}
use github_idea_os_app.ViewStore.{ActorFilterValue, IssueViewState}

pub record IssueFilters : Type 0 where
  pub status_filters : List IssueStatus
  pub priority_filters : List IssuePriority
  pub assignee_filters : List ActorFilterValue
  pub include_no_assignee : Bool
  pub creator_filters : List ActorFilterValue

-- The filters of a view, as the pages pass them on.
abbrev pub filters_of : IssueViewState → IssueFilters
filters_of s = record {
  status_filters = s.status_filters;
  priority_filters = s.priority_filters;
  assignee_filters = s.assignee_filters;
  include_no_assignee = s.include_no_assignee;
  creator_filters = s.creator_filters;
}

-- The assignee's part of the test, where an assignee filter is on.
unfoldable pub passes_assignee : IssueFilters → Issue → Bool
passes_assignee fs issue =
    if not (is_truthy issue.assignee_id)
    then fs.include_no_assignee
    else if not (is_empty fs.assignee_filters)
    then any (λ f. some f.type == issue.assignee_type && some f.id == issue.assignee_id)
        fs.assignee_filters
    else false

unfoldable pub passes : IssueFilters → Issue → Bool
unfolding passes_assignee
passes fs issue =
    let has_assignee_filter = not (is_empty fs.assignee_filters) || fs.include_no_assignee in
    if not (is_empty fs.status_filters) && not (includes fs.status_filters issue.status)
    then false
    else if not (is_empty fs.priority_filters) && not (includes fs.priority_filters issue.priority)
    then false
    else if has_assignee_filter && not (passes_assignee fs issue)
    then false
    else if not (is_empty fs.creator_filters)
        && not
            (any (λ f. f.type == issue.creator_type && f.id == issue.creator_id) fs.creator_filters)
    then false
    else true

unfoldable pub filter_issues : List Issue → IssueFilters → List Issue
unfolding passes
filter_issues issues fs = filter (passes fs) issues
