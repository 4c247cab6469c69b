-- ===== src/ViewStore/Tests.antt =====
-- Two issues, one of them done and without a due date.
use github_idea_os_app.Base.{
  Ordering, compare, String, ◌≡◌, refl, ◌↔◌, true, false, none, [], ◌∷◌, arith, if◌then◌else◌, ◌==◌,
  string_eq, nat_eq, option_eq, is_empty, Perm,
}
use github_idea_os_app.Base.Int.{ℤ, pos}
use github_idea_os_app.Base.Sort.{IsOrder}
use github_idea_os_app.Types.Issue.{IssueStatus-discrete, todo, done, status_eq}
use github_idea_os_app.Samples.{a_time, an_issue, some_issues}
use github_idea_os_app.ViewStore
use github_idea_os_app.ViewStore.{IssueViewState, SortField, asc, hide_status, show_status}
use github_idea_os_app.ViewStore.Filter.{passes, filters_of, filter_issues}
use github_idea_os_app.ViewStore.Visible.{Shows, passes_iff}
use github_idea_os_app.ViewStore.Hidden.{show_status-hide_status}
use github_idea_os_app.ViewStore.Order.{sort_issues, AreOrdered, sort_issues-AreOrdered}

abbrev view : IssueViewState
view = record {
  view_mode = ViewStore.board;
  status_filters = [];
  priority_filters = [];
  assignee_filters = [];
  include_no_assignee = true;
  creator_filters = [];
  sort_by = SortField.position;
  sort_direction = asc;
  card_properties = record {
    priority = true;
    description = true;
    assignee = true;
    due_date = true;
  };
  list_collapsed_statuses = [];
}

passes_iff_example :
    (passes (filters_of view) (an_issue "i1" done none) ≡ true)
    ↔ Shows (filters_of view) (an_issue "i1" done none)
passes_iff_example = passes_iff (filters_of view) (an_issue "i1" done none)

abbrev only_todo : IssueViewState
only_todo = record view { status_filters = todo ∷ [] }

some_left : is_empty (hide_status done view).status_filters ≡ false
unfolding hide_status IssueStatus-discrete
some_left = refl

show_status-hide_status_example :
    filter_issues some_issues (filters_of (show_status done (hide_status done view)))
    ≡ filter_issues some_issues (filters_of view)
show_status-hide_status_example = show_status-hide_status done view some_issues refl

-- A collation by length alone, and times after 1970.
abbrev collate : String → String → Ordering
collate a b = compare (if a == "" then 0 else 1) (if b == "" then 0 else 1)

collate-IsOrder : IsOrder collate
collate-IsOrder = record { total = λ a b h. ground arith; trans = λ a b c h k. ground arith }

abbrev time : String → ℤ
time s = pos (a_time s)

sort_issues-AreOrdered_example :
    Perm (sort_issues time collate some_issues SortField.title asc) some_issues
    × AreOrdered time collate SortField.title
        (sort_issues time collate some_issues SortField.title asc)
sort_issues-AreOrdered_example =
    sort_issues-AreOrdered time collate some_issues SortField.title collate-IsOrder
