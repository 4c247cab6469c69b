-- ===== src/ViewStore.antt =====
-- apps/web/features/issues/stores/view-store.ts and the orders of features/issues/config: how the
-- issues are shown. The state is kept in the browser's storage by a library, which is left out.
pub mod Config
pub mod Filter
pub mod Order
pub mod Visible
pub mod Hidden
mod Tests
use github_idea_os_app.Base.{
  ℕ, zero, suc, ◌+◌, ◌-◌, ◌*◌, ◌/◌, ◌%◌, ◌≤◌, ◌<◌, Ordering, compare, String, ◌≡◌, refl, sym, ap,
  subst, ◌∙◌, ◌≢◌, ◌↔◌, ◌⊎◌, inl, inr, Bool, true, false, not, ◌&&◌, ◌||◌, Option, none, some, List,
  [], ◌∷◌, ◌++◌, map, arith, if◌then◌else◌, Bool-cases, Option-cases, Eq, ◌==◌, string_eq,
  string_discrete, nat_eq, option_eq, ltb, leb, get_or, or_else, is_some, is_nonempty, is_truthy,
  length, any, filter, find, head?, is_empty, All, length-append, length-filter-le, any-append,
  any-filter, filter-append, includes, has, IsUnique, IsUnique-concat, IsUnique-filter, has-map,
  IsUnique-map, map_option, find_key, remove_key, map_key, add_new, has-find_key, find_key-append,
  find_key-remove_key, any-eq_true, All-append, All-filter, All-of_forall, All-imp, All-filter-map,
  eq_nil_of_All, map-congr, map-map, All-zip, All-of_none, All-filter_self, any_of_All, All-mem,
  Mem, Perm, find_key-map_key, find_key-add_new, IsUnique-add_new, IsUnique-map_key,
}
use github_idea_os_app.Types.Issue.{
  IssueStatus, IssuePriority, IssueAssigneeType, status_eq, priority_eq, assignee_type_eq,
}
use Config.{all_statuses}

pub data ViewMode : Type 0 where
  board list : ViewMode

pub data SortField : Type 0 where
  position priority due_date created_at title : SortField

pub data SortDirection : Type 0 where
  asc desc : SortDirection

pub record CardProperties : Type 0 where
  pub priority : Bool
  pub description : Bool
  pub assignee : Bool
  pub due_date : Bool

-- `keyof CardProperties`
pub data CardProperty : Type 0 where
  priority description assignee due_date : CardProperty

pub record ActorFilterValue : Type 0 where
  pub type : IssueAssigneeType
  pub id : String

pub record IssueViewState : Type 0 where
  pub view_mode : ViewMode
  pub status_filters : List IssueStatus
  pub priority_filters : List IssuePriority
  pub assignee_filters : List ActorFilterValue
  pub include_no_assignee : Bool
  pub creator_filters : List ActorFilterValue
  pub sort_by : SortField
  pub sort_direction : SortDirection
  pub card_properties : CardProperties
  pub list_collapsed_statuses : List IssueStatus

pub initial : IssueViewState
initial = record {
  view_mode = board;
  status_filters = [];
  priority_filters = [];
  assignee_filters = [];
  include_no_assignee = false;
  creator_filters = [];
  sort_by = position;
  sort_direction = asc;
  card_properties = record {
    priority = true;
    description = true;
    assignee = true;
    due_date = true;
  };
  list_collapsed_statuses = [];
}

unfoldable pub set_view_mode : ViewMode → IssueViewState → IssueViewState
set_view_mode mode s = record s { view_mode = mode }

-- `xs.includes(x) ? xs.filter((y) => y !== x) : [...xs, x]`
unfoldable pub toggle_value {ℓ} : {A : Type ℓ} ⦃e : Eq A⦄ → A → List A → List A
toggle_value x xs = if includes xs x then filter (λ y. not (y == x)) xs else xs ++ x ∷ []

unfoldable pub toggle_status_filter : IssueStatus → IssueViewState → IssueViewState
unfolding toggle_value
toggle_status_filter status s = record s { status_filters = toggle_value status s.status_filters }

unfoldable pub toggle_priority_filter : IssuePriority → IssueViewState → IssueViewState
unfolding toggle_value
toggle_priority_filter wanted s = record s {
  priority_filters = toggle_value wanted s.priority_filters;
}

-- `f.type === value.type && f.id === value.id`
abbrev pub is_actor : ActorFilterValue → ActorFilterValue → Bool
is_actor value f = f.type == value.type && f.id == value.id

unfoldable pub toggle_actor : ActorFilterValue → List ActorFilterValue → List ActorFilterValue
toggle_actor value filters =
    if any (is_actor value) filters
    then filter (λ f. not (is_actor value f)) filters
    else filters ++ value ∷ []

unfoldable pub toggle_assignee_filter : ActorFilterValue → IssueViewState → IssueViewState
unfolding toggle_actor
toggle_assignee_filter value s = record s {
  assignee_filters = toggle_actor value s.assignee_filters;
}

unfoldable pub toggle_no_assignee : IssueViewState → IssueViewState
toggle_no_assignee s = record s { include_no_assignee = not s.include_no_assignee }

unfoldable pub toggle_creator_filter : ActorFilterValue → IssueViewState → IssueViewState
unfolding toggle_actor
toggle_creator_filter value s = record s { creator_filters = toggle_actor value s.creator_filters }

unfoldable pub hide_status : IssueStatus → IssueViewState → IssueViewState
hide_status status s =
    if is_empty s.status_filters
    then record s { status_filters = filter (λ t. not (t == status)) all_statuses }
    else record s { status_filters = filter (λ t. not (t == status)) s.status_filters }

unfoldable pub show_status : IssueStatus → IssueViewState → IssueViewState
show_status status s =
    if is_empty s.status_filters
    then s
    else if includes s.status_filters status
    then s
    else record s { status_filters = s.status_filters ++ status ∷ [] }

unfoldable pub clear_filters : IssueViewState → IssueViewState
clear_filters s = record s {
  status_filters = [];
  priority_filters = [];
  assignee_filters = [];
  include_no_assignee = false;
  creator_filters = [];
}

unfoldable pub set_sort_by : SortField → IssueViewState → IssueViewState
set_sort_by field s = record s { sort_by = field }

unfoldable pub set_sort_direction : SortDirection → IssueViewState → IssueViewState
set_sort_direction dir s = record s { sort_direction = dir }

unfoldable pub toggle_property : CardProperty → CardProperties → CardProperties
toggle_property priority p = record p { priority = not p.priority }
toggle_property description p = record p { description = not p.description }
toggle_property assignee p = record p { assignee = not p.assignee }
toggle_property due_date p = record p { due_date = not p.due_date }

unfoldable pub toggle_card_property : CardProperty → IssueViewState → IssueViewState
unfolding toggle_property
toggle_card_property key s = record s { card_properties = toggle_property key s.card_properties }

unfoldable pub toggle_list_collapsed : IssueStatus → IssueViewState → IssueViewState
unfolding toggle_value
toggle_list_collapsed status s = record s {
  list_collapsed_statuses = toggle_value status s.list_collapsed_statuses;
}

-- The subscription that `registerViewStoreForWorkspaceSync` makes: the id seen last, and the
-- registered stores.
unfoldable pub on_workspace :
    Option String → Option String → List IssueViewState → Option String × List IssueViewState
unfolding clear_filters
on_workspace prev_id id stores =
    (id, (if is_truthy prev_id && not (id == prev_id) then map clear_filters stores else stores))
