-- ===== src/InboxStore.antt =====
-- apps/web/features/inbox/store.ts. `time` stands for `new Date(s).getTime()` on the timestamps of
-- the server, which are valid and not before 1970. Toasts and logs are left out.
pub mod Groups
pub mod Newest
pub mod Dedup
pub mod Memo
pub mod Bulk
mod Tests
use github_idea_os_app.Base.{
  ℕ, zero, suc, ◌+◌, ◌-◌, ◌*◌, ◌/◌, ◌%◌, ◌≤◌, ◌<◌, Ordering, compare, String, ◌≡◌, refl, sym, ap,
  subst, ◌∙◌, ◌≢◌, ◌↔◌, ◌⊎◌, inl, inr, Bool, true, false, not, ◌&&◌, ◌||◌, Option, none, some, List,
  [], ◌∷◌, ◌++◌, map, arith, if◌then◌else◌, Bool-cases, Option-cases, Eq, ◌==◌, string_eq, nat_eq,
  option_eq, ltb, leb, get_or, or_else, is_some, is_nonempty, is_truthy, length, any, filter, find,
  head?, is_empty, All, length-append, length-filter-le, any-append, any-filter, filter-append,
  includes, has, IsUnique, IsUnique-concat, IsUnique-filter, has-map, IsUnique-map, map_option,
  find_key, remove_key, map_key, add_new, has-find_key, find_key-append, find_key-remove_key,
  any-eq_true, All-append, All-filter, All-of_forall, All-imp, All-filter_self, any_of_All, All-mem,
  Mem, Perm, find_key-map_key, find_key-add_new, IsUnique-add_new, IsUnique-map_key,
}
use github_idea_os_app.Base.Async.{Response, resolved, rejected}
use github_idea_os_app.Base.Dict.{Dict, get, set}
use github_idea_os_app.Base.Sort.{sort}
use github_idea_os_app.Types.Issue.{IssueStatus}
use github_idea_os_app.Types.Inbox.{InboxItem}

pub record InboxState : Type 0 where
  pub items : List InboxItem
  pub loading : Bool

pub initial : InboxState
initial = record { items = []; loading = true }

-- The key of an item's group: `item.issue_id ?? item.id`.
abbrev pub group_key : InboxItem → String
group_key item = get_or item.issue_id item.id

-- `groups.get(key) ?? []`, pushed to and set again.
unfoldable pub add_to_group :
    Dict String (List InboxItem) → InboxItem → Dict String (List InboxItem)
add_to_group groups item =
    set (group_key item) (get_or (get (group_key item) groups) [] ++ item ∷ []) groups

-- `active.forEach(…)`
unfoldable pub group_items :
    List InboxItem → Dict String (List InboxItem) → Dict String (List InboxItem)
group_items [] groups = groups
group_items (item ∷ items) groups = group_items items (add_to_group groups item)

module _ (time : String → ℕ) where
  -- `new Date(b.created_at).getTime() - new Date(a.created_at).getTime()`
  abbrev pub newest_first : InboxItem → InboxItem → Ordering
  newest_first a b = compare (time b.created_at) (time a.created_at)

  -- `groups.forEach(…)`: the newest item of each group.
  unfoldable pub newest_of_groups : Dict String (List InboxItem) → List InboxItem
  newest_of_groups [] = []
  newest_of_groups ((key, group) ∷ groups) = elim (head? (sort newest_first group)) [
    | none ↦ newest_of_groups groups
    | some item ↦ item ∷ newest_of_groups groups
  ]

  -- `deduplicateInboxItems` without its memory.
  unfoldable pub deduplicate : List InboxItem → List InboxItem
  deduplicate items =
      sort newest_first (newest_of_groups (group_items (filter (λ i. not i.archived) items) []))

  unfoldable pub unread_count : InboxState → ℕ
  unread_count s = length (filter (λ i. not i.read) (deduplicate s.items))

-- `fetch` up to `api.listInbox`: the new state, and the local `isInitialLoad`.
unfoldable pub fetch_start : InboxState → InboxState × Bool
fetch_start s =
    let is_initial_load = is_empty s.items in
    (if is_initial_load then record s { loading = true } else s, is_initial_load)

unfoldable pub fetch_end : Bool → Response (List InboxItem) → InboxState → InboxState
fetch_end is_initial_load (resolved data') s = record s { items = data'; loading = false }
fetch_end is_initial_load rejected s = if is_initial_load then record s { loading = false } else s

unfoldable pub set_items : List InboxItem → InboxState → InboxState
set_items items s = record s { items = items }

unfoldable pub add_item : InboxItem → InboxState → InboxState
add_item item s = record s {
  items = if any (λ i. i.id == item.id) s.items then s.items else item ∷ s.items;
}

unfoldable pub mark_read : String → InboxState → InboxState
mark_read id s = record s {
  items = map (λ i. if i.id == id then record i { read = true } else i) s.items;
}

-- `target?.issue_id`
unfoldable pub target_issue : String → List InboxItem → Option String
target_issue id items = elim (find (λ i. i.id == id) items) [
  | none ↦ none
  | some target ↦ target.issue_id
]

unfoldable pub archive : String → InboxState → InboxState
archive id s =
    let issue_id = target_issue id s.items in
    record s {
      items =
          map
            (λ i.
              if i.id == id || (is_truthy issue_id && i.issue_id == issue_id)
              then record i { archived = true }
              else i)
            s.items;
    }

unfoldable pub mark_all_read : InboxState → InboxState
mark_all_read s = record s {
  items = map (λ i. if not i.archived then record i { read = true } else i) s.items;
}

unfoldable pub archive_all : InboxState → InboxState
archive_all s = record s {
  items = map (λ i. if not i.archived then record i { archived = true } else i) s.items;
}

unfoldable pub archive_all_read : InboxState → InboxState
archive_all_read s = record s {
  items = map (λ i. if i.read && not i.archived then record i { archived = true } else i) s.items;
}

unfoldable pub update_issue_status : String → IssueStatus → InboxState → InboxState
update_issue_status issue_id status s = record s {
  items =
      map (λ i. if i.issue_id == some issue_id then record i { issue_status = some status } else i)
        s.items;
}
