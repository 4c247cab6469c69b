-- ===== src/InboxStore/Tests.antt =====
-- An inbox of two items of one issue and an archived one.
use github_idea_os_app.Base.{
  ◌≡◌, refl, inl, true, false, not, [], arith, Bool-cases, string_eq, string_discrete, nat_eq,
  option_eq, is_truthy, filter, All, IsUnique, Mem,
}
use github_idea_os_app.Base.Sort.{IsSorted, sort}
use github_idea_os_app.Samples.{a_time, some_items}
use github_idea_os_app.InboxStore.{
  InboxState, group_key, newest_first, deduplicate, target_issue, mark_all_read, archive_all,
  archive_all_read, group_items, newest_of_groups,
}
use github_idea_os_app.InboxStore.Dedup.{deduplicate_lem}
use github_idea_os_app.InboxStore.Newest.{represents}
use github_idea_os_app.InboxStore.Memo.{
  ArrayRef, Memo, IsCurrent, deduplicate_inbox_items, deduplicate_inbox_items_lem,
}
use github_idea_os_app.InboxStore.Bulk.{archive_all_read-mark_all_read}

abbrev inbox : InboxState
inbox = record { items = some_items; loading = false }

deduplicate_lem_example :
    All (λ x. (x.archived ≡ false) × Mem x some_items) (deduplicate a_time some_items)
    × IsUnique group_key (deduplicate a_time some_items)
    × IsSorted (newest_first a_time) (deduplicate a_time some_items)
    × All
        (λ i. represents a_time (deduplicate a_time some_items) i ≡ true)
        (filter (λ i. not i.archived) some_items)
deduplicate_lem_example = deduplicate_lem a_time some_items

abbrev ref : ArrayRef
ref = record { address = 1; contents = some_items }

abbrev memo : Memo
memo = record { prev_items = record { address = 0; contents = [] }; prev_deduped = [] }

memo-IsCurrent : IsCurrent a_time ref memo
unfolding deduplicate sort group_items newest_of_groups
memo-IsCurrent = record { kept = refl; same = inl (ground arith) }

deduplicate_inbox_items_lem_example :
    ((deduplicate_inbox_items a_time ref memo).0 ≡ deduplicate a_time some_items)
    × ((deduplicate_inbox_items a_time ref memo).1.prev_items.address ≡ 1)
    × ((deduplicate_inbox_items a_time ref memo).1.prev_deduped ≡ deduplicate a_time some_items)
deduplicate_inbox_items_lem_example = deduplicate_inbox_items_lem a_time ref memo memo-IsCurrent

of_an_issue : is_truthy (target_issue "n1" inbox.items) ≡ true
unfolding target_issue string_discrete Bool-cases
of_an_issue = refl

archive_all_read-mark_all_read_example :
    archive_all_read (mark_all_read inbox) ≡ archive_all (mark_all_read inbox)
archive_all_read-mark_all_read_example = archive_all_read-mark_all_read inbox
