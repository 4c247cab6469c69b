-- ===== src/InboxStore/Bulk.antt =====
-- Archiving and marking as read, and what the deduplicated view and the unread count then show.
use github_idea_os_app.Base.{
  ℕ, String, ◌≡◌, refl, sym, ap, ◌∙◌, true, false, not, ◌&&◌, ◌||◌, Option, List, [], ◌∷◌, arith,
  if◌then◌else◌, ◌==◌, string_eq, nat_eq, option_eq, is_truthy, length, filter, All, has,
  All-filter-map, eq_nil_of_All, map-congr, map-map, any_of_All,
}
use github_idea_os_app.Types.Inbox.{InboxItem}
use github_idea_os_app.InboxStore.{
  InboxState, deduplicate, unread_count, target_issue, archive, mark_all_read, archive_all,
  archive_all_read,
}
use github_idea_os_app.InboxStore.Dedup.{All-deduplicate}

-- What the actions do to one item.
abbrev archive_item : String → Option String → InboxItem → InboxItem
archive_item id issue_id i =
    if i.id == id || (is_truthy issue_id && i.issue_id == issue_id)
    then record i { archived = true }
    else i

abbrev read_item : InboxItem → InboxItem
read_item i = if not i.archived then record i { read = true } else i

abbrev archive_active : InboxItem → InboxItem
archive_active i = if not i.archived then record i { archived = true } else i

abbrev archive_read : InboxItem → InboxItem
archive_read i = if i.read && not i.archived then record i { archived = true } else i

archive_item_lem :
    (id : String) (issue_id : Option String) (i : InboxItem)
    → is_truthy issue_id ≡ true
    → not (archive_item id issue_id i).archived ≡ true
    → ((archive_item id issue_id i).issue_id == issue_id) ≡ false
archive_item_lem id issue_id i h e = ground arith

-- Archiving an item of an issue takes the whole issue out of the view: no item that is shown is of
-- that issue.
pub archive-deduplicate :
    (time : String → ℕ) (id : String) (s : InboxState)
    → is_truthy (target_issue id s.items) ≡ true
    → has
        (λ (i : InboxItem). i.issue_id)
        (target_issue id s.items)
        (deduplicate time (archive id s).items)
      ≡ false
unfolding archive
archive-deduplicate time id s h =
    let issue_id = target_issue id s.items in
    any_of_All (λ x. x.issue_id == issue_id) _
      (All-deduplicate time (λ x. (x.issue_id == issue_id) ≡ false) _
        (All-filter-map (λ x. (x.issue_id == issue_id) ≡ false) (λ i. not i.archived)
          (archive_item id issue_id) (λ i e. archive_item_lem id issue_id i h e) s.items))

none_unread :
    (xs : List InboxItem) → All (λ x. x.read ≡ true) xs → length (filter (λ i. not i.read) xs) ≡ 0
none_unread [] h = refl
none_unread (x ∷ xs) (e, h) = ground (arith, none_unread xs h)

read_item_lem : (i : InboxItem) → not (read_item i).archived ≡ true → (read_item i).read ≡ true
read_item_lem i e = ground arith

archive_active_lem : (i : InboxItem) → not (archive_active i).archived ≡ true → ⊥
archive_active_lem i e = ground arith

archive_read_item : (i : InboxItem) → archive_read (read_item i) ≡ archive_active (read_item i)
archive_read_item i = ground arith

-- After `markAllRead` nothing that is shown is unread; after `archiveAll` nothing is shown.
pub unread_count-mark_all_read :
    (time : String → ℕ) (s : InboxState)
    → (unread_count time (mark_all_read s) ≡ 0) × (deduplicate time (archive_all s).items ≡ [])
unfolding unread_count mark_all_read archive_all
unread_count-mark_all_read time s = (
  none_unread _ (
      All-deduplicate time (λ x. x.read ≡ true) _
        (All-filter-map (λ x. x.read ≡ true) (λ i. not i.archived) read_item read_item_lem
          s.items)),
  eq_nil_of_All _ (
      All-deduplicate time (λ x. ⊥) _
        (All-filter-map (λ x. ⊥) (λ i. not i.archived) archive_active archive_active_lem s.items)),
)

-- After `markAllRead`, `archiveAllRead` and `archiveAll` do the same.
pub archive_all_read-mark_all_read :
    (s : InboxState) → archive_all_read (mark_all_read s) ≡ archive_all (mark_all_read s)
unfolding archive_all_read mark_all_read archive_all
archive_all_read-mark_all_read s =
    ap (λ xs. record s { items = xs })
      (map-map archive_read read_item s.items
        ∙ map-congr (λ i. archive_read (read_item i)) (λ i. archive_active (read_item i))
            archive_read_item s.items
        ∙ sym (map-map archive_active read_item s.items))
