-- ===== src/InboxStore/Dedup.antt =====
-- What `deduplicate` returns.
use github_idea_os_app.Base.{
  ℕ, String, ◌≡◌, refl, sym, subst, ◌∙◌, true, false, not, Option, none, some, List, [], arith,
  ◌==◌, string_eq, nat_eq, option_eq, get_or, filter, All, IsUnique, All-filter, All-imp, All-zip,
  All-filter_self, All-mem, Mem,
}
use github_idea_os_app.Base.Dict.{Dict, get, HasUniqueKeys}
use github_idea_os_app.Base.Sort.{sort, IsSorted, sort-IsSorted, All-sort, any-sort, sort-IsUnique}
use github_idea_os_app.Types.Inbox.{InboxItem}
use github_idea_os_app.InboxStore.{
  group_key, group_items, newest_first, newest_of_groups, deduplicate,
}
use github_idea_os_app.InboxStore.Groups.{
  group_of, group_items-HasUniqueKeys, get-group_items, groups_lem, All-of_groups,
}
use github_idea_os_app.InboxStore.Newest.{
  newest_first-IsOrder, represents, All-newest_of_groups, HasKeys, newest_of_groups-IsUnique,
  newest_of_groups-represents,
}

module _ (time : String → ℕ) where
  module _ (items : List InboxItem) where
    active : List InboxItem
    active = filter (λ i. not i.archived) items

    groups : Dict String (List InboxItem)
    groups = group_items active []

    All-of_active {κ} : (P : InboxItem → Type κ) → All P active → All (λ e. All P e.1) groups
    unfolding groups
    All-of_active P h =
        All-imp (λ e. e.1 ≡ group_of e.0 active) (λ e. All P e.1)
          (λ e q. subst (All P) (sym q) (All-filter P (λ i. group_key i == e.0) active h)) groups
          (groups_lem active)

    groups-HasKeys : HasKeys time groups
    unfolding groups
    groups-HasKeys =
        All-imp (λ e. e.1 ≡ group_of e.0 active) (λ e. All (λ i. group_key i ≡ e.0) e.1)
          (λ e q. subst (All (λ i. group_key i ≡ e.0)) (sym q) (
            All-filter_self (λ i. group_key i ≡ e.0) (λ i. group_key i == e.0) (λ i h. ground arith)
              active))
          groups (groups_lem active)

    groups-HasUniqueKeys : HasUniqueKeys groups
    unfolding groups
    groups-HasUniqueKeys = group_items-HasUniqueKeys active [] tt

    group_of-groups : (k : String) → get_or (get k groups) [] ≡ group_of k active
    unfolding groups get
    group_of-groups k = get-group_items active [] k

    group-represents :
        (k : String) (o : Option (List InboxItem))
        → get k groups ≡ o
        → All (λ i. represents time (newest_of_groups time groups) i ≡ true) (get_or o [])
    group-represents k none e = tt
    group-represents k (some g) e = newest_of_groups-represents time groups k g groups-HasKeys e

    active-represents : All (λ i. represents time (newest_of_groups time groups) i ≡ true) active
    active-represents =
        All-of_groups (λ i. represents time (newest_of_groups time groups) i ≡ true) active
          (λ k.
            subst (All (λ i. represents time (newest_of_groups time groups) i ≡ true))
              (group_of-groups k) (group-represents k (get k groups) refl))

    active-IsActive : All (λ x. (x.archived ≡ false) × Mem x items) active
    unfolding active
    active-IsActive =
        All-zip (λ x. x.archived ≡ false) (λ x. Mem x items) _
          (All-filter_self (λ x. x.archived ≡ false) (λ i. not i.archived) (λ i h. ground arith)
            items)
          (All-filter (λ x. Mem x items) (λ i. not i.archived) items (All-mem items))

  -- What holds of the active items holds of those that are shown.
  pub All-deduplicate {κ} :
      (P : InboxItem → Type κ) (items : List InboxItem)
      → All P (filter (λ i. not i.archived) items)
      → All P (deduplicate time items)
  unfolding deduplicate groups active
  All-deduplicate P items h =
      All-sort (newest_first time) P (newest_of_groups time (groups items))
        (All-newest_of_groups time P (groups items) (All-of_active items P h))

  -- Of the items that are not archived, `deduplicate` returns exactly one for each issue (or for each
  -- item without an issue): its items are active items of the list, no two of one group, sorted from
  -- the newest to the oldest, and every active item is of the group of one that is not older.
  pub deduplicate_lem :
      (items : List InboxItem)
      → All (λ x. (x.archived ≡ false) × Mem x items) (deduplicate time items)
        × IsUnique group_key (deduplicate time items)
        × IsSorted (newest_first time) (deduplicate time items)
        × All
            (λ i. represents time (deduplicate time items) i ≡ true)
            (filter (λ i. not i.archived) items)
  unfolding deduplicate groups active
  deduplicate_lem items =
      let merged = newest_of_groups time (groups items) in
      let cmp = newest_first time in
      (
        All-deduplicate (λ x. (x.archived ≡ false) × Mem x items) items (active-IsActive items),
        sort-IsUnique cmp group_key merged (
            newest_of_groups-IsUnique time (groups items) (groups-HasKeys items)
              (groups-HasUniqueKeys items)),
        sort-IsSorted cmp (newest_first-IsOrder time) merged,
        All-imp (λ i. represents time merged i ≡ true)
            (λ i. represents time (sort cmp merged) i ≡ true) (λ i r. any-sort cmp _ merged ∙ r)
            (active items) (active-represents items),
      )
