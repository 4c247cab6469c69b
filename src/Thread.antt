-- ===== src/Thread.antt =====
-- The loop of `comment:deleted` and `deleteComment` in
-- apps/web/features/issues/hooks/use-issue-timeline.ts: the ids of a comment and of all replies
-- below it.
pub mod Sweep
pub mod Descendants
pub mod Removal
mod Tests
use github_idea_os_app.Base.{
  ℕ, zero, suc, ◌+◌, ◌-◌, ◌*◌, ◌/◌, ◌%◌, ◌≤◌, ◌<◌, Ordering, compare, String, ◌≡◌, refl, sym, ap,
  subst, ◌∙◌, ◌≢◌, ◌↔◌, ◌⊎◌, inl, inr, Bool, true, false, not, ◌&&◌, ◌||◌, Option, none, some, List,
  [], ◌∷◌, ◌++◌, map, arith, if◌then◌else◌, Bool-cases, Option-cases, Eq, ◌==◌, string_eq,
  string_discrete, nat_eq, option_eq, ltb, leb, get_or, or_else, is_some, is_nonempty, is_truthy,
  length, any, filter, find, head?, is_empty, All, length-append, length-filter-le, any-append,
  any-filter, filter-append, includes, has, IsUnique, IsUnique-concat, IsUnique-filter, has-map,
  IsUnique-map, map_option, find_key, remove_key, map_key, add_new, has-find_key, find_key-append,
  find_key-remove_key, any-eq_true, All-append, All-filter, All-of_forall, All-imp, All-filter-map,
  eq_nil_of_All, map-congr, map-map, All-zip, All-of_none, All-filter_self, any_of_All, All-mem,
  Mem, Perm, find_key-map_key, find_key-add_new, IsUnique-add_new, IsUnique-map_key,
}
use github_idea_os_app.Types.Comment.{TimelineEntry}

-- `e.parent_id && idsToRemove.has(e.parent_id)`
abbrev pub has_parent_in : List String → Option String → Bool
has_parent_in ids none = false
has_parent_in ids (some p) = is_nonempty p && includes ids p

-- The test of the inner loop.
unfoldable pub is_new_reply : List String → TimelineEntry → Bool
is_new_reply ids e = has_parent_in ids e.parent_id && not (includes ids e.id)

-- `for (const e of prev)`: the ids and the flag `added`.
unfoldable pub sweep : List TimelineEntry → List String → Bool → List String × Bool
unfolding is_new_reply
sweep [] ids added = (ids, added)
sweep (e ∷ es) ids added =
    sweep es (if is_new_reply ids e then ids ++ e.id ∷ [] else ids) (is_new_reply ids e || added)

-- `while (added)`, with fuel; `none` means that the fuel ran out.
unfoldable pub collect : ℕ → List TimelineEntry → List String → Option (List String)
unfolding sweep
collect zero prev ids = none
collect (suc fuel) prev ids =
    let (ids', added) = sweep prev ids false in
    elim added [ true ↦ collect fuel prev ids' | false ↦ some ids' ]

-- `idsToRemove` after the loop. Each round but the last adds the id of an entry, so one round more
-- than there are entries is enough.
unfoldable pub ids_to_remove : List TimelineEntry → String → List String
unfolding collect
ids_to_remove prev comment_id = get_or (collect (suc (length prev)) prev (comment_id ∷ [])) []

-- `prev.filter((e) => !idsToRemove.has(e.id))`
unfoldable pub without_thread : List TimelineEntry → String → List TimelineEntry
unfolding ids_to_remove
without_thread prev comment_id =
    let ids = ids_to_remove prev comment_id in filter (λ e. not (includes ids e.id)) prev

-- `removedEntries`
unfoldable pub removed_entries : List TimelineEntry → String → List TimelineEntry
unfolding ids_to_remove
removed_entries prev comment_id =
    let ids = ids_to_remove prev comment_id in filter (λ e. includes ids e.id) prev
