-- ===== src/Selection.antt =====
-- apps/web/features/issues/stores/selection-store.ts: the ids of the selected issues, a set kept as a
-- list in the order in which they were added.
pub mod Laws
mod Tests
use github_idea_os_app.Base.{
  ℕ, zero, suc, ◌+◌, ◌-◌, ◌*◌, ◌/◌, ◌%◌, ◌≤◌, ◌<◌, Ordering, compare, String, ◌≡◌, refl, sym, ap,
  subst, ◌∙◌, ◌≢◌, ◌↔◌, ◌⊎◌, inl, inr, Bool, true, false, not, ◌&&◌, ◌||◌, Option, none, some, List,
  [], ◌∷◌, ◌++◌, map, arith, if◌then◌else◌, Bool-cases, if_lem, Option-cases, Eq, ◌==◌, string_eq,
  string_discrete, nat_eq, option_eq, ltb, leb, get_or, or_else, is_some, is_nonempty, is_truthy,
  length, any, filter, find, head?, is_empty, All, length-append, length-filter-le, any-append,
  any-filter, filter-append, includes, has, IsUnique, IsUnique-concat, IsUnique-filter, has-map,
  IsUnique-map, map_option, find_key, remove_key, map_key, add_new, has-find_key, find_key-append,
  find_key-remove_key, any-eq_true, All-append, All-filter, All-of_forall, All-imp, All-filter-map,
  eq_nil_of_All, map-congr, map-map, All-zip, All-of_none, All-filter_self, any_of_All, All-mem,
  Mem, Perm, find_key-map_key, find_key-add_new, IsUnique-add_new, IsUnique-map_key,
}

-- `next.add(id)` and `next.delete(id)` on a copy of the set.
unfoldable pub add : String → List String → List String
add id ids = if includes ids id then ids else ids ++ id ∷ []

unfoldable pub delete : String → List String → List String
delete id ids = filter (λ x. not (x == id)) ids

unfoldable pub toggle : String → List String → List String
toggle id selected_ids =
    if includes selected_ids id then delete id selected_ids else add id selected_ids

unfoldable pub select : List String → List String → List String
select [] selected_ids = selected_ids
select (id ∷ ids) selected_ids = select ids (add id selected_ids)

unfoldable pub deselect : List String → List String → List String
deselect [] selected_ids = selected_ids
deselect (id ∷ ids) selected_ids = deselect ids (delete id selected_ids)

abbrev pub clear : List String
clear = []
