-- ===== src/RuntimeStore.antt =====
-- apps/web/features/runtimes/store.ts.
pub mod Laws
mod Tests
use github_idea_os_app.Base.{
  ℕ, zero, suc, ◌+◌, ◌-◌, ◌*◌, ◌/◌, ◌%◌, ◌≤◌, ◌<◌, Ordering, compare, String, ◌≡◌, refl, sym, ap,
  subst, ◌∙◌, ◌≢◌, ◌↔◌, ◌⊎◌, inl, inr, Bool, true, false, not, ◌&&◌, ◌||◌, Option, none, some, List,
  [], ◌∷◌, ◌++◌, map, arith, if◌then◌else◌, Bool-cases, Option-cases, Eq, ◌==◌, string_eq,
  string_discrete, nat_eq, option_eq, ltb, leb, get_or, or_else, is_some, is_nonempty, is_truthy,
  length, any, filter, find, head?, is_empty, All, length-append, length-filter-le, any-append,
  any-filter, filter-append, includes, has, IsUnique, IsUnique-concat, IsUnique-filter, has-map,
  IsUnique-map, map_option, find_key, remove_key, map_key, add_new, has-find_key, find_key-append,
  find_key-remove_key, any-eq_true, All-append, All-filter, All-of_forall, All-imp, All-filter-map,
  eq_nil_of_All, map-congr, map-map, All-zip, All-of_none, All-filter_self, any_of_All, All-mem,
  Mem, Perm, find_key-map_key, find_key-add_new, IsUnique-add_new, IsUnique-map_key,
}
use github_idea_os_app.Base.Async.{Response, resolved, rejected}
use github_idea_os_app.Types.Agent.{AgentRuntime, RuntimeUpdates, spread_runtime}

pub record RuntimeState : Type 0 where
  pub runtimes : List AgentRuntime
  pub selected_id : String
  pub fetching : Bool

pub initial : RuntimeState
initial = record { runtimes = []; selected_id = ""; fetching = true }

-- `selectedId && runtimes.some((r) => r.id === selectedId) ? selectedId : runtimes[0]?.id ?? ""`
unfoldable pub selection : String → List AgentRuntime → String
selection selected_id runtimes =
    if is_nonempty selected_id && any (λ r. r.id == selected_id) runtimes
    then selected_id
    else get_or (map_option (λ r. r.id) (head? runtimes)) ""

-- `fetchRuntimes` once the server has answered; without a workspace it does nothing.
unfoldable pub fetch_runtimes_end : Response (List AgentRuntime) → RuntimeState → RuntimeState
unfolding selection
fetch_runtimes_end (resolved data') s = record s {
  runtimes = data';
  fetching = false;
  selected_id = selection s.selected_id data';
}
fetch_runtimes_end rejected s = record s { fetching = false }

unfoldable pub set_selected_id : String → RuntimeState → RuntimeState
set_selected_id id s = record s { selected_id = id }

unfoldable pub patch_runtime : String → RuntimeUpdates → RuntimeState → RuntimeState
patch_runtime id updates s = record s {
  runtimes = map (λ r. if r.id == id then spread_runtime r updates else r) s.runtimes;
}

unfoldable pub set_runtimes : List AgentRuntime → RuntimeState → RuntimeState
unfolding selection
set_runtimes runtimes s = record s {
  runtimes = runtimes;
  selected_id = selection s.selected_id runtimes;
}
