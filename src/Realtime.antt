-- ===== src/Realtime.antt =====
-- apps/web/features/realtime/use-realtime-sync.ts: which refreshes an event of the server starts.
-- A timer of the debounce is a number of milliseconds that are left. What a refresh does is the
-- stores' matter: a message gives the refreshes that are due, by their prefix.
pub mod Debounce
pub mod Handlers
mod Tests
use github_idea_os_app.Base.{
  ℕ, zero, suc, ◌+◌, ◌-◌, ◌*◌, ◌/◌, ◌%◌, ◌≤◌, ◌<◌, Ordering, compare, String, ◌≡◌, refl, sym, ap,
  subst, ◌∙◌, ◌≢◌, ◌↔◌, ◌⊎◌, inl, inr, Bool, true, false, not, ◌&&◌, ◌||◌, Option, none, some, List,
  [], ◌∷◌, ◌++◌, map, arith, if◌then◌else◌, Bool-cases, Option-cases, Eq, ◌==◌, string_eq,
  string_discrete, nat_eq, option_eq, ltb, leb, get_or, or_else, is_some, is_nonempty, is_truthy,
  length, any, filter, find, head?, is_empty, All, length-append, length-filter-le, any-append,
  any-filter, filter-append, includes, has, IsUnique, IsUnique-concat, IsUnique-filter, has-map,
  IsUnique-map, map_option, find_key, remove_key, map_key, add_new, has-find_key, find_key-append,
  find_key-remove_key, any-eq_true, All-append, All-filter, All-of_forall, All-imp, All-filter-map,
  eq_nil_of_All, map-congr, map-map, All-zip, All-of_none, All-filter_self, any_of_All, All-mem,
  Mem, Perm, find_key-map_key, find_key-add_new, IsUnique-add_new, IsUnique-map_key,
}
use github_idea_os_app.Base.Dict.{Dict, get, set, delete}
use Prim.Native.Char.{code}

-- `"issue:updated"` and the others that have a handler of their own.
abbrev pub specific_events : List String
specific_events = "issue:updated" ∷ "issue:created" ∷ "issue:deleted" ∷ "inbox:new" ∷ []

-- The keys of `refreshMap`.
abbrev pub refresh_keys : List String
refresh_keys = "inbox" ∷ "agent" ∷ "member" ∷ "workspace" ∷ "skill" ∷ []

-- `msg.type.split(":")[0]`: what stands before the first colon.
unfoldable pub prefix_of : String → String
prefix_of String.[] = String.[]
prefix_of (String.◌∷◌ c s) =
    let rest = prefix_of s in if code c == 58 then String.[] else String.◌∷◌ c rest

-- `debouncedRefresh`: the timer of the prefix starts anew.
unfoldable pub debounced_refresh : String → Dict String ℕ → Dict String ℕ
debounced_refresh prefix timers = set prefix 100 timers

-- The handler of every message.
unfoldable pub on_any_message :
    Option String → Option String → String → Dict String ℕ → Dict String ℕ
unfolding debounced_refresh
on_any_message my_user_id actor_id type timers =
    if is_truthy actor_id && actor_id == my_user_id
    then timers
    else if includes specific_events type
    then timers
    else if includes refresh_keys (prefix_of type)
    then debounced_refresh (prefix_of type) timers
    else timers

-- A millisecond passes: the timers that are left, and the prefixes whose refresh runs.
unfoldable pub tick : Dict String ℕ → Dict String ℕ × List String
tick [] = ([], [])
tick ((prefix, left) ∷ timers) =
    let rest = tick timers in
    if leb left 1 then (rest.0, prefix ∷ rest.1) else ((prefix, left - 1) ∷ rest.0, rest.1)

-- The clean-up of the effect, which stops every timer.
abbrev pub clean_up : Dict String ℕ → Dict String ℕ
clean_up timers = []
