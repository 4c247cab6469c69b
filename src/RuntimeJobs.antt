-- ===== src/RuntimeJobs.antt =====
-- apps/web/features/runtimes/components/ping-section.tsx and update-section.tsx: a job on a runtime is
-- started and then asked for every two seconds until it has ended, and versions are compared.
-- `to_number` stands for `Number`, with NaN as none.
pub mod Polling
pub mod Version
mod Tests
use github_idea_os_app.Base.{
  ℕ, zero, suc, ◌+◌, ◌-◌, ◌*◌, ◌/◌, ◌%◌, ◌≤◌, ◌<◌, Ordering, compare, String, ◌≡◌, refl, sym, ap,
  subst, ◌∙◌, ◌≢◌, ◌↔◌, ◌⊎◌, inl, inr, Bool, true, false, not, ◌&&◌, ◌||◌, Option, none, some, List,
  [], ◌∷◌, ◌++◌, map, arith, if◌then◌else◌, Bool-cases, if_lem, Option-cases, Eq, ◌==◌, string_eq,
  string_discrete, nat_eq, option_eq, ltb, leb, get_or, or_else, is_some, is_nonempty, is_truthy,
  length, any, filter, find, head?, is_empty, All, length-append, length-filter-le, any-append,
  any-filter, filter-append, includes, has, IsUnique, IsUnique-concat, IsUnique-filter, has-map,
  IsUnique-map, map_option, find_key, remove_key, map_key, add_new, has-find_key, find_key-append,
  find_key-remove_key, any-eq_true, All-append, All-filter, All-of_forall, All-imp, All-filter-map,
  eq_nil_of_All, map-congr, map-map, All-zip, All-of_none, All-filter_self, any_of_All, All-mem,
  Mem, Perm, find_key-map_key, find_key-add_new, IsUnique-add_new, IsUnique-map_key,
}
use github_idea_os_app.Base.Text.{split_on}
use Prim.Native.Char.{code}
use github_idea_os_app.Base.Async.{Response, resolved, rejected}

pub data JobStatus : Type 0 where
  pending running completed failed timeout : JobStatus

-- What the server answers to a poll: a `RuntimePing` or a `RuntimeUpdate`.
pub record JobResult : Type 0 where
  pub status : JobStatus
  pub output : Option String
  pub error : Option String
  pub duration_ms : Option ℕ

-- The state of PingSection; `poll` is the id of the job that the interval asks for.
pub record PingSection : Type 0 where
  pub status : Option JobStatus
  pub output : String
  pub error : String
  pub duration_ms : Option ℕ
  pub testing : Bool
  pub poll : Option String

unfoldable pub ping_start : PingSection → PingSection
ping_start s = record {
  status = some pending;
  output = "";
  error = "";
  duration_ms = none;
  testing = true;
  poll = none;
}

-- After the call that starts the job: its id, or a failure.
unfoldable pub ping_started : Response String → PingSection → PingSection
ping_started (resolved id) s = record s { poll = some id }
ping_started rejected s = record s {
  status = some failed;
  error = "Failed to initiate test";
  testing = false;
}

-- The cases of the status that a poll gives.
unfoldable pub ping_status : JobStatus → JobResult → PingSection → PingSection
ping_status pending r s = record s { status = some pending }
ping_status running r s = record s { status = some running }
ping_status completed r s = record s {
  status = some completed;
  output = get_or r.output "";
  duration_ms = r.duration_ms;
  testing = false;
  poll = none;
}
ping_status failed r s = record s {
  status = some failed;
  error = get_or r.error "Unknown error";
  duration_ms = r.duration_ms;
  testing = false;
  poll = none;
}
ping_status timeout r s = record s {
  status = some timeout;
  error = get_or r.error "Unknown error";
  duration_ms = r.duration_ms;
  testing = false;
  poll = none;
}

-- After a poll.
unfoldable pub ping_polled : Response JobResult → PingSection → PingSection
ping_polled rejected s = s
ping_polled (resolved r) s = ping_status r.status r s

-- The state of UpdateSection; `clearing` says that the timer of five seconds runs.
pub record UpdateSection : Type 0 where
  pub latest_version : Option String
  pub status : Option JobStatus
  pub output : String
  pub error : String
  pub updating : Bool
  pub poll : Option String
  pub clearing : Bool

-- `handleUpdate` up to its call, and whether it makes the call.
unfoldable pub update_start : UpdateSection → UpdateSection × Bool
update_start s = if not (is_truthy s.latest_version) then (s, false) else (
  record s { status = some pending; output = ""; error = ""; updating = true; poll = none },
  true,
)

unfoldable pub update_started : Response String → UpdateSection → UpdateSection
update_started (resolved id) s = record s { poll = some id }
update_started rejected s = record s {
  status = some failed;
  error = "Failed to initiate update";
  updating = false;
}

unfoldable pub update_status : JobStatus → JobResult → UpdateSection → UpdateSection
update_status pending r s = record s { status = some pending }
update_status running r s = record s { status = some running }
update_status completed r s = record s {
  status = some completed;
  output = get_or r.output "";
  updating = false;
  poll = none;
  clearing = true;
}
update_status failed r s = record s {
  status = some failed;
  error = get_or r.error "Unknown error";
  updating = false;
  poll = none;
}
update_status timeout r s = record s {
  status = some timeout;
  error = get_or r.error "Unknown error";
  updating = false;
  poll = none;
}

-- After a poll.
unfoldable pub update_polled : Response JobResult → UpdateSection → UpdateSection
update_polled rejected s = s
update_polled (resolved r) s = update_status r.status r s

-- The timer of five seconds has run out.
unfoldable pub update_cleared : UpdateSection → UpdateSection
update_cleared s = if s.clearing then record s { status = none; clearing = false } else s

-- `cachedLatestVersion` and `cachedAt`
pub record VersionCache : Type 0 where
  pub cached_latest_version : Option String
  pub cached_at : ℕ

abbrev pub cache_ttl_ms : ℕ
cache_ttl_ms = 600_000

-- `fetchLatestVersion` up to its call: the version of the cache, or none when it has to ask.
unfoldable pub cached_version : ℕ → VersionCache → Option String
cached_version now c =
    if is_truthy c.cached_latest_version && ltb (now - c.cached_at) cache_ttl_ms
    then c.cached_latest_version
    else none

-- After the call: none is an answer that is not ok, or none at all; else it is `data.tag_name`.
unfoldable pub fetch_version_end :
    ℕ → Response (Option String) → VersionCache → Option String × VersionCache
fetch_version_end now rejected c = (none, c)
fetch_version_end now (resolved tag) c =
    (tag, record { cached_latest_version = tag; cached_at = now })

-- `(l[i] ?? 0) > (c[i] ?? 0)` and `<`, from the first parts on; NaN is neither.
unfoldable pub above_part : Option ℕ → Option ℕ → Bool
above_part none c = false
above_part (some l) none = false
above_part (some l) (some c) = ltb c l

unfoldable pub newer_parts : List (Option ℕ) → List (Option ℕ) → Bool
newer_parts [] [] = false
newer_parts [] (c ∷ cs) =
    let rest = newer_parts [] cs in
    if above_part (some 0) c then true else if above_part c (some 0) then false else rest
newer_parts (l ∷ ls) [] =
    let rest = newer_parts ls [] in
    if above_part l (some 0) then true else if above_part (some 0) l then false else rest
newer_parts (l ∷ ls) (c ∷ cs) =
    let rest = newer_parts ls cs in
    if above_part l c then true else if above_part c l then false else rest

-- `v.replace(/^v/, "")`
unfoldable pub strip_v : String → String
strip_v String.[] = String.[]
strip_v (String.◌∷◌ c s) = if code c == 118 then s else String.◌∷◌ c s

-- `stripV(v).split(".").map(Number)`
unfoldable pub version_parts : (String → Option ℕ) → String → List (Option ℕ)
version_parts to_number v = map to_number (split_on 46 (strip_v v))

unfoldable pub is_newer : (String → Option ℕ) → String → String → Bool
is_newer to_number latest current =
    newer_parts (version_parts to_number latest) (version_parts to_number current)
