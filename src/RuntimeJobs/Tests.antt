-- ===== src/RuntimeJobs/Tests.antt =====
-- A job that ends at the third poll, and two versions.
use github_idea_os_app.Base.{
  ℕ, String, ◌≡◌, refl, true, false, Option, none, some, List, [], ◌∷◌, if◌then◌else◌, Bool-cases,
  ◌==◌, string_eq, string_discrete, nat_eq, option_eq,
}
use github_idea_os_app.Base.Async.{Response, resolved, rejected}
use github_idea_os_app.RuntimeJobs.{
  JobStatus, pending, running, completed, JobResult, PingSection, UpdateSection, newer_parts,
  above_part, strip_v, version_parts, is_newer,
}
use github_idea_os_app.RuntimeJobs.Polling.{Settled, ping_all, update_all, polling_ends}
use github_idea_os_app.Base.Text.{split_on, split_from}
use native.Mathlib.Decide.{ℕ_discrete}

abbrev result : JobStatus → Response JobResult
result s = resolved (record { status = s; output = some "ok"; error = none; duration_ms = some 20 })

abbrev results : List (Response JobResult)
results = result running ∷ rejected ∷ result completed ∷ result running ∷ []

abbrev ping : PingSection
ping = record {
  status = some pending;
  output = "";
  error = "";
  duration_ms = none;
  testing = true;
  poll = some "p1";
}

abbrev update : UpdateSection
update = record {
  latest_version = some "v1.2.0";
  status = some pending;
  output = "";
  error = "";
  updating = true;
  poll = some "u1";
  clearing = false;
}

polling_ends_example :
    Settled (ping_all results ping).poll (ping_all results ping).testing
    × Settled (update_all results update).poll (update_all results update).updating
polling_ends_example = polling_ends results ping update refl

-- `Number` on the parts of the versions below.
abbrev digit : String → Option ℕ
digit s = if s == "10" then some 10 else if s == "2" then some 2 else some 1

newer : is_newer digit "v1.10" "1.2" ≡ true
unfolding is_newer version_parts strip_v split_on split_from newer_parts above_part string_discrete
    Bool-cases ℕ_discrete
newer = refl
