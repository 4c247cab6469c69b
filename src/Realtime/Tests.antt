-- ===== src/Realtime/Tests.antt =====
-- Events of another user, seen by the user u1.
use github_idea_os_app.Base.{
  ℕ, String, ◌≡◌, refl, true, some, [], ◌∷◌, Bool-cases, string_eq, string_discrete, nat_eq,
  option_eq, option_discrete, is_nonempty, All,
}
use github_idea_os_app.Base.Dict.{Dict}
use github_idea_os_app.Types.Issue.{IssueUpdates, no_updates, todo}
use github_idea_os_app.Samples.{an_app}
use github_idea_os_app.Realtime.{prefix_of, on_any_message}
use github_idea_os_app.Realtime.Debounce.{starts_refresh, ticks, count, count-on_any_message}
use github_idea_os_app.Realtime.Handlers.{
  on_issue_updated, ShowsStatus, ItemShowsStatus, on_issue_updated_lem,
}
use native.Mathlib.Decide.{ℕ_discrete}

abbrev timers : Dict String ℕ
timers = ("agent", 7) ∷ []

starts : starts_refresh (some "u1") (some "u2") "agent:created" ≡ true
unfolding prefix_of string_discrete option_discrete ℕ_discrete Bool-cases
starts = refl

count-on_any_message_example :
    count
      (prefix_of "agent:created")
      (ticks 120 (on_any_message (some "u1") (some "u2") "agent:created" timers)).1
    ≡ 1
count-on_any_message_example =
    count-on_any_message (some "u1") (some "u2") "agent:created" timers 120 (refl, tt) starts

abbrev reopening : IssueUpdates
reopening = record no_updates { id = some "i1"; status = some todo }

named : is_nonempty "i1" ≡ true
unfolding string_discrete Bool-cases
named = refl

on_issue_updated_lem_example :
    All (ShowsStatus "i1" todo) (on_issue_updated (some reopening) an_app).issues.issues
    × All (ItemShowsStatus "i1" todo) (on_issue_updated (some reopening) an_app).inbox.items
on_issue_updated_lem_example = on_issue_updated_lem reopening "i1" todo an_app refl named refl
