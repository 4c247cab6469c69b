-- ===== src/Timeline/Tests.antt =====
-- A timeline of four comments.
use github_idea_os_app.Base.{
  ◌≡◌, refl, false, none, some, List, [], ◌∷◌, Bool-cases, string_eq, string_discrete, nat_eq,
  option_eq, Perm,
}
use github_idea_os_app.Base.Async.{rejected}
use github_idea_os_app.Types.Comment.{Reaction}
use github_idea_os_app.Samples.{an_entry, a_thread}
use github_idea_os_app.Timeline.{TimelineState, Event, comment_deleted, activity_created, handle}
use github_idea_os_app.Timeline.Actions.{
  edit_start, delete_start, delete_end, adding, toggle_start, map_entry, push_reaction,
  last_content, own_reaction,
}
use github_idea_os_app.Timeline.Events.{
  HasUniqueIds, handle_idem, handle_all, handle_all-HasUniqueIds,
}
use github_idea_os_app.Base.{All, ◌++◌}
use github_idea_os_app.Types.Comment.{TimelineEntry}
use github_idea_os_app.Thread.Descendants.{Descends}
use github_idea_os_app.Timeline.Edits.{delete_end-delete_start}

handle_idem_example :
    handle "i1"
      (some "u1")
      (comment_deleted "c1" "i1")
      (handle "i1" (some "u1") (comment_deleted "c1" "i1") a_thread)
    ≡ handle "i1" (some "u1") (comment_deleted "c1" "i1") a_thread
handle_idem_example = handle_idem "i1" (some "u1") (comment_deleted "c1" "i1") a_thread

a_thread-HasUniqueIds : HasUniqueIds a_thread
unfolding string_discrete Bool-cases
a_thread-HasUniqueIds = (refl, (refl, (refl, (refl, tt))))

abbrev events : List Event
events = activity_created "i1" (some (an_entry "a1" none)) ∷ comment_deleted "c2" "i1" ∷ []

handle_all-HasUniqueIds_example : HasUniqueIds (handle_all "i1" (some "u1") events a_thread)
handle_all-HasUniqueIds_example =
    handle_all-HasUniqueIds "i1" (some "u1") events a_thread a_thread-HasUniqueIds

abbrev shown : TimelineState
shown = record { timeline = a_thread; submitting = false; loading = false }

old_content : (edit_start "c2" "changed" "2026-01-02" shown).1 ≡ some "text"
unfolding edit_start last_content string_discrete Bool-cases
old_content = refl

delete_end-delete_start_example :
    (kept : List TimelineEntry) × (removed : List TimelineEntry) × ((delete_end
        (delete_start "c1" shown).1
        rejected
        (delete_start "c1" shown).0).timeline
      ≡ kept ++ removed)
    × All (λ e. ¬ Descends a_thread "c1" e.id) kept
    × All (λ e. Descends a_thread "c1" e.id) removed
    × Perm (kept ++ removed) a_thread
delete_end-delete_start_example = delete_end-delete_start "c1" shown

abbrev temp : Reaction
temp = record {
  id = "temp-1";
  comment_id = "c1";
  actor_type = "member";
  actor_id = "u1";
  emoji = "+1";
  created_at = "2026-01-02";
}

abbrev stored : Reaction
stored = record temp { id = "r1" }

started :
    toggle_start (some "u1") "c1" "+1" "temp-1" "2026-01-02" shown
    ≡ some (map_entry "c1" (push_reaction temp) shown, adding temp)
unfolding toggle_start own_reaction map_entry string_discrete Bool-cases
started = refl
