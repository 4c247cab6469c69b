-- ===== src/Timeline/Actions.antt =====
-- The user's actions on the timeline. `now` and `temp_id` are the time and the id that the browser
-- makes up.
use github_idea_os_app.Base.{
  String, Bool, true, false, not, ◌&&◌, ◌||◌, Option, none, some, List, [], ◌∷◌, ◌++◌, map,
  if◌then◌else◌, ◌==◌, string_eq, nat_eq, option_eq, get_or, is_nonempty, is_truthy, find,
}
use github_idea_os_app.Base.Async.{Response, resolved, rejected}
use github_idea_os_app.Base.Text.{is_blank}
use github_idea_os_app.Types.Comment.{Comment, Reaction, TimelineEntry}
use github_idea_os_app.Thread.{without_thread, removed_entries}
use github_idea_os_app.Timeline.{
  TimelineState, comment_to_timeline_entry, append_entry, filter_reactions,
}

-- The guard of `submitComment`; `submitting` is the value that the callback closes over.
unfoldable pub may_submit : String → Bool → Option String → Bool
may_submit content submitting user_id =
    not (is_blank content || submitting || not (is_truthy user_id))

unfoldable pub submit_start : TimelineState → TimelineState
submit_start s = record s { submitting = true }

-- A comment that the server has stored.
unfoldable pub show_comment : Comment → TimelineState → TimelineState
unfolding append_entry comment_to_timeline_entry
show_comment comment s = record s {
  timeline = append_entry (comment_to_timeline_entry comment) s.timeline;
}

unfoldable pub submit_end : Response Comment → TimelineState → TimelineState
unfolding show_comment
submit_end (resolved comment) s = record (show_comment comment s) { submitting = false }
submit_end rejected s = record s { submitting = false }

-- The guard of `submitReply`.
unfoldable pub may_reply : String → Option String → Bool
may_reply content user_id = not (is_blank content || not (is_truthy user_id))

unfoldable pub reply_end : Response Comment → TimelineState → TimelineState
unfolding show_comment
reply_end (resolved comment) s = show_comment comment s
reply_end rejected s = s

-- `prevContent`: the content of the last entry with the id.
unfoldable pub last_content : String → List TimelineEntry → Option String → Option String
last_content comment_id [] found = found
last_content comment_id (e ∷ es) found =
    last_content comment_id es (if e.id == comment_id then e.content else found)

-- `editComment` up to its `await`: the new state, and `prevContent`.
unfoldable pub edit_start : String → String → String → TimelineState → TimelineState × Option String
unfolding last_content
edit_start comment_id content now s = (
  record s {
    timeline =
        map
          (λ e.
            if not (e.id == comment_id)
            then e
            else record e { content = some content; updated_at = some now })
          s.timeline;
  },
  last_content comment_id s.timeline none,
)

unfoldable pub edit_end : String → Option String → Response Comment → TimelineState → TimelineState
unfolding comment_to_timeline_entry
edit_end comment_id prev_content (resolved updated) s = record s {
  timeline =
      map (λ e. if e.id == updated.id then comment_to_timeline_entry updated else e) s.timeline;
}
edit_end comment_id none rejected s = s
edit_end comment_id (some content) rejected s = record s {
  timeline =
      map (λ e. if e.id == comment_id then record e { content = some content } else e) s.timeline;
}

-- `deleteComment` up to its `await`: the new state, and `removedEntries`.
unfoldable pub delete_start : String → TimelineState → TimelineState × List TimelineEntry
unfolding without_thread removed_entries
delete_start comment_id s = (
  record s { timeline = without_thread s.timeline comment_id },
  removed_entries s.timeline comment_id,
)

unfoldable pub delete_end : List TimelineEntry → Response (Unit {0}) → TimelineState → TimelineState
delete_end removed (resolved _) s = s
delete_end removed rejected s = record s { timeline = s.timeline ++ removed }

-- `setTimeline` of one entry's reactions.
unfoldable pub map_entry : String → (TimelineEntry → TimelineEntry) → TimelineState → TimelineState
map_entry comment_id f s = record s {
  timeline = map (λ e. if not (e.id == comment_id) then e else f e) s.timeline;
}

-- The reactions of an entry, `e.reactions ?? []`.
abbrev pub reactions_of : TimelineEntry → List Reaction
reactions_of e = get_or e.reactions []

abbrev pub push_reaction : Reaction → TimelineEntry → TimelineEntry
push_reaction r e = record e { reactions = some (reactions_of e ++ r ∷ []) }

-- `(entry?.reactions ?? []).find(…)` for the entry with the id.
unfoldable pub own_reaction : String → String → String → List TimelineEntry → Option Reaction
own_reaction user_id comment_id emoji timeline = elim (find (λ e. e.id == comment_id) timeline) [
  | none ↦ none
  | some entry ↦
      find (λ r. r.emoji == emoji && r.actor_type == "member" && r.actor_id == user_id)
        (reactions_of entry)
]

-- What `toggleReaction` asks of the server: to remove the reaction, or to add one, which stands in
-- the timeline under a temporary id.
pub data Toggle : Type 0 where
  removing adding : Reaction → Toggle

-- `toggleReaction` up to its `await`; `none` without a user.
unfoldable pub toggle_start :
    Option String
    → String
    → String
    → String
    → String
    → TimelineState
    → Option (TimelineState × Toggle)
unfolding map_entry
toggle_start none comment_id emoji temp_id now s = none
toggle_start (some user_id) comment_id emoji temp_id now s =
    if not (is_nonempty user_id)
    then none
    else (elim (own_reaction user_id comment_id emoji s.timeline) [
      | some existing ↦ some (
        map_entry comment_id (filter_reactions (λ r. not (r.id == existing.id))) s,
        removing existing,
      )
      | none ↦
          let temp : Reaction = record {
            id = temp_id;
            comment_id = comment_id;
            actor_type = "member";
            actor_id = user_id;
            emoji = emoji;
            created_at = now;
          } in
          some (map_entry comment_id (push_reaction temp) s, adding temp)
    ])

-- The answer to a removal.
unfoldable pub remove_end : String → Reaction → Response (Unit {0}) → TimelineState → TimelineState
unfolding map_entry
remove_end comment_id existing (resolved _) s = s
remove_end comment_id existing rejected s = map_entry comment_id (push_reaction existing) s

-- The answer to an addition.
unfoldable pub add_end : String → Reaction → Response Reaction → TimelineState → TimelineState
unfolding map_entry
add_end comment_id temp (resolved reaction) s =
    map_entry comment_id
      (λ e. record e {
        reactions = some (map (λ r. if r.id == temp.id then reaction else r) (reactions_of e));
      })
      s
add_end comment_id temp rejected s =
    map_entry comment_id (filter_reactions (λ r. not (r.id == temp.id))) s
