-- ===== src/Timeline.antt =====
-- useIssueTimeline of apps/web/features/issues/hooks/use-issue-timeline.ts: the timeline of one issue,
-- changed by WebSocket events and by the user's own actions, each shown before the server answers. An
-- action is cut at its `await`. The functions passed to `setTimeline` are taken to run when they are
-- passed. Toasts and logs are left out.
pub mod Actions
pub mod Events
pub mod Edits
pub mod Reactions
mod Tests
use github_idea_os_app.Base.{
  ℕ, zero, suc, ◌+◌, ◌-◌, ◌*◌, ◌/◌, ◌%◌, ◌≤◌, ◌<◌, Ordering, compare, String, ◌≡◌, refl, sym, ap,
  subst, ◌∙◌, ◌≢◌, ◌↔◌, ◌⊎◌, inl, inr, Bool, true, false, not, ◌&&◌, ◌||◌, Option, none, some, List,
  [], ◌∷◌, ◌++◌, map, arith, if◌then◌else◌, Bool-cases, Option-cases, Eq, ◌==◌, string_eq,
  string_discrete, nat_eq, option_eq, ltb, leb, get_or, or_else, is_some, is_nonempty, is_truthy,
  length, any, filter, find, head?, is_empty, All, length-append, length-filter-le, any-append,
  any-filter, filter-append, includes, has, IsUnique, IsUnique-concat, IsUnique-filter, has-map,
  IsUnique-map, map_option, find_key, remove_key, map_key, add_new, has-find_key, find_key-append,
  find_key-remove_key, any-eq_true, All-append, All-filter, All-of_forall, All-imp, All-filter-map,
  eq_nil_of_All, map-congr, map-map, All-zip, All-of_none, All-filter_self, any_of_All, All-mem,
  Mem, Perm, find_key-map_key, find_key-add_new, IsUnique-add_new, IsUnique-map_key,
}
use github_idea_os_app.Base.Async.{Response, resolved, rejected}
use github_idea_os_app.Base.Text.{is_blank}
use github_idea_os_app.Types.Issue.{IssueAssigneeType, member, agent}
use github_idea_os_app.Types.Comment.{
  Comment, CommentType, comment, status_change, progress_update, system, EntryType, Reaction,
  TimelineEntry,
}
use github_idea_os_app.Thread.{without_thread, removed_entries}

pub record TimelineState : Type 0 where
  pub timeline : List TimelineEntry
  pub submitting : Bool
  pub loading : Bool

pub initial : TimelineState
initial = record { timeline = []; submitting = false; loading = true }

-- The text of a union of literals.
abbrev pub author_text : IssueAssigneeType → String
author_text member = "member"
author_text agent = "agent"

abbrev pub comment_type_text : CommentType → String
comment_type_text comment = "comment"
comment_type_text status_change = "status_change"
comment_type_text progress_update = "progress_update"
comment_type_text system = "system"

unfoldable pub comment_to_timeline_entry : Comment → TimelineEntry
comment_to_timeline_entry c = record {
  type = EntryType.comment;
  id = c.id;
  actor_type = author_text c.author_type;
  actor_id = c.author_id;
  created_at = c.created_at;
  action = none;
  details = none;
  content = some c.content;
  parent_id = c.parent_id;
  updated_at = some c.updated_at;
  comment_type = some (comment_type_text c.type);
  reactions = some (get_or c.reactions []);
  attachments = none;
}

-- `prev.some((e) => e.id === entry.id) ? prev : [...prev, entry]`
unfoldable pub append_entry : TimelineEntry → List TimelineEntry → List TimelineEntry
append_entry entry prev = if any (λ e. e.id == entry.id) prev then prev else prev ++ entry ∷ []

-- The effect that loads the timeline of an issue: its start, and the answer.
unfoldable pub load_start : TimelineState → TimelineState
load_start s = record s { timeline = []; loading = true }

unfoldable pub load_end : Response (List TimelineEntry) → TimelineState → TimelineState
load_end (resolved entries) s = record s { timeline = entries; loading = false }
load_end rejected s = record s { loading = false }

-- The answer to the reload after a reconnection.
unfoldable pub reconnect_end : Response (List TimelineEntry) → TimelineState → TimelineState
reconnect_end (resolved entries) s = record s { timeline = entries }
reconnect_end rejected s = s

-- The WebSocket events that the hook listens to, with what they carry.
pub data Event : Type 0 where
  comment_created : Comment → Event
  comment_updated : Comment → Event
  comment_deleted : (comment_id issue_id : String) → Event
  activity_created : (issue_id : String) → Option TimelineEntry → Event
  reaction_added : Reaction → (issue_id : String) → Event
  reaction_removed : (comment_id issue_id emoji actor_type actor_id : String) → Event

-- `{ ...e, reactions: [...existing, reaction] }` unless the reaction is there.
abbrev pub add_reaction : Reaction → TimelineEntry → TimelineEntry
add_reaction reaction e =
    let existing = get_or e.reactions [] in
    if any (λ r. r.id == reaction.id) existing
    then e
    else record e { reactions = some (existing ++ reaction ∷ []) }

-- `{ ...e, reactions: (e.reactions ?? []).filter(keep) }`
abbrev pub filter_reactions : (Reaction → Bool) → TimelineEntry → TimelineEntry
filter_reactions keep e = record e { reactions = some (filter keep (get_or e.reactions [])) }

-- `actor_type === "member" && actor_id === userId`
abbrev pub is_own : Option String → String → String → Bool
is_own user_id actor_type actor_id = actor_type == "member" && some actor_id == user_id

unfoldable pub handle : String → Option String → Event → List TimelineEntry → List TimelineEntry
unfolding append_entry comment_to_timeline_entry without_thread
handle issue_id user_id (comment_created c) prev =
    if not (c.issue_id == issue_id)
    then prev
    else if is_own user_id (author_text c.author_type) c.author_id
    then prev
    else append_entry (comment_to_timeline_entry c) prev
handle issue_id user_id (comment_updated c) prev =
    if c.issue_id == issue_id
    then map (λ e. if e.id == c.id then comment_to_timeline_entry c else e) prev
    else prev
handle issue_id user_id (comment_deleted comment_id event_issue_id) prev =
    if event_issue_id == issue_id then without_thread prev comment_id else prev
handle issue_id user_id (activity_created event_issue_id none) prev = prev
handle issue_id user_id (activity_created event_issue_id (some entry)) prev =
    if not (event_issue_id == issue_id)
    then prev
    else if not (is_nonempty entry.id)
    then prev
    else append_entry entry prev
handle issue_id user_id (reaction_added reaction event_issue_id) prev =
    if not (event_issue_id == issue_id)
    then prev
    else if is_own user_id reaction.actor_type reaction.actor_id
    then prev
    else map (λ e. if not (e.id == reaction.comment_id) then e else add_reaction reaction e) prev
handle issue_id user_id (reaction_removed comment_id event_issue_id emoji actor_type actor_id)
      prev =
    if not (event_issue_id == issue_id)
    then prev
    else if is_own user_id actor_type actor_id
    then prev
    else map
        (λ e.
          if not (e.id == comment_id)
          then e
          else filter_reactions
              (λ r. not (r.emoji == emoji && r.actor_type == actor_type && r.actor_id == actor_id))
              e)
        prev
