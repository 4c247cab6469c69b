-- ===== src/LiveCard.antt =====
-- apps/web/features/issues/components/agent-live-card.tsx: the state of the card that shows what an
-- agent is doing on an issue, and the helpers of its rows. `redact` stands for `redactSecrets`,
-- `to_text` for the text of a number in a template.
pub mod Feed
mod Tests
use github_idea_os_app.Base.{
  ℕ, zero, suc, ◌+◌, ◌-◌, ◌*◌, ◌/◌, ◌%◌, ◌≤◌, ◌<◌, Ordering, compare, String, ◌≡◌, refl, sym, ap,
  subst, ◌∙◌, ◌≢◌, ◌↔◌, ◌⊎◌, inl, inr, Bool, true, false, not, ◌&&◌, ◌||◌, Option, none, some, List,
  [], ◌∷◌, ◌++◌, map, arith, if◌then◌else◌, Bool-cases, Option-cases, Eq, ◌==◌, string_eq,
  string_discrete, nat_eq, option_eq, ltb, leb, get_or, or_else, is_some, is_nonempty, is_truthy,
  length, any, filter, find, head?, is_empty, All, length-append, length-filter-le, any-append,
  any-filter, filter-append, includes, has, IsUnique, IsUnique-concat, IsUnique-filter, has-map,
  IsUnique-map, map_option, find_key, remove_key, map_key, add_new, has-find_key, find_key-append,
  find_key-remove_key, any-eq_true, All-append, All-filter, All-of_forall, All-imp, All-filter-map,
  eq_nil_of_All, map-congr, map-map, All-zip, All-of_none, All-filter_self, any_of_All, All-mem,
  Mem, Perm, find_key-map_key, find_key-add_new, IsUnique-add_new, IsUnique-map_key,
}
use github_idea_os_app.Base.Async.{Response, resolved, rejected}
use github_idea_os_app.Base.Sort.{sort}
use github_idea_os_app.Types.Value.{Value}
use Prim.Native.String.{◌++◌ as text_append}

pub data TaskMode : Type 0 where
  plan build : TaskMode

pub data MessageType : Type 0 where
  text_message thinking tool_use tool_result error_message : MessageType

-- The fields of a task that the card uses.
pub record AgentTask : Type 0 where
  pub id : String
  pub agent_id : String
  pub mode : TaskMode
  pub dispatched_at : Option String
  pub started_at : Option String

pub record TaskMessagePayload : Type 0 where
  pub task_id : String
  pub issue_id : String
  pub seq : ℕ
  pub type : MessageType
  pub tool : Option String
  pub content : Option String
  pub input : Option Value
  pub output : Option String

pub record TimelineItem : Type 0 where
  pub seq : ℕ
  pub type : MessageType
  pub tool : Option String
  pub content : Option String
  pub input : Option Value
  pub output : Option String

-- `activeTask`, `items`, `seenSeqs` and `cancelling`
pub record LiveCard : Type 0 where
  pub active_task : Option AgentTask
  pub items : List TimelineItem
  pub seen_seqs : List String
  pub cancelling : Bool

abbrev pub mounted : LiveCard
mounted = record { active_task = none; items = []; seen_seqs = []; cancelling = false }

-- `next.add(key)` on a set kept as a list.
abbrev pub add_key : String → List String → List String
add_key key keys = if includes keys key then keys else keys ++ key ∷ []

abbrev pub compare_seq : TimelineItem → TimelineItem → Ordering
compare_seq a b = compare a.seq b.seq

-- `value ? redactSecrets(value) : value`
abbrev redacted : (String → String) → Option String → Option String
redacted redact none = none
redacted redact (some s) = if is_nonempty s then some (redact s) else some s

abbrev pub redacted_item : (String → String) → TaskMessagePayload → TimelineItem
redacted_item redact m = record {
  seq = m.seq;
  type = m.type;
  tool = m.tool;
  content = redacted redact m.content;
  input = m.input;
  output = redacted redact m.output;
}

unfoldable pub build_timeline : (String → String) → List TaskMessagePayload → List TimelineItem
build_timeline redact msgs = sort compare_seq (map (redacted_item redact) msgs)

-- The item of a message that arrives while the card is shown.
abbrev pub live_item : TaskMessagePayload → TimelineItem
live_item m = record {
  seq = m.seq;
  type = m.type;
  tool = m.tool;
  content = m.content;
  input = m.input;
  output = m.output;
}

module _ (to_text : ℕ → String) where
  -- `${task_id}:${seq}`
  abbrev pub message_key : TaskMessagePayload → String
  message_key m = text_append m.task_id (text_append ":" (to_text m.seq))

  unfoldable pub add_keys : List TaskMessagePayload → List String → List String
  add_keys [] keys = keys
  add_keys (m ∷ ms) keys = add_keys ms (add_key (message_key m) keys)

  -- The answer with the messages of the active task; `unmounted` is the effect's `cancelled`.
  unfoldable pub load_messages_end :
      (String → String) → Bool → Response (List TaskMessagePayload) → LiveCard → LiveCard
  load_messages_end redact unmounted rejected s = s
  load_messages_end redact unmounted (resolved msgs) s =
      if unmounted
      then s
      else record s { items = build_timeline redact msgs; seen_seqs = add_keys msgs s.seen_seqs }

  -- `task:message`
  unfoldable pub on_message : String → TaskMessagePayload → LiveCard → LiveCard
  on_message issue_id msg s =
      if not (msg.issue_id == issue_id) || includes s.seen_seqs (message_key msg)
      then s
      else record s {
        items = sort compare_seq (s.items ++ live_item msg ∷ []);
        seen_seqs = add_key (message_key msg) s.seen_seqs;
      }

-- The answer with the active task when the card is mounted; messages are loaded when there is one.
unfoldable pub load_task_end : Bool → Response (Option AgentTask) → LiveCard → LiveCard
load_task_end unmounted rejected s = s
load_task_end unmounted (resolved task) s = if unmounted then s else record s { active_task = task }

-- `task:completed`, `task:failed` and `task:cancelled`, with the issue of the event.
unfoldable pub on_finished : String → String → LiveCard → LiveCard
on_finished issue_id event_issue s =
    if not (event_issue == issue_id)
    then s
    else record { active_task = none; items = []; seen_seqs = []; cancelling = false }

-- `task:dispatch`: whether the active task is asked for, and the answer.
unfoldable pub on_dispatch : LiveCard → Bool
on_dispatch s = not (is_some s.active_task)

unfoldable pub on_dispatch_end : Response (Option AgentTask) → LiveCard → LiveCard
on_dispatch_end rejected s = s
on_dispatch_end (resolved none) s = s
on_dispatch_end (resolved (some task)) s = record s {
  active_task = some task;
  items = [];
  seen_seqs = [];
}

-- `handleCancel` up to its call, with whether it makes the call, and after it.
unfoldable pub cancel_start : LiveCard → LiveCard × Bool
cancel_start s =
    if not (is_some s.active_task) || s.cancelling
    then (s, false)
    else (record s { cancelling = true }, true)

unfoldable pub cancel_end : Response Bool → LiveCard → LiveCard
cancel_end (resolved _) s = s
cancel_end rejected s = record s { cancelling = false }

-- `formatElapsed` and `formatDuration` of a number of milliseconds that is not negative.
unfoldable pub format_duration : (ℕ → String) → ℕ → String
format_duration to_text ms =
    let seconds = ms / 1000 in
    if ltb seconds 60
    then text_append (to_text seconds) "s"
    else text_append (to_text (seconds / 60))
        (text_append "m " (text_append (to_text (seconds % 60)) "s"))

unfoldable pub task_mode_label : TaskMode → String
task_mode_label plan = "Planning"
task_mode_label build = "Build"

-- The number of calls of tools that the header shows.
unfoldable pub tool_count : List TimelineItem → ℕ
tool_count items = length (
    filter
      (λ (i : TimelineItem). elim i.type [ text_message ↦ false | tool_use ↦ true | _ ↦ false ])
      items)
