-- ===== src/IssueReactions.antt =====
-- apps/web/features/issues/hooks/use-issue-reactions.ts. An asynchronous action is cut at its
-- `await`. The id of a reaction that the server has not seen yet, `temp-${Date.now()}`, and the time
-- are arguments. Toasts and logs are left out.
pub mod Laws
mod Tests
use github_idea_os_app.Base.{
  ℕ, zero, suc, ◌+◌, ◌-◌, ◌*◌, ◌/◌, ◌%◌, ◌≤◌, ◌<◌, Ordering, compare, String, ◌≡◌, refl, sym, ap,
  subst, ◌∙◌, ◌≢◌, ◌↔◌, ◌⊎◌, inl, inr, Bool, true, false, not, ◌&&◌, ◌||◌, Option, none, some, List,
  [], ◌∷◌, ◌++◌, map, arith, if◌then◌else◌, Bool-cases, Option-cases, Eq, ◌==◌, string_eq,
  string_discrete, nat_eq, option_eq, ltb, leb, get_or, or_else, is_some, is_nonempty, is_truthy,
  length, any, filter, find, head?, is_empty, All, length-append, length-filter-le, any-append,
  any-filter, filter-append, includes, has, IsUnique, IsUnique-concat, IsUnique-filter, has-map,
  IsUnique-map, map_option, find_key, remove_key, map_key, add_new, has-find_key, find_key-append,
  find_key-remove_key, any-eq_true, All-append, All-filter, All-of_forall, All-imp, All-filter-map,
  eq_nil_of_All, map-congr, map-map, All-zip, All-of_none, All-filter_self, any_of_All, All-mem,
  Mem, Perm, find_key-map_key, find_key-add_new, IsUnique-add_new, IsUnique-map_key,
}
use github_idea_os_app.Base.Async.{Response, resolved, rejected}
use github_idea_os_app.Types.Issue.{Issue, IssueReaction}

pub record ReactionsState : Type 0 where
  pub reactions : List IssueReaction
  pub loading : Bool

-- The effect that runs when the issue changes, up to the call.
unfoldable pub load_start : ReactionsState → ReactionsState
load_start s = record { reactions = []; loading = true }

-- `iss.reactions ?? []` of the answer.
unfoldable pub load_end : Response (Option (List IssueReaction)) → ReactionsState → ReactionsState
load_end (resolved reactions) s = record { reactions = get_or reactions []; loading = false }
load_end rejected s = record s { loading = false }

unfoldable pub reconnect_end :
    Response (Option (List IssueReaction)) → ReactionsState → ReactionsState
reconnect_end (resolved reactions) s = record s { reactions = get_or reactions [] }
reconnect_end rejected s = s

-- `actor_type === "member" && actor_id === userId`
abbrev pub is_own : Option String → String → String → Bool
is_own user_id actor_type actor_id = actor_type == "member" && some actor_id == user_id

-- The handler of `issue_reaction:added`.
unfoldable pub on_added :
    String → Option String → String → IssueReaction → ReactionsState → ReactionsState
on_added issue_id user_id p_issue_id reaction s =
    if not (p_issue_id == issue_id)
    then s
    else if is_own user_id reaction.actor_type reaction.actor_id
    then s
    else record s {
      reactions =
          if any (λ r. r.id == reaction.id) s.reactions
          then s.reactions
          else s.reactions ++ reaction ∷ [];
    }

-- The handler of `issue_reaction:removed`.
unfoldable pub on_removed :
    String → Option String → String → String → String → String → ReactionsState → ReactionsState
on_removed issue_id user_id p_issue_id emoji actor_type actor_id s =
    if not (p_issue_id == issue_id)
    then s
    else if is_own user_id actor_type actor_id
    then s
    else record s {
      reactions =
          filter
            (λ r. not (r.emoji == emoji && r.actor_type == actor_type && r.actor_id == actor_id))
            s.reactions;
    }

-- What `toggleReaction` waits for.
pub data Toggle : Type 0 where
  removing : IssueReaction → Toggle
  adding : IssueReaction → Toggle

-- `r.emoji === emoji && r.actor_type === "member" && r.actor_id === userId`
abbrev pub is_mine : String → String → IssueReaction → Bool
is_mine user_id emoji r = r.emoji == emoji && r.actor_type == "member" && r.actor_id == user_id

-- `toggleReaction` up to its call.
unfoldable pub toggle_start :
    String
    → Option String
    → String
    → String
    → String
    → ReactionsState
    → ReactionsState × Option Toggle
toggle_start issue_id none emoji temp_id now s = (s, none)
toggle_start issue_id (some user_id) emoji temp_id now s =
    if not (is_nonempty user_id)
    then (s, none)
    else elim (find (is_mine user_id emoji) s.reactions) [
      | some existing ↦ (
        record s { reactions = filter (λ r. not (r.id == existing.id)) s.reactions },
        some (removing existing),
      )
      | none ↦
          let temp : IssueReaction = record {
            id = temp_id;
            issue_id = issue_id;
            actor_type = "member";
            actor_id = user_id;
            emoji = emoji;
            created_at = now;
          } in
          (record s { reactions = s.reactions ++ temp ∷ [] }, some (adding temp))
    ]

unfoldable pub remove_end : IssueReaction → Response Bool → ReactionsState → ReactionsState
remove_end existing (resolved x) s = s
remove_end existing rejected s = record s { reactions = s.reactions ++ existing ∷ [] }

unfoldable pub add_end : IssueReaction → Response IssueReaction → ReactionsState → ReactionsState
add_end temp (resolved reaction) s = record s {
  reactions = map (λ r. if r.id == temp.id then reaction else r) s.reactions;
}
add_end temp rejected s = record s { reactions = filter (λ r. not (r.id == temp.id)) s.reactions }
