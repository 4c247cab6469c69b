-- ===== src/Subscribers.antt =====
-- apps/web/features/issues/hooks/use-issue-subscribers.ts. An asynchronous action is cut at its
-- `await`. `now` stands for `new Date().toISOString()`. Toasts and logs are left out.
pub mod Laws
mod Tests
use github_idea_os_app.Base.{
  ℕ, zero, suc, ◌+◌, ◌-◌, ◌*◌, ◌/◌, ◌%◌, ◌≤◌, ◌<◌, Ordering, compare, String, ◌≡◌, refl, sym, ap,
  subst, ◌∙◌, ◌≢◌, ◌↔◌, ◌⊎◌, inl, inr, Bool, true, false, not, ◌&&◌, ◌||◌, Option, none, some, List,
  [], ◌∷◌, ◌++◌, map, arith, if◌then◌else◌, Bool-cases, Option-cases, Eq, ◌==◌, string_eq,
  string_discrete, nat_eq, option_eq, ltb, leb, get_or, or_else, is_some, is_nonempty, is_truthy,
  length, any, filter, find, head?, is_empty, All, length-append, length-filter-le, any-append,
  any-filter, filter-append, includes, has, IsUnique, IsUnique-concat, IsUnique-filter, has-map,
  IsUnique-map, map_option, find_key, remove_key, map_key, add_new, has-find_key, find_key-append,
  find_key-remove_key, any-eq_true, All-append, All-filter, All-of_forall, All-imp, All-filter-map,
  eq_nil_of_All, map-congr, map-map, All-zip, All-of_none, All-filter_self, any_of_All, All-mem,
  Mem, Perm, find_key-map_key, find_key-add_new, IsUnique-add_new, IsUnique-map_key,
}
use github_idea_os_app.Base.Async.{Response, resolved, rejected}
use github_idea_os_app.Types.Issue.{IssueAssigneeType, member, assignee_type_eq}
use github_idea_os_app.Types.Comment.{IssueSubscriber, SubscriberReason, manual, reason_eq}

pub record SubscribersState : Type 0 where
  pub subscribers : List IssueSubscriber
  pub loading : Bool

-- The effect that runs when the issue changes, up to the call.
unfoldable pub load_start : SubscribersState → SubscribersState
load_start s = record { subscribers = []; loading = true }

unfoldable pub load_end : Response (List IssueSubscriber) → SubscribersState → SubscribersState
load_end (resolved subs) s = record { subscribers = subs; loading = false }
load_end rejected s = record s { loading = false }

unfoldable pub reconnect_end : Response (List IssueSubscriber) → SubscribersState → SubscribersState
reconnect_end (resolved subs) s = record s { subscribers = subs }
reconnect_end rejected s = s

-- `s.user_id === userId && s.user_type === userType`
abbrev pub is_user : String → IssueAssigneeType → IssueSubscriber → Bool
is_user user_id user_type s = s.user_id == user_id && s.user_type == user_type

-- `prev.some(…) ? prev : [...prev, sub]`
unfoldable pub subscribe : IssueSubscriber → List IssueSubscriber → List IssueSubscriber
subscribe sub prev = if any (is_user sub.user_id sub.user_type) prev then prev else prev ++ sub ∷ []

unfoldable pub unsubscribe :
    String → IssueAssigneeType → List IssueSubscriber → List IssueSubscriber
unsubscribe user_id user_type prev = filter (λ s. not (is_user user_id user_type s)) prev

-- The handler of `subscriber:added`.
unfoldable pub on_added :
    String
    → String
    → String
    → IssueAssigneeType
    → SubscriberReason
    → String
    → SubscribersState
    → SubscribersState
unfolding subscribe
on_added issue_id p_issue_id user_id user_type reason now s =
    if not (p_issue_id == issue_id) then s else record s {
      subscribers =
          subscribe
            (record {
              issue_id = p_issue_id;
              user_type = user_type;
              user_id = user_id;
              reason = reason;
              created_at = now;
            })
            s.subscribers;
    }

-- The handler of `subscriber:removed`.
unfoldable pub on_removed :
    String → String → String → IssueAssigneeType → SubscribersState → SubscribersState
unfolding unsubscribe
on_removed issue_id p_issue_id user_id user_type s =
    if not (p_issue_id == issue_id)
    then s
    else record s { subscribers = unsubscribe user_id user_type s.subscribers }

-- `isSubscribed`
unfoldable pub is_subscribed : Option String → SubscribersState → Bool
is_subscribed user_id s =
    any (λ u. u.user_type == member && some u.user_id == user_id) s.subscribers

-- What `toggleSubscriber` does once the call has failed: the entry that it removed, if any, or the
-- user that it added.
pub data Pending : Type 0 where
  removing : Option IssueSubscriber → Pending
  adding : String → IssueAssigneeType → Pending

-- `toggleSubscriber` up to the call.
unfoldable pub toggle_start :
    String
    → String
    → IssueAssigneeType
    → Bool
    → String
    → SubscribersState
    → SubscribersState × Pending
unfolding subscribe unsubscribe
toggle_start issue_id user_id user_type true now s = (
  record s { subscribers = unsubscribe user_id user_type s.subscribers },
  removing (find (is_user user_id user_type) s.subscribers),
)
toggle_start issue_id user_id user_type false now s = (
  record s {
    subscribers =
        subscribe
          (record {
            issue_id = issue_id;
            user_type = user_type;
            user_id = user_id;
            reason = manual;
            created_at = now;
          })
          s.subscribers;
  },
  adding user_id user_type,
)

-- `toggleSubscriber` once the server has answered; what the answer says is not used.
unfoldable pub toggle_end : Pending → Response Bool → SubscribersState → SubscribersState
toggle_end pending (resolved x) s = s
toggle_end (removing none) rejected s = s
toggle_end (removing (some removed)) rejected s = record s {
  subscribers = s.subscribers ++ removed ∷ [];
}
toggle_end (adding user_id user_type) rejected s = record s {
  subscribers =
      filter (λ u. not (u.user_id == user_id && u.user_type == user_type && u.reason == manual))
        s.subscribers;
}

-- `toggleSubscribe`: nothing without a user, else the toggle of the user as a member.
unfoldable pub toggle_subscribe :
    String → Option String → String → SubscribersState → Option (SubscribersState × Pending)
unfolding toggle_start is_subscribed
toggle_subscribe issue_id none now s = none
toggle_subscribe issue_id (some user_id) now s =
    if is_nonempty user_id
    then some (
        toggle_start issue_id user_id IssueAssigneeType.member (is_subscribed (some user_id) s) now
          s)
    else none
