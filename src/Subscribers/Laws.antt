-- ===== src/Subscribers/Laws.antt =====
-- Who is subscribed: the list as a set of users.
use github_idea_os_app.Base.{
  String, ◌≡◌, refl, ap, ◌∙◌, inl, inr, Bool, true, false, not, ◌&&◌, ◌||◌, none, some, List, [],
  ◌∷◌, ◌++◌, arith, Bool-cases, ◌==◌, string_eq, nat_eq, option_eq, any, filter, find, any-append,
  any-filter,
}
use github_idea_os_app.Base.Async.{Response, resolved, rejected}
use github_idea_os_app.Types.Issue.{IssueAssigneeType, assignee_type_eq}
use github_idea_os_app.Types.Comment.{IssueSubscriber, SubscriberReason, manual, reason_eq}
use github_idea_os_app.Subscribers.{
  SubscribersState, is_user, subscribe, unsubscribe, Pending, removing, adding, on_added,
  on_removed, toggle_start, toggle_end,
}

-- Whether a user is subscribed.
abbrev pub subscribed : String → IssueAssigneeType → List IssueSubscriber → Bool
subscribed id type subs = any (is_user id type) subs

-- No user stands twice.
abbrev pub HasUniqueUsers : List IssueSubscriber → Type 0
HasUniqueUsers [] = Unit
HasUniqueUsers (s ∷ subs) = (subscribed s.user_id s.user_type subs ≡ false) × HasUniqueUsers subs

-- Subscribing adds the user, and no other, to those who are subscribed.
subscribed-subscribe :
    (sub : IssueSubscriber) (id : String) (type : IssueAssigneeType) (subs : List IssueSubscriber)
    → subscribed id type (subscribe sub subs) ≡ (is_user id type sub || subscribed id type subs)
unfolding subscribe
subscribed-subscribe sub id type subs =
    elim (Bool-cases (subscribed sub.user_id sub.user_type subs)) [
      | inl e ↦ rw e (present subs e)
      | inr e ↦ rw (e, any-append (is_user id type) subs (sub ∷ [])) (ground arith)
    ]
  where
    present :
        (subs : List IssueSubscriber)
        → subscribed sub.user_id sub.user_type subs ≡ true
        → subscribed id type subs ≡ (is_user id type sub || subscribed id type subs)
    present [] e = cc
    present (s ∷ subs) e = ground (arith, present subs)

subscribed-unsubscribe :
    (id j : String) (type k : IssueAssigneeType) (subs : List IssueSubscriber)
    → subscribed j k (unsubscribe id type subs)
      ≡ (not (j == id && k == type) && subscribed j k subs)
unfolding unsubscribe
subscribed-unsubscribe id j type k [] = ground arith
subscribed-unsubscribe id j type k (s ∷ subs) =
    ground (arith, subscribed-unsubscribe id j type k subs)

concat-HasUniqueUsers :
    (sub : IssueSubscriber) (subs : List IssueSubscriber)
    → subscribed sub.user_id sub.user_type subs ≡ false
    → HasUniqueUsers subs
    → HasUniqueUsers (subs ++ sub ∷ [])
concat-HasUniqueUsers sub [] e u = (refl, tt)
concat-HasUniqueUsers sub (s ∷ subs) e (new, u) = (
  rw (any-append (is_user s.user_id s.user_type) subs (sub ∷ []), new) (ground arith),
  concat-HasUniqueUsers sub subs (ground arith) u,
)

subscribe-HasUniqueUsers :
    (sub : IssueSubscriber) (subs : List IssueSubscriber)
    → HasUniqueUsers subs
    → HasUniqueUsers (subscribe sub subs)
unfolding subscribe
subscribe-HasUniqueUsers sub subs u =
    elim (Bool-cases (subscribed sub.user_id sub.user_type subs)) [
      | inl e ↦ rw e u
      | inr e ↦ rw e (concat-HasUniqueUsers sub subs e u)
    ]

filter-HasUniqueUsers :
    (p : IssueSubscriber → Bool) (subs : List IssueSubscriber)
    → HasUniqueUsers subs
    → HasUniqueUsers (filter p subs)
filter-HasUniqueUsers p [] u = tt
filter-HasUniqueUsers p (s ∷ subs) (new, u) = elim (Bool-cases (p s)) [
  | inl e ↦
      rw e (any-filter (is_user s.user_id s.user_type) p subs new, filter-HasUniqueUsers p subs u)
  | inr e ↦ rw e (filter-HasUniqueUsers p subs u)
]

-- What changes the list between two loads: the handlers of the two events, and the two halves of a
-- toggle.
pub data Step : Type 0 where
  added : String → String → IssueAssigneeType → SubscriberReason → String → Step
  removed : String → String → IssueAssigneeType → Step
  toggled : String → IssueAssigneeType → Bool → String → Step
  answer : Pending → Response Bool → Step

unfoldable pub step : String → Step → SubscribersState → SubscribersState
unfolding on_added on_removed toggle_start toggle_end
step issue_id (added p_issue_id id type reason now) s =
    on_added issue_id p_issue_id id type reason now s
step issue_id (removed p_issue_id id type) s = on_removed issue_id p_issue_id id type s
step issue_id (toggled id type on now) s = (toggle_start issue_id id type on now s).0
step issue_id (answer pending response) s = toggle_end pending response s

-- A user that is put back after a failed call has not been subscribed again in the meantime.
abbrev pub IsPutBackOnce : Step → SubscribersState → Type 0
IsPutBackOnce (answer (removing (some sub)) rejected) s =
    subscribed sub.user_id sub.user_type s.subscribers ≡ false
IsPutBackOnce _ s = Unit

-- No step makes a user stand twice, provided that a user who is put back after a failed call has
-- not been subscribed again in the meantime.
pub step-HasUniqueUsers :
    (issue_id : String) (e : Step) (s : SubscribersState)
    → IsPutBackOnce e s
    → HasUniqueUsers s.subscribers
    → HasUniqueUsers (step issue_id e s).subscribers
unfolding step unsubscribe
step-HasUniqueUsers issue_id (added p_issue_id id type reason now) s ok u =
    elim (Bool-cases (p_issue_id == issue_id)) [
      | inl e ↦ rw e (subscribe-HasUniqueUsers _ s.subscribers u)
      | inr e ↦ rw e u
    ]
step-HasUniqueUsers issue_id (removed p_issue_id id type) s ok u =
    elim (Bool-cases (p_issue_id == issue_id)) [
      | inl e ↦ rw e (filter-HasUniqueUsers _ s.subscribers u)
      | inr e ↦ rw e u
    ]
step-HasUniqueUsers issue_id (toggled id type true now) s ok u =
    filter-HasUniqueUsers _ s.subscribers u
step-HasUniqueUsers issue_id (toggled id type false now) s ok u =
    subscribe-HasUniqueUsers _ s.subscribers u
step-HasUniqueUsers issue_id (answer (removing none) (resolved x)) s ok u = u
step-HasUniqueUsers issue_id (answer (removing (some sub)) (resolved x)) s ok u = u
step-HasUniqueUsers issue_id (answer (adding id type) (resolved x)) s ok u = u
step-HasUniqueUsers issue_id (answer (removing none) rejected) s ok u = u
step-HasUniqueUsers issue_id (answer (removing (some sub)) rejected) s ok u =
    concat-HasUniqueUsers sub s.subscribers ok u
step-HasUniqueUsers issue_id (answer (adding id type) rejected) s ok u =
    filter-HasUniqueUsers _ s.subscribers u

find_user :
    (id : String) (type : IssueAssigneeType) (subs : List IssueSubscriber)
    → subscribed id type subs ≡ true
    → (sub : IssueSubscriber) × (find (is_user id type) subs ≡ some sub)
      × (sub.user_id ≡ id)
      × (sub.user_type ≡ type)
find_user id type [] h = cc
find_user id type (s ∷ subs) h = elim (Bool-cases (is_user id type s)) [
  | inl e ↦ (s, rw e, ground arith, ground arith)
  | inr e ↦ rw e (find_user id type subs (ground arith))
]

put_back :
    (id : String) (type : IssueAssigneeType) (sub : IssueSubscriber) (j : String)
    (k : IssueAssigneeType) (subs : List IssueSubscriber)
    → sub.user_id ≡ id
    → sub.user_type ≡ type
    → subscribed id type subs ≡ true
    → subscribed j k (unsubscribe id type subs ++ sub ∷ []) ≡ subscribed j k subs
put_back id type sub j k subs e f h =
    any-append (is_user j k) (unsubscribe id type subs) (sub ∷ [])
    ∙ ground (arith, subscribed-unsubscribe id j type k subs, h, e, f)

take_back :
    (id : String) (type : IssueAssigneeType) (sub : IssueSubscriber) (subs : List IssueSubscriber)
    → subscribed id type subs ≡ false
    → is_user id type sub ≡ true
    → sub.reason ≡ manual
    → filter
        (λ u. not (u.user_id == id && u.user_type == type && u.reason == manual))
        (subs ++ sub ∷ [])
      ≡ subs
take_back id type sub [] h e r = ground arith
take_back id type sub (s ∷ subs) h e r = ground (arith, take_back id type sub subs)

-- A toggle that the server refuses leaves everyone as subscribed as before, when it was told
-- correctly whether the user was subscribed.
pub toggle_end-toggle_start :
    (issue_id id : String) (type : IssueAssigneeType) (now : String) (s : SubscribersState)
    (j : String) (k : IssueAssigneeType)
    → let on = subscribed id type s.subscribers in
      let started = toggle_start issue_id id type on now s in
      subscribed j k (toggle_end started.1 rejected started.0).subscribers
      ≡ subscribed j k s.subscribers
unfolding toggle_start toggle_end
toggle_end-toggle_start issue_id id type now s j k =
    elim (Bool-cases (subscribed id type s.subscribers)) [
      | inl on ↦
          let (sub, found, same_id, same_type) = find_user id type s.subscribers on in
          rw (on, found) (put_back id type sub j k s.subscribers same_id same_type on)
      | inr off ↦
          rw (off, subscribe, off)
            (ap (any (is_user j k)) (take_back id type _ s.subscribers off (ground arith) refl))
    ]
