-- ===== src/Subscribers/Tests.antt =====
-- An issue with one subscriber.
use github_idea_os_app.Base.{
  ◌≡◌, refl, false, some, [], ◌∷◌, Bool-cases, string_eq, string_discrete, nat_eq, option_eq,
}
use github_idea_os_app.Base.Async.{rejected}
use github_idea_os_app.Types.Issue.{member}
use github_idea_os_app.Samples.{a_subscriber}
use github_idea_os_app.Subscribers.{SubscribersState, removing}
use github_idea_os_app.Subscribers.Laws.{
  subscribed, HasUniqueUsers, answer, step, step-HasUniqueUsers,
}

abbrev shown : SubscribersState
shown = record { subscribers = a_subscriber "u1" ∷ []; loading = false }

absent : subscribed "u2" member shown.subscribers ≡ false
unfolding string_discrete Bool-cases
absent = refl

step-HasUniqueUsers_example :
    HasUniqueUsers
      (step "i1" (answer (removing (some (a_subscriber "u2"))) rejected) shown).subscribers
step-HasUniqueUsers_example =
    step-HasUniqueUsers "i1" (answer (removing (some (a_subscriber "u2"))) rejected) shown absent
      (refl, tt)
