-- ===== src/IssueReactions/Tests.antt =====
-- An issue with the reactions of two users.
use github_idea_os_app.Base.{
  ◌≡◌, refl, false, some, [], ◌∷◌, Bool-cases, ◌==◌, string_eq, string_discrete, nat_eq, option_eq,
  any, has, IsUnique,
}
use github_idea_os_app.Types.Issue.{IssueReaction}
use github_idea_os_app.Samples.{a_reaction}
use github_idea_os_app.IssueReactions.{ReactionsState, toggle_start}
use github_idea_os_app.IssueReactions.Laws.{refused, refused-toggle_start}

abbrev shown : ReactionsState
shown = record { reactions = a_reaction "r1" "u1" ∷ a_reaction "r2" "u2" ∷ []; loading = false }

shown-IsUnique : IsUnique (λ (r : IssueReaction). r.id) shown.reactions
unfolding string_discrete Bool-cases
shown-IsUnique = (refl, (refl, tt))

fresh : has (λ (r : IssueReaction). r.id) "temp-1" shown.reactions ≡ false
unfolding string_discrete Bool-cases
fresh = refl

refused-toggle_start_example :
    let started = toggle_start "i1" (some "u1") "+1" "temp-1" "2026-01-02" shown in
    any (λ r. r.id == "r1") (refused started.1 started.0).reactions
    ≡ any (λ r. r.id == "r1") shown.reactions
refused-toggle_start_example =
    refused-toggle_start "i1" "u1" "+1" "temp-1" "2026-01-02" shown (λ r. r.id == "r1")
      shown-IsUnique fresh
