-- ===== src/WorkspaceStore/Tests.antt =====
-- An application with two workspaces, the first of them open.
use github_idea_os_app.Base.{
  ◌≡◌, refl, true, false, none, some, List, [], ◌∷◌, Bool-cases, ◌==◌, string_eq, string_discrete,
  nat_eq, option_eq, option_discrete, is_nonempty, any, IsUnique,
}
use github_idea_os_app.Types.Agent.{Skill}
use github_idea_os_app.Samples.{an_app, a_workspace, a_skill}
use github_idea_os_app.WorkspaceStore.{switch_workspace, leave_start, leave_end, upsert}
use github_idea_os_app.WorkspaceStore.Identity.{
  Action, switch, cleared, left, hydrate, run, IsConsistent, run-IsConsistent,
}
use github_idea_os_app.WorkspaceStore.Switch.{open_id, leave_end-leave_start, switch_workspace_lem}
use github_idea_os_app.WorkspaceStore.Skills.{upsert-IsUnique}

abbrev actions : List Action
actions =
    switch "w2"
    ∷ left (a_workspace "w1" ∷ []) none
    ∷ cleared
    ∷ hydrate (a_workspace "w2" ∷ []) none
    ∷ []

run-IsConsistent_example : IsConsistent (run actions an_app)
run-IsConsistent_example = run-IsConsistent actions an_app (refl, refl)

nonempty : is_nonempty "w2" ≡ true
unfolding string_discrete Bool-cases
nonempty = refl

known : any (λ w. w.id == "w2") an_app.workspaces ≡ true
unfolding string_discrete Bool-cases
known = refl

switch_workspace_lem_example :
    let next = (switch_workspace "w2" an_app).0 in
    (open_id next ≡ some "w2")
    × (next.api_workspace_id ≡ some "w2")
    × (next.stored_workspace_id ≡ some "w2")
    × (next.issues.issues ≡ [])
    × (next.issues.loading ≡ true)
    × (next.inbox.items ≡ [])
    × (next.inbox.loading ≡ true)
    × (next.runtimes.runtimes ≡ [])
    × (next.runtimes.selected_id ≡ "")
    × (next.members ≡ [])
    × (next.agents ≡ [])
    × (next.skills ≡ [])
switch_workspace_lem_example = switch_workspace_lem "w2" an_app nonempty known

gone : any (λ w. w.id == "w1") (a_workspace "w2" ∷ []) ≡ false
unfolding string_discrete Bool-cases
gone = refl

leave_end-leave_start_example :
    let next = (leave_end (a_workspace "w2" ∷ []) (leave_start "w1" an_app) an_app).0 in
    ((open_id next == some "w1") ≡ false) × (open_id next ≡ some "w2")
unfolding string_discrete option_discrete Bool-cases
leave_end-leave_start_example = leave_end-leave_start "w1" (a_workspace "w2" ∷ []) an_app gone

upsert-IsUnique_example : IsUnique (λ (s : Skill). s.id) (upsert (a_skill "s2" none) an_app.skills)
upsert-IsUnique_example = upsert-IsUnique (a_skill "s2" none) an_app.skills (refl, tt)
