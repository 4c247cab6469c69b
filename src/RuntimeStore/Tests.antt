-- ===== src/RuntimeStore/Tests.antt =====
-- A store without runtimes, whose list is replaced.
use github_idea_os_app.Base.{refl, inl, false, [], ◌∷◌, string_eq, nat_eq, option_eq}
use github_idea_os_app.RuntimeStore.{RuntimeState}
use github_idea_os_app.RuntimeStore.Laws.{replaced, step, IsSelection, step-IsSelection}
use github_idea_os_app.Samples.{a_runtime}

abbrev store : RuntimeState
store = record { runtimes = []; selected_id = ""; fetching = false }

step-IsSelection_example :
    IsSelection
      (step (replaced (a_runtime ∷ [])) store).selected_id
      (step (replaced (a_runtime ∷ [])) store).runtimes
step-IsSelection_example = step-IsSelection (replaced (a_runtime ∷ [])) store tt (inl refl)
