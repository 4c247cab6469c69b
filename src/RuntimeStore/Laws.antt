-- ===== src/RuntimeStore/Laws.antt =====
-- The selected runtime.
use github_idea_os_app.Base.{
  String, ◌≡◌, refl, ◌∙◌, ◌⊎◌, inl, inr, true, ◌&&◌, none, some, List, [], ◌∷◌, map, arith,
  if◌then◌else◌, Bool-cases, ◌==◌, string_eq, nat_eq, option_eq, get_or, is_nonempty, any, head?,
  map_option,
}
use github_idea_os_app.Base.Async.{Response, resolved, rejected}
use github_idea_os_app.Types.Agent.{AgentRuntime, RuntimeUpdates, spread_runtime}
use github_idea_os_app.RuntimeStore.{
  RuntimeState, selection, fetch_runtimes_end, set_selected_id, patch_runtime, set_runtimes,
}

-- The actions of the store as the server's answers and the pages run them.
pub data Action : Type 0 where
  fetched : Response (List AgentRuntime) → Action
  selected : String → Action
  patched : String → RuntimeUpdates → Action
  replaced : List AgentRuntime → Action

unfoldable pub step : Action → RuntimeState → RuntimeState
unfolding fetch_runtimes_end set_selected_id patch_runtime set_runtimes
step (fetched response) s = fetch_runtimes_end response s
step (selected id) s = set_selected_id id s
step (patched id updates) s = patch_runtime id updates s
step (replaced runtimes) s = set_runtimes runtimes s

-- The selected id is empty, or some runtime has it.
abbrev pub IsSelection : String → List AgentRuntime → Type 0
IsSelection id runtimes = (id ≡ "") ⊎ (any (λ r. r.id == id) runtimes ≡ true)

-- What the pages do: they select a runtime that is shown, and a patch does not change the id.
abbrev pub IsAllowed : Action → RuntimeState → Type 0
IsAllowed (fetched response) s = Unit
IsAllowed (selected id) s = IsSelection id s.runtimes
IsAllowed (patched id updates) s = (updates.id ≡ none) ⊎ (updates.id ≡ some id)
IsAllowed (replaced runtimes) s = Unit

selection-IsSelection : (id : String) (rs : List AgentRuntime) → IsSelection (selection id rs) rs
unfolding selection
selection-IsSelection id rs = elim (Bool-cases (is_nonempty id && any (λ r. r.id == id) rs)) [
  | inl e ↦ rw e (inr (ground arith))
  | inr e ↦ rw e (first rs)
]
  where
    first :
        (rs : List AgentRuntime) → IsSelection (get_or (map_option (λ r. r.id) (head? rs)) "") rs
    first [] = inl refl
    first (r ∷ rs) = inr (ground arith)

patch_keeps :
    (id : String) (updates : RuntimeUpdates) (rs : List AgentRuntime) (j : String)
    → (updates.id ≡ none) ⊎ (updates.id ≡ some id)
    → any (λ r. r.id == j) (map (λ r. if r.id == id then spread_runtime r updates else r) rs)
      ≡ any (λ r. r.id == j) rs
unfolding spread_runtime
patch_keeps id updates [] j h = refl
patch_keeps id updates (r ∷ rs) j h = ground (arith, patch_keeps id updates rs j h)

-- After every action that is allowed the selected id is empty or that of a runtime of the list, if
-- it was so before.
pub step-IsSelection :
    (a : Action) (s : RuntimeState)
    → IsAllowed a s
    → IsSelection s.selected_id s.runtimes
    → IsSelection (step a s).selected_id (step a s).runtimes
unfolding step
step-IsSelection (fetched (resolved rs)) s ok h = selection-IsSelection s.selected_id rs
step-IsSelection (fetched rejected) s ok h = h
step-IsSelection (selected id) s ok h = ok
step-IsSelection (patched id updates) s ok (inl h) = inl h
step-IsSelection (patched id updates) s ok (inr h) =
    inr (patch_keeps id updates s.runtimes s.selected_id ok ∙ h)
step-IsSelection (replaced rs) s ok h = selection-IsSelection s.selected_id rs
