-- ===== src/IssueStore/Laws.antt =====
-- The store as a map from ids to issues, its ids, and the loading flag of a fetch.
use github_idea_os_app.Base.{
  String, ◌≡◌, refl, ◌⊎◌, Bool, true, false, not, Option, none, some, List, [], ◌∷◌, arith,
  if◌then◌else◌, ◌==◌, string_eq, nat_eq, option_eq, get_or, or_else, IsUnique, IsUnique-filter,
  map_option, find_key, find_key-remove_key, find_key-map_key, find_key-add_new, IsUnique-add_new,
  IsUnique-map_key,
}
use github_idea_os_app.Base.Async.{Response, resolved, rejected, answered}
use github_idea_os_app.Types.Issue.{Issue, IssueUpdates, spread}
use github_idea_os_app.IssueStore.{
  IssueState, fetch_start, fetch_end, set_issues, add_issue, update_issue, remove_issue,
  set_active_issue,
}

-- The synchronous actions, and the answer of the server to a fetch that is under way. A boolean says
-- whether that fetch was the initial load.
pub data Action : Type 0 where
  add : Issue → Action
  update : String → IssueUpdates → Action
  remove : String → Action
  activate : Option String → Action
  load : List Issue → Action
  answer : Bool → Response (List Issue) → Action

unfoldable pub step : Action → IssueState → IssueState
unfolding add_issue update_issue remove_issue set_active_issue set_issues fetch_end
step (add i) s = add_issue i s
step (update id u) s = update_issue id u s
step (remove id) s = remove_issue id s
step (activate id) s = set_active_issue id s
step (load is) s = set_issues is s
step (answer initially r) s = fetch_end initially r s

unfoldable pub run : List Action → IssueState → IssueState
run [] s = s
run (a ∷ as') s = run as' (step a s)

-- The updates leave the id of the issue `id` alone.
abbrev pub KeepsId : String → IssueUpdates → Type 0
KeepsId id u = (u.id ≡ none) ⊎ (u.id ≡ some id)

-- What an action brings is sound: updates do not rename, and lists from the server repeat no id.
abbrev pub IsSound : Action → Type 0
IsSound (update id u) = KeepsId id u
IsSound (load is) = IsUnique (λ (i : Issue). i.id) is
IsSound (answer initially (resolved is)) = IsUnique (λ (i : Issue). i.id) is
IsSound _ = Unit

abbrev pub AllSound : List Action → Type 0
AllSound [] = Unit
AllSound (a ∷ as') = IsSound a × AllSound as'

abbrev pub HasUniqueIds : IssueState → Type 0
HasUniqueIds s = IsUnique (λ (i : Issue). i.id) s.issues

-- The issue that the store holds under an id.
abbrev pub issue_at : IssueState → String → Option Issue
issue_at s id = find_key (λ (i : Issue). i.id) id s.issues

-- What an action does to a map from ids to issues.
unfoldable pub apply_to_map : Action → (String → Option Issue) → String → Option Issue
apply_to_map (add i) m k = if k == i.id then or_else (m k) (some i) else m k
apply_to_map (update id u) m k = if k == id then map_option (λ i. spread i u) (m k) else m k
apply_to_map (remove id) m k = if k == id then none else m k
apply_to_map (activate id) m k = m k
apply_to_map (load is) m k = find_key (λ (i : Issue). i.id) k is
apply_to_map (answer initially (resolved is)) m k = find_key (λ (i : Issue). i.id) k is
apply_to_map (answer initially rejected) m k = m k

spread-id :
    (id : String) (u : IssueUpdates) (i : Issue) → KeepsId id u → i.id ≡ id → (spread i u).id ≡ i.id
unfolding spread
spread-id id u i h e = ground arith

-- Every action acts on the issues as its specification acts on a map from ids to issues, provided
-- that updates do not change the id of the issue that they are for.
pub issue_at-step :
    (a : Action) (s : IssueState) (k : String)
    → IsSound a
    → issue_at (step a s) k ≡ apply_to_map a (issue_at s) k
unfolding step apply_to_map
issue_at-step (add i) s k h = find_key-add_new (λ (j : Issue). j.id) k i s.issues
issue_at-step (update id u) s k h =
    find_key-map_key (λ (j : Issue). j.id) k id (λ i. spread i u) s.issues (λ i. spread-id id u i h)
issue_at-step (remove id) s k h = find_key-remove_key (λ (j : Issue). j.id) k id s.issues
issue_at-step (activate id) s k h = refl
issue_at-step (load is) s k h = refl
issue_at-step (answer initially (resolved is)) s k h = refl
issue_at-step (answer true rejected) s k h = refl
issue_at-step (answer false rejected) s k h = refl

step-HasUniqueIds :
    (a : Action) (s : IssueState) → IsSound a → HasUniqueIds s → HasUniqueIds (step a s)
unfolding step
step-HasUniqueIds (add i) s h v = IsUnique-add_new (λ (j : Issue). j.id) i s.issues v
step-HasUniqueIds (update id u) s h v =
    IsUnique-map_key (λ (j : Issue). j.id) id (λ i. spread i u) s.issues (λ i. spread-id id u i h) v
step-HasUniqueIds (remove id) s h v =
    IsUnique-filter (λ (j : Issue). j.id) (λ i. not (i.id == id)) s.issues v
step-HasUniqueIds (activate id) s h v = v
step-HasUniqueIds (load is) s h v = h
step-HasUniqueIds (answer initially (resolved is)) s h v = h
step-HasUniqueIds (answer true rejected) s h v = v
step-HasUniqueIds (answer false rejected) s h v = v

-- No sequence of sound actions ever puts two issues with one id into a store that has none.
pub run-HasUniqueIds :
    (as' : List Action) (s : IssueState) → AllSound as' → HasUniqueIds s → HasUniqueIds (run as' s)
unfolding run
run-HasUniqueIds [] s h v = v
run-HasUniqueIds (a ∷ as') s (h, hs) v =
    run-HasUniqueIds as' (step a s) hs (step-HasUniqueIds a s h v)

step-loading : (a : Action) (s : IssueState) → s.loading ≡ false → (step a s).loading ≡ false
unfolding step
step-loading (answer true rejected) s h = refl
step-loading (answer false rejected) s h = h
step-loading _ s h = ground arith

run-loading : (as' : List Action) (s : IssueState) → s.loading ≡ false → (run as' s).loading ≡ false
unfolding run
run-loading [] s h = h
run-loading (a ∷ as') s h = run-loading as' (step a s) (step-loading a s h)

answer_ends :
    (b : Bool) (q : Response (List Issue)) (t : IssueState)
    → (b ≡ true) ⊎ ((is : List Issue) × (q ≡ resolved is))
    → (step (answer b q) t).loading ≡ false
unfolding step
answer_ends b (resolved is) t h = refl
answer_ends true rejected t h = refl
answer_ends false rejected t h = ground arith

answer_issues :
    (b : Bool) (q : Response (List Issue)) (t : IssueState)
    → (step (answer b q) t).issues ≡ get_or (answered q) t.issues
unfolding step
answer_issues b (resolved is) t = refl
answer_issues true rejected t = refl
answer_issues false rejected t = refl

-- A fetch that is the first load, or that the server answers, ends the loading, whatever happens
-- between its start and its answer and after it; and its answer puts the server's issues into the
-- store, or leaves the issues as they are if it is a failure.
pub fetch_loading :
    (s : IssueState) (before after : List Action) (r : Response (List Issue))
    → ((fetch_start s).1 ≡ true) ⊎ ((is : List Issue) × (r ≡ resolved is))
    → ((run after (step (answer (fetch_start s).1 r) (run before (fetch_start s).0))).loading
        ≡ false)
      × ((step (answer (fetch_start s).1 r) (run before (fetch_start s).0)).issues
          ≡ get_or (answered r) (run before (fetch_start s).0).issues)
fetch_loading s before after r h = (
  run-loading after _ (answer_ends (fetch_start s).1 r (run before (fetch_start s).0) h),
  answer_issues (fetch_start s).1 r (run before (fetch_start s).0),
)
