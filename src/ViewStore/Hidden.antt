-- ===== src/ViewStore/Hidden.antt =====
-- Hiding a status and showing it again.
use github_idea_os_app.Base.{
  ◌≡◌, refl, ap, subst, ◌⊎◌, Bool, true, false, not, List, [], ◌∷◌, ◌++◌, arith, if◌then◌else◌,
  ◌==◌, string_eq, nat_eq, option_eq, filter, is_empty, All, any-append, includes, All-filter_self,
}
use github_idea_os_app.Types.Issue.{
  Issue, IssueStatus, IssueStatus-discrete, status_eq, backlog, todo, in_progress, in_review, done,
  blocked, cancelled,
}
use github_idea_os_app.ViewStore.{IssueViewState, hide_status, show_status}
use github_idea_os_app.ViewStore.Config.{all_statuses}
use github_idea_os_app.ViewStore.Filter.{filters_of, passes, filter_issues}
use github_idea_os_app.ViewStore.Visible.{passes_iff}

not_hidden :
    (status t : IssueStatus) (xs : List IssueStatus)
    → includes (filter (λ u. not (u == status)) xs) t ≡ true
    → (t == status) ≡ false
not_hidden status t [] h = cc
not_hidden status t (x ∷ xs) h = ground (arith, not_hidden status t xs)

hidden_filters :
    (status : IssueStatus) (s : IssueViewState)
    → (hide_status status s).status_filters
      ≡ filter
          (λ t. not (t == status))
          (if is_empty s.status_filters then all_statuses else s.status_filters)
unfolding hide_status
hidden_filters status s = ground arith

nonempty :
    (xs : List IssueStatus) (b : Bool) → is_empty xs ≡ false → (xs ≡ []) ⊎ (b ≡ true) → b ≡ true
nonempty [] b h c = cc
nonempty (x ∷ xs) b h c = ground arith

hides :
    (status : IssueStatus) (s : IssueViewState) (i : Issue)
    → is_empty (hide_status status s).status_filters ≡ false
    → passes (filters_of (hide_status status s)) i ≡ true
    → (i.status == status) ≡ false
hides status s i h p = not_hidden status i.status _ (
    subst (λ xs. includes xs i.status ≡ true) (hidden_filters status s)
      (nonempty (hide_status status s).status_filters _ h ((passes_iff _ i).0 p).status))

-- A status that is hidden is not shown, provided that the filter by status is not empty after it.
pub hide_status_hides :
    (status : IssueStatus) (s : IssueViewState) (issues : List Issue)
    → is_empty (hide_status status s).status_filters ≡ false
    → All
        (λ i. (i.status == status) ≡ false)
        (filter_issues issues (filters_of (hide_status status s)))
unfolding filter_issues
hide_status_hides status s issues h =
    All-filter_self (λ i. (i.status == status) ≡ false) (passes (filters_of (hide_status status s)))
      (λ i p. hides status s i h p) issues

alone : (status : IssueStatus) → filter (λ t. not (t == status)) (status ∷ []) ≡ []
alone status = ground arith

hides_all :
    (status : IssueStatus) (s : IssueViewState)
    → s.status_filters ≡ status ∷ []
    → hide_status status s ≡ record s { status_filters = [] }
unfolding hide_status
hides_all status s h = rw (h, alone status)

-- Hiding the only status of the filter turns the filter by status off: the view then shows the
-- issues of every status, those of the hidden one too, that its other filters let pass.
pub hide_status_only :
    (status : IssueStatus) (s : IssueViewState) (issues : List Issue)
    → s.status_filters ≡ status ∷ []
    → filter_issues issues (filters_of (hide_status status s))
      ≡ filter_issues issues (filters_of (record s { status_filters = [] }))
hide_status_only status s issues h =
    ap (λ v. filter_issues issues (filters_of v)) (hides_all status s h)

is_status : (t : IssueStatus) → includes all_statuses t ≡ true
unfolding IssueStatus-discrete
is_status backlog = refl
is_status todo = refl
is_status in_progress = refl
is_status in_review = refl
is_status done = refl
is_status blocked = refl
is_status cancelled = refl

includes_back :
    (status t : IssueStatus) (xs : List IssueStatus)
    → includes xs t ≡ true
    → includes (filter (λ u. not (u == status)) xs ++ status ∷ []) t ≡ true
includes_back status t [] h = cc
includes_back status t (x ∷ xs) h = ground (
  arith,
  includes_back status t xs,
  any-append (λ u. u == t) (filter (λ u. not (u == status)) xs) (status ∷ []),
)

-- The filter after hiding a status of the unfiltered view and showing it again.
shown_again :
    (status : IssueStatus) (s : IssueViewState)
    → s.status_filters ≡ []
    → show_status status (hide_status status s)
      ≡ record s { status_filters = filter (λ u. not (u == status)) all_statuses ++ status ∷ [] }
unfolding hide_status show_status IssueStatus-discrete
shown_again backlog s h = rw h
shown_again todo s h = rw h
shown_again in_progress s h = rw h
shown_again in_review s h = rw h
shown_again done s h = rw h
shown_again blocked s h = rw h
shown_again cancelled s h = rw h

concat_nonempty {ℓ} : {A : Type ℓ} → (xs : List A) (x : A) → is_empty (xs ++ x ∷ []) ≡ false
concat_nonempty [] x = refl
concat_nonempty (y ∷ xs) x = refl

-- The view whose filter holds every status, the given one last.
abbrev every_status : IssueStatus → IssueViewState → IssueViewState
every_status status s = record s {
  status_filters = filter (λ u. not (u == status)) all_statuses ++ status ∷ [];
}

all_again :
    (status : IssueStatus) (s : IssueViewState)
    → s.status_filters ≡ []
    → (i : Issue) → passes (filters_of (every_status status s)) i ≡ passes (filters_of s) i
unfolding passes
all_again status s h i = rw (
  h,
  concat_nonempty (filter (λ u. not (u == status)) all_statuses) status,
  includes_back status i.status all_statuses (is_status i.status),
)

filter-congr {ℓ} :
    {A : Type ℓ}
    → (p q : A → Bool) → ((a : A) → p a ≡ q a)
    → (xs : List A) → filter p xs ≡ filter q xs
filter-congr p q h [] = refl
filter-congr p q h (x ∷ xs) = rw (h x, filter-congr p q h xs)

-- Showing a status again that was hidden from a view without a filter by status shows what was
-- shown before.
pub show_status-hide_status :
    (status : IssueStatus) (s : IssueViewState) (issues : List Issue)
    → s.status_filters ≡ []
    → filter_issues issues (filters_of (show_status status (hide_status status s)))
      ≡ filter_issues issues (filters_of s)
unfolding filter_issues
show_status-hide_status status s issues h = rw (shown_again status s h) (
    filter-congr (passes (filters_of (every_status status s))) (passes (filters_of s))
      (all_again status s h) issues)
