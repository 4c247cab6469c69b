-- ===== src/ViewStore/Visible.antt =====
-- Which issues pass the filters.
use github_idea_os_app.Base.{
  ◌≡◌, refl, sym, ap, ◌∙◌, ◌↔◌, ◌⊎◌, inl, inr, Bool, true, false, not, ◌&&◌, ◌||◌, some, List, [],
  ◌∷◌, arith, if◌then◌else◌, ◌==◌, string_eq, nat_eq, option_eq, is_truthy, any, is_empty, includes,
}
use github_idea_os_app.Types.Issue.{Issue, status_eq, priority_eq, assignee_type_eq}
use github_idea_os_app.ViewStore.{ActorFilterValue, IssueViewState, clear_filters}
use github_idea_os_app.ViewStore.Filter.{
  IssueFilters, filters_of, passes_assignee, passes, filter_issues,
}

-- What the filters mean: an empty list of choices lets everything pass, another only what it holds;
-- an unassigned issue passes the choice of assignees only if unassigned issues are asked for.
pub record Shows (fs : IssueFilters) (i : Issue) : Type 0 where
  pub status : (fs.status_filters ≡ []) ⊎ (includes fs.status_filters i.status ≡ true)
  pub priority : (fs.priority_filters ≡ []) ⊎ (includes fs.priority_filters i.priority ≡ true)
  pub assignee :
      ((fs.assignee_filters ≡ []) × (fs.include_no_assignee ≡ false))
      ⊎ (((is_truthy i.assignee_id ≡ false) × (fs.include_no_assignee ≡ true))
          ⊎ ((is_truthy i.assignee_id ≡ true)
              × (any
                    (λ f. some f.type == i.assignee_type && some f.id == i.assignee_id)
                    fs.assignee_filters
                  ≡ true)))
  pub creator :
      (fs.creator_filters ≡ [])
      ⊎ (any (λ f. f.type == i.creator_type && f.id == i.creator_id) fs.creator_filters ≡ true)

-- The four parts of the test.
abbrev status_ok : IssueFilters → Issue → Bool
status_ok fs i = is_empty fs.status_filters || includes fs.status_filters i.status

abbrev priority_ok : IssueFilters → Issue → Bool
priority_ok fs i = is_empty fs.priority_filters || includes fs.priority_filters i.priority

abbrev assignee_ok : IssueFilters → Issue → Bool
assignee_ok fs i =
    not (not (is_empty fs.assignee_filters) || fs.include_no_assignee) || passes_assignee fs i

abbrev creator_ok : IssueFilters → Issue → Bool
creator_ok fs i =
    is_empty fs.creator_filters
    || any (λ f. f.type == i.creator_type && f.id == i.creator_id) fs.creator_filters

ladder :
    (a b c d e f g h : Bool)
    → (if not a && not b
        then false
        else if not c && not d
        then false
        else if e && not f
        then false
        else if not g && not h
        then false
        else true)
      ≡ ((a || b) && (c || d) && (not e || f) && (g || h))
ladder a b c d e f g h = ground arith

passes-parts :
    (fs : IssueFilters) (i : Issue)
    → passes fs i ≡ (status_ok fs i && priority_ok fs i && assignee_ok fs i && creator_ok fs i)
unfolding passes
passes-parts fs i =
    ladder (is_empty fs.status_filters) (includes fs.status_filters i.status)
      (is_empty fs.priority_filters) (includes fs.priority_filters i.priority)
      (not (is_empty fs.assignee_filters) || fs.include_no_assignee) (passes_assignee fs i)
      (is_empty fs.creator_filters)
      (any (λ f. f.type == i.creator_type && f.id == i.creator_id) fs.creator_filters)

choice_iff {ℓ} :
    {A : Type ℓ} (xs : List A) (b : Bool) → ((is_empty xs || b) ≡ true) ↔ ((xs ≡ []) ⊎ (b ≡ true))
choice_iff [] b = (λ h. inl refl, λ h. refl)
choice_iff (x ∷ xs) b = (λ h. inr h, λ h. ground arith)

-- The test of the assignee by its inputs: the choices, whether unassigned issues are asked for, and
-- whether the issue is assigned.
assignee_test_iff :
    (xs : List ActorFilterValue) (p : ActorFilterValue → Bool) (wanted assigned : Bool)
    → ((not (not (is_empty xs) || wanted)
          || (if not assigned then wanted else if not (is_empty xs) then any p xs else false))
        ≡ true)
      ↔ (((xs ≡ []) × (wanted ≡ false))
          ⊎ (((assigned ≡ false) × (wanted ≡ true)) ⊎ ((assigned ≡ true) × (any p xs ≡ true))))
assignee_test_iff [] p false assigned = (λ h. inl (refl, refl), λ h. refl)
assignee_test_iff [] p true false = (λ h. inr (inl (refl, refl)), λ h. refl)
assignee_test_iff [] p true true = (λ h. cc, λ h. ground arith)
assignee_test_iff (x ∷ xs) p wanted false = (λ h. inr (inl (refl, h)), λ h. ground arith)
assignee_test_iff (x ∷ xs) p wanted true = (λ h. inr (inr (refl, h)), λ h. ground arith)

all_four :
    (a b c d : Bool) → (a && b && c && d) ≡ true → (a ≡ true) × (b ≡ true) × (c ≡ true) × (d ≡ true)
all_four a b c d h = ground arith

-- An issue passes the filters exactly when each kind of choice lets it pass.
pub passes_iff : (fs : IssueFilters) (i : Issue) → (passes fs i ≡ true) ↔ Shows fs i
unfolding passes_assignee
passes_iff fs i = (to, from)
  where
    to : passes fs i ≡ true → Shows fs i
    to h =
        let (a, b, c, d) = all_four _ _ _ _ (sym (passes-parts fs i) ∙ h) in
        record {
          status = (choice_iff fs.status_filters _).0 a;
          priority = (choice_iff fs.priority_filters _).0 b;
          assignee =
              (assignee_test_iff fs.assignee_filters _ fs.include_no_assignee
                  (is_truthy i.assignee_id)).0
                c;
          creator = (choice_iff fs.creator_filters _).0 d;
        }

    from : Shows fs i → passes fs i ≡ true
    from h =
        passes-parts fs i
        ∙ rw (
          (choice_iff fs.status_filters (includes fs.status_filters i.status)).1 h.status,
          (choice_iff fs.priority_filters (includes fs.priority_filters i.priority)).1 h.priority,
          (assignee_test_iff fs.assignee_filters
                (λ f. some f.type == i.assignee_type && some f.id == i.assignee_id)
                fs.include_no_assignee (is_truthy i.assignee_id)).1
              h.assignee,
          (choice_iff fs.creator_filters
                (any (λ f. f.type == i.creator_type && f.id == i.creator_id) fs.creator_filters)).1
              h.creator,
        )

-- Without filters every issue is shown.
filter_issues-clear_filters :
    (s : IssueViewState) (issues : List Issue)
    → filter_issues issues (filters_of (clear_filters s)) ≡ issues
unfolding filter_issues clear_filters
filter_issues-clear_filters s [] = refl
filter_issues-clear_filters s (i ∷ issues) = ap (◌∷◌ i) (filter_issues-clear_filters s issues)
