-- ===== src/ViewStore/Order.antt =====
-- apps/web/features/issues/utils/sort.ts. The times of dates and the collation of titles are the
-- browser's: parameters.
use github_idea_os_app.Base.{
  ℕ, ◌+◌, Ordering, compare, String, ◌≡◌, refl, inl, inr, true, false, not, ◌&&◌, Option, List, [],
  ◌∷◌, arith, if◌then◌else◌, Bool-cases, ◌==◌, string_eq, nat_eq, option_eq, get_or, is_truthy, All,
  Perm, ◌≤◌, ◌≢◌, map_option, All-imp, none, some,
}
use github_idea_os_app.Base.Int.{ℤ, pos, negsuc, compare_ℤ}
use github_idea_os_app.Base.Sort.{in_order, sort, IsSorted, IsOrder, sort-perm, sort-IsSorted}
use github_idea_os_app.Types.Issue.{
  Issue, IssuePriority, IssuePriority-discrete, urgent, high, medium, low, no_priority, priority_eq,
}
use github_idea_os_app.ViewStore.{SortField, SortDirection, asc, desc}
use github_idea_os_app.ViewStore.Config.{priority_order}
use mathlib.Core.List.{reverse}

-- The index of a priority in `PRIORITY_ORDER`, 99 for one that is not there.
abbrev priority_rank : IssuePriority → List IssuePriority → ℕ → ℕ
priority_rank p [] n = 99
priority_rank p (q ∷ qs) n = if q == p then n else priority_rank p qs (n + 1)

-- The order of dates, where none comes last; the empty text is falsy too.
abbrev pub compare_due : (String → ℤ) → Option String → Option String → Ordering
compare_due time a b =
    if not (is_truthy a) && not (is_truthy b)
    then Ordering.eq
    else if not (is_truthy a)
    then Ordering.gt
    else if not (is_truthy b)
    then Ordering.lt
    else compare_ℤ (time (get_or a "")) (time (get_or b ""))

-- The comparator, `locale_compare` standing for `localeCompare` and `time` for
-- `(s) => new Date(s).getTime()`.
abbrev pub compare_issues :
    (String → ℤ) → (String → String → Ordering) → SortField → Issue → Issue → Ordering
compare_issues time locale_compare SortField.priority a b =
    compare (priority_rank a.priority priority_order 0) (priority_rank b.priority priority_order 0)
compare_issues time locale_compare SortField.due_date a b = compare_due time a.due_date b.due_date
compare_issues time locale_compare SortField.created_at a b =
    compare_ℤ (time a.created_at) (time b.created_at)
compare_issues time locale_compare SortField.title a b = locale_compare a.title b.title
compare_issues time locale_compare SortField.position a b = compare_ℤ a.position b.position

unfoldable pub sort_issues :
    (String → ℤ)
    → (String → String → Ordering)
    → List Issue
    → SortField
    → SortDirection
    → List Issue
sort_issues time locale_compare issues field asc =
    sort (compare_issues time locale_compare field) issues
sort_issues time locale_compare issues field desc =
    reverse (sort (compare_issues time locale_compare field) issues)

total_ℤ : (a b : ℤ) → in_order compare_ℤ a b ≡ false → in_order compare_ℤ b a ≡ true
total_ℤ (pos a) (pos b) h = ground arith
total_ℤ (pos a) (negsuc b) h = refl
total_ℤ (negsuc a) (pos b) h = cc
total_ℤ (negsuc a) (negsuc b) h = ground arith

trans_ℤ :
    (a b c : ℤ)
    → in_order compare_ℤ a b ≡ true
    → in_order compare_ℤ b c ≡ true
    → in_order compare_ℤ a c ≡ true
trans_ℤ (pos a) (pos b) (pos c) h k = ground arith
trans_ℤ (pos a) (pos b) (negsuc c) h k = cc
trans_ℤ (pos a) (negsuc b) c h k = cc
trans_ℤ (negsuc a) (pos b) (pos c) h k = refl
trans_ℤ (negsuc a) (pos b) (negsuc c) h k = cc
trans_ℤ (negsuc a) (negsuc b) (pos c) h k = refl
trans_ℤ (negsuc a) (negsuc b) (negsuc c) h k = ground arith

-- The integer is at most the other one.
pub AtMost : ℤ → ℤ → Type 0
AtMost (pos a) (pos b) = a ≤ b
AtMost (pos a) (negsuc b) = ⊥
AtMost (negsuc a) (pos b) = Unit
AtMost (negsuc a) (negsuc b) = b ≤ a

at_most : (a b : ℤ) → in_order compare_ℤ a b ≡ true → AtMost a b
unfolding AtMost
at_most (pos a) (pos b) h = ground arith
at_most (pos a) (negsuc b) h = cc
at_most (negsuc a) (pos b) h = tt
at_most (negsuc a) (negsuc b) h = ground arith

-- 0 for the most urgent priority.
pub urgency : IssuePriority → ℕ
urgency urgent = 0
urgency high = 1
urgency medium = 2
urgency low = 3
urgency no_priority = 4

rank_urgency : (p : IssuePriority) → priority_rank p priority_order 0 ≡ urgency p
unfolding urgency IssuePriority-discrete
rank_urgency urgent = refl
rank_urgency high = refl
rank_urgency medium = refl
rank_urgency low = refl
rank_urgency no_priority = refl

in_order_at_most : (a b : ℕ) → in_order compare a b ≡ true → a ≤ b
in_order_at_most a b h = ground arith

not_later : (o : Ordering) → elim o [ Ordering.gt ↦ false | _ ↦ true ] ≡ true → o ≢ Ordering.gt
not_later Ordering.lt h = λ e. cc
not_later Ordering.eq h = λ e. cc
not_later Ordering.gt h = cc

-- A time that is given and one that may be missing.
pub DueBefore : Option ℤ → Option ℤ → Type 0
DueBefore (some a) (some b) = AtMost a b
DueBefore (some a) none = Unit
DueBefore none (some b) = ⊥
DueBefore none none = Unit

module _ (time : String → ℤ) (locale_compare : String → String → Ordering) where
  due_total :
      (a b : Option String)
      → in_order (compare_due time) a b ≡ false
      → in_order (compare_due time) b a ≡ true
  due_total a b h = ground (arith, total_ℤ (time (get_or a "")) (time (get_or b "")))

  due_trans :
      (a b c : Option String)
      → in_order (compare_due time) a b ≡ true
      → in_order (compare_due time) b c ≡ true
      → in_order (compare_due time) a c ≡ true
  due_trans a b c h k =
      ground (arith, trans_ℤ (time (get_or a "")) (time (get_or b "")) (time (get_or c "")))

  -- The comparator of every field is an order if the collation is one.
  compare_issues-IsOrder :
      (field : SortField)
      → IsOrder locale_compare
      → IsOrder (compare_issues time locale_compare field)
  compare_issues-IsOrder SortField.position o = record {
    total = λ a b. total_ℤ a.position b.position;
    trans = λ a b c. trans_ℤ a.position b.position c.position;
  }
  compare_issues-IsOrder SortField.priority o = record {
    total = λ a b h. ground arith;
    trans = λ a b c h k. ground arith;
  }
  compare_issues-IsOrder SortField.due_date o = record {
    total = λ a b. due_total a.due_date b.due_date;
    trans = λ a b c. due_trans a.due_date b.due_date c.due_date;
  }
  compare_issues-IsOrder SortField.created_at o = record {
    total = λ a b. total_ℤ (time a.created_at) (time b.created_at);
    trans = λ a b c. trans_ℤ (time a.created_at) (time b.created_at) (time c.created_at);
  }
  compare_issues-IsOrder SortField.title o = record {
    total = λ a b. o.total a.title b.title;
    trans = λ a b c. o.trans a.title b.title c.title;
  }

  abbrev time_of : Option String → Option ℤ
  time_of d = if is_truthy d then map_option time d else none

  due_before :
      (a b : Option String)
      → in_order (compare_due time) a b ≡ true
      → DueBefore (time_of a) (time_of b)
  unfolding DueBefore
  due_before none none h = tt
  due_before none (some b) h = elim (Bool-cases (is_truthy (some b))) [
    | inl e ↦ cc
    | inr e ↦ rw e tt
  ]
  due_before (some a) none h = elim (Bool-cases (is_truthy (some a))) [
    | inl e ↦ rw e tt
    | inr e ↦ rw e tt
  ]
  due_before (some a) (some b) h = elim (Bool-cases (is_truthy (some a))) [
    | inl e ↦ elim (Bool-cases (is_truthy (some b))) [
      | inl f ↦ rw (e, f) (at_most (time a) (time b) (ground arith))
      | inr f ↦ rw (e, f) tt
    ]
    | inr e ↦ elim (Bool-cases (is_truthy (some b))) [ inl f ↦ cc | inr f ↦ rw (e, f) tt ]
  ]

  -- The time that an issue is due at; the empty text is no date.
  pub due_time : Issue → Option ℤ
  due_time i = time_of i.due_date

  -- An issue may stand before another one in ascending order: the more urgent one, the one that is due
  -- or made earlier, the one whose title the collation does not put later, or the one with the smaller
  -- position; without a due date it may stand only before those without.
  pub MayPrecede : SortField → Issue → Issue → Type 0
  MayPrecede SortField.priority a b = urgency a.priority ≤ urgency b.priority
  MayPrecede SortField.due_date a b = DueBefore (due_time a) (due_time b)
  MayPrecede SortField.created_at a b = AtMost (time a.created_at) (time b.created_at)
  MayPrecede SortField.title a b = locale_compare a.title b.title ≢ Ordering.gt
  MayPrecede SortField.position a b = AtMost a.position b.position

  may_precede :
      (field : SortField) (a b : Issue)
      → in_order (compare_issues time locale_compare field) a b ≡ true
      → MayPrecede field a b
  unfolding MayPrecede due_time
  may_precede SortField.priority a b h =
      rw⁻¹ (rank_urgency a.priority) (rw⁻¹ (rank_urgency b.priority) (in_order_at_most _ _ h))
  may_precede SortField.due_date a b h = due_before a.due_date b.due_date h
  may_precede SortField.created_at a b h = at_most (time a.created_at) (time b.created_at) h
  may_precede SortField.title a b h = not_later (locale_compare a.title b.title) h
  may_precede SortField.position a b h = at_most a.position b.position h

  -- Every issue may stand before every later one.
  pub AreOrdered : SortField → List Issue → Type 0
  AreOrdered field [] = Unit
  AreOrdered field (i ∷ is) = All (MayPrecede field i) is × AreOrdered field is

  ordered_of_sorted :
      (field : SortField) (is : List Issue)
      → IsSorted (compare_issues time locale_compare field) is
      → AreOrdered field is
  unfolding AreOrdered
  ordered_of_sorted field [] h = tt
  ordered_of_sorted field (i ∷ is) (h, s) = (
    All-imp (λ j. in_order (compare_issues time locale_compare field) i j ≡ true)
        (MayPrecede field i) (may_precede field i) is h,
    ordered_of_sorted field is s,
  )

  -- Sorting in ascending order, by every field, rearranges the issues so that each may stand before
  -- every later one, provided that the collation of titles is a total order: by priority the more
  -- urgent ones come first, by due date those that are due earlier and last those without a date, by
  -- creation the older ones, and by position those with smaller positions.
  pub sort_issues-AreOrdered :
      (issues : List Issue) (field : SortField)
      → IsOrder locale_compare
      → Perm (sort_issues time locale_compare issues field asc) issues
        × AreOrdered field (sort_issues time locale_compare issues field asc)
  unfolding sort_issues
  sort_issues-AreOrdered issues field o = (
    sort-perm _ issues,
    ordered_of_sorted field _ (sort-IsSorted _ (compare_issues-IsOrder field o) issues),
  )
