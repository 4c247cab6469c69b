-- ===== src/Board.antt =====
-- apps/web/features/issues/components/board-view.tsx: where a dragged card goes. Positions are doubles
-- in units of 2^-1074, as in Types/Issue. The rounding of JavaScript is a parameter: `round_half n` is
-- the double nearest to n / 2 units, as long as nothing overflows.
pub mod Place
mod Tests
use github_idea_os_app.Base.{
  ℕ, zero, suc, ◌+◌, ◌-◌, ◌*◌, ◌/◌, ◌%◌, ◌≤◌, ◌<◌, Ordering, compare, String, ◌≡◌, refl, sym, ap,
  subst, ◌∙◌, ◌≢◌, ◌↔◌, ◌⊎◌, inl, inr, Bool, true, false, not, ◌&&◌, ◌||◌, Option, none, some, List,
  [], ◌∷◌, ◌++◌, map, arith, if◌then◌else◌, Bool-cases, if_lem, Option-cases, Eq, ◌==◌, string_eq,
  string_discrete, nat_eq, option_eq, ltb, leb, get_or, or_else, is_some, is_nonempty, is_truthy,
  length, any, filter, find, head?, is_empty, All, length-append, length-filter-le, any-append,
  any-filter, filter-append, includes, has, IsUnique, IsUnique-concat, IsUnique-filter, has-map,
  IsUnique-map, map_option, find_key, remove_key, map_key, add_new, has-find_key, find_key-append,
  find_key-remove_key, any-eq_true, All-append, All-filter, All-of_forall, All-imp, All-filter-map,
  eq_nil_of_All, map-congr, map-map, All-zip, All-of_none, All-filter_self, any_of_All, All-mem,
  Mem, Perm, find_key-map_key, find_key-add_new, IsUnique-add_new, IsUnique-map_key,
}
use Prim.Native.Nat.{◌^◌}
use github_idea_os_app.Base.Int.{ℤ, pos, negsuc, compare_ℤ}
use github_idea_os_app.Base.Sort.{sort}
use github_idea_os_app.Types.Issue.{Issue, IssueStatus, status_eq}

unfoldable pub add_ℤ : ℤ → ℤ → ℤ
add_ℤ (pos a) (pos b) = pos (a + b)
add_ℤ (pos a) (negsuc b) = if ltb b a then pos (a - suc b) else negsuc (b - a)
add_ℤ (negsuc a) (pos b) = if ltb a b then pos (b - suc a) else negsuc (a - b)
add_ℤ (negsuc a) (negsuc b) = negsuc (suc (a + b))

abbrev pub double : ℤ → ℤ
double (pos n) = pos (n + n)
double (negsuc n) = negsuc (suc (n + n))

-- 1 in units of 2^-1074.
unfoldable pub one : ℕ
one = 2 ^ 1074

-- `siblings[i]!.position`; the index is always in range.
unfoldable pub position_at : ℕ → List Issue → ℤ
position_at i [] = pos 0
position_at zero (x ∷ xs) = x.position
position_at (suc i) (x ∷ xs) = position_at i xs

abbrev pub compare_position : Issue → Issue → Ordering
compare_position a b = compare_ℤ a.position b.position

-- `issuesByStatus[status]`: missing for a status that is not visible.
unfoldable pub column : List Issue → List IssueStatus → IssueStatus → List Issue
column issues visible status =
    if includes visible status
    then sort compare_position (filter (λ (i : Issue). i.status == status) issues)
    else []

-- What the card is dropped on: a column, or a card.
pub data Over : Type 0 where
  over_column : IssueStatus → Over
  over_card : String → Over

-- `siblings.findIndex((i) => i.id === id)`
unfoldable pub find_index : String → List Issue → Option ℕ
find_index id [] = none
find_index id (x ∷ xs) =
    let rest = map_option suc (find_index id xs) in if x.id == id then some 0 else rest

-- The status that the card gets, or none when it is dropped on nothing that is there.
unfoldable pub target_status : List Issue → Over → Option IssueStatus
target_status issues (over_column status) = some status
target_status issues (over_card id) =
    map_option (λ (i : Issue). i.status) (find_key (λ (i : Issue). i.id) id issues)

pub record Move : Type 0 where
  pub issue_id : String
  pub status : IssueStatus
  pub position : ℤ

abbrev is_same : ℤ → ℤ → Bool
is_same a b = elim (compare_ℤ a b) [
  | Ordering.lt ↦ false
  | Ordering.eq ↦ true
  | Ordering.gt ↦ false
]

module _ (round_half : ℤ → ℤ) where
  -- `computePosition`: each operation rounds its exact result.
  unfoldable pub compute_position : List Issue → ℕ → ℤ
  compute_position siblings target_index =
      if is_empty siblings
      then pos 0
      else if target_index == 0
      then round_half (double (add_ℤ (position_at 0 siblings) (negsuc (one - 1))))
      else if leb (length siblings) target_index
      then round_half (double (add_ℤ (position_at (length siblings - 1) siblings) (pos one)))
      else round_half (
          round_half (
            double (
              add_ℤ (position_at (target_index - 1) siblings) (position_at target_index siblings))))

  unfoldable pub drop_position : Issue → IssueStatus → Over → List Issue → ℤ
  drop_position current target (over_column _) siblings =
      compute_position siblings (length siblings)
  drop_position current target (over_card id) siblings = elim (find_index id siblings) [
    | none ↦ compute_position siblings (length siblings)
    | some over_index ↦
        if current.status == target
          && elim (compare_ℤ current.position (position_at over_index siblings)) [
            | Ordering.lt ↦ true
            | _ ↦ false
          ]
        then compute_position siblings (suc over_index)
        else compute_position siblings over_index
  ]

  -- The call of `onMoveIssue` when a card is moved to a status, if there is one.
  abbrev pub move_to : List Issue → List IssueStatus → Issue → Over → IssueStatus → Option Move
  move_to issues visible current over target =
      let siblings = remove_key (λ (i : Issue). i.id) current.id (column issues visible target) in
      let new_position = drop_position current target over siblings in
      if current.status == target && is_same (current.position) new_position
      then none
      else some (record { issue_id = current.id; status = target; position = new_position })

  -- `handleDragEnd`, for what the card is dropped on, if anything.
  unfoldable pub handle_drag_end :
      List Issue → List IssueStatus → String → Option Over → Option Move
  handle_drag_end issues visible active none = none
  handle_drag_end issues visible active (some over) =
      if is_itself over then none else elim (find_key (λ (i : Issue). i.id) active issues) [
        | none ↦ none
        | some current ↦ elim (target_status issues over) [
          | none ↦ none
          | some target ↦ move_to issues visible current over target
        ]
      ]
    where
      is_itself : Over → Bool
      is_itself (over_column _) = false
      is_itself (over_card id) = active == id
