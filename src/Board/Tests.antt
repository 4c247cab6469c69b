-- ===== src/Board/Tests.antt =====
-- A card of another column is dropped between two cards.
use github_idea_os_app.Base.{
  ℕ, String, ◌≡◌, refl, ◌/◌, arith, ap, none, some, List, [], ◌∷◌, ◌++◌, Bool-cases, string_eq,
  string_discrete, nat_eq, option_eq, length,
}
use github_idea_os_app.Base.Int.{ℤ, pos, negsuc}
use github_idea_os_app.Base.Sort.{sort, insert}
use github_idea_os_app.Types.Issue.{Issue, IssueStatus, todo, done, status_eq, IssueStatus-discrete}
use github_idea_os_app.Samples.{an_issue}
use github_idea_os_app.Board.{
  add_ℤ, double, position_at, compute_position, handle_drag_end, over_card, column, find_index,
  drop_position, target_status,
}
use github_idea_os_app.Board.Place.{IsAtMost, Rounds, compute_position_lem}
use native.Mathlib.Decide.{ℕ_discrete}

abbrev card : String → IssueStatus → ℕ → Issue
card id status n = record (an_issue id status none) { position = pos n }

abbrev cards : List Issue
cards = card "a" todo 1 ∷ card "b" todo 2 ∷ card "c" done 9 ∷ []

-- A rounding that only knows whole numbers of units.
abbrev floor_half : ℤ → ℤ
floor_half (pos n) = pos (n / 2)
floor_half (negsuc n) = negsuc (n / 2)

floor_half-monotone : (m n : ℤ) → IsAtMost m n → IsAtMost (floor_half m) (floor_half n)
floor_half-monotone (pos m) (pos n) h = ground arith
floor_half-monotone (pos m) (negsuc n) h = cc
floor_half-monotone (negsuc m) (pos n) h = refl
floor_half-monotone (negsuc m) (negsuc n) h = ground arith

floor_half-exact : (a : ℤ) → Unit {0} → floor_half (double a) ≡ a
floor_half-exact (pos n) d = ap pos (omega arith)
floor_half-exact (negsuc n) d = ap negsuc (omega arith)

floor_half-Rounds : Rounds (λ a. Unit {0}) floor_half
floor_half-Rounds = record { monotone = floor_half-monotone; exact = floor_half-exact }

-- Between two positions next to each other there is no third one.
moved_between :
    handle_drag_end floor_half cards (todo ∷ done ∷ []) "c" (some (over_card "b"))
    ≡ some (record { issue_id = "c"; status = todo; position = pos 1 })
unfolding handle_drag_end column find_index drop_position target_status compute_position position_at
    add_ℤ sort insert string_discrete Bool-cases ℕ_discrete IssueStatus-discrete
moved_between = refl

compute_position_lem_example :
    IsAtMost (compute_position floor_half (card "b" todo 2 ∷ []) 0) (card "b" todo 2).position
    × IsAtMost (card "a" todo 1).position (
        compute_position floor_half
          ([] ++ card "a" todo 1 ∷ [])
          (length ([] ++ card "a" todo 1 ∷ [])))
    × IsAtMost
        (card "a" todo 1).position
        (compute_position floor_half ([] ++ card "a" todo 1 ∷ card "b" todo 2 ∷ []) 1)
    × IsAtMost
        (compute_position floor_half ([] ++ card "a" todo 1 ∷ card "b" todo 2 ∷ []) 1)
        (card "b" todo 2).position
compute_position_lem_example =
    compute_position_lem (λ a. Unit {0}) floor_half floor_half-Rounds [] [] (card "a" todo 1)
      (card "b" todo 2) tt tt tt tt refl
