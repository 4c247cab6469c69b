-- ===== src/ViewStore/Config.antt =====
-- apps/web/features/issues/config: the orders of statuses and priorities. Labels and colours are
-- left out.
use github_idea_os_app.Base.{List, [], ◌∷◌}
use github_idea_os_app.Types.Issue.{
  IssueStatus, backlog, todo, in_progress, in_review, done, blocked, cancelled, IssuePriority,
  urgent, high, medium, low, no_priority,
}

abbrev pub all_statuses : List IssueStatus
all_statuses = backlog ∷ todo ∷ in_progress ∷ in_review ∷ done ∷ blocked ∷ cancelled ∷ []

-- The columns of the board.
abbrev pub board_statuses : List IssueStatus
board_statuses = backlog ∷ todo ∷ in_progress ∷ in_review ∷ done ∷ blocked ∷ []

abbrev pub priority_order : List IssuePriority
priority_order = urgent ∷ high ∷ medium ∷ low ∷ no_priority ∷ []
