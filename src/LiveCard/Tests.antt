-- ===== src/LiveCard/Tests.antt =====
-- Two messages of an issue, the second one first.
use github_idea_os_app.Base.{
  ℕ, ◌≡◌, refl, true, none, some, List, [], ◌∷◌, ◌++◌, Bool-cases, ◌==◌, string_eq, string_discrete,
  nat_eq, option_eq, Perm,
}
use github_idea_os_app.Base.Sort.{IsSorted}
use github_idea_os_app.LiveCard.{
  TaskMessagePayload, text_message, mounted, compare_seq, live_item, on_message,
}
use github_idea_os_app.LiveCard.Feed.{message, finished, run, Step, run-IsSorted, on_message_lem}

abbrev a_message : ℕ → TaskMessagePayload
a_message n = record {
  task_id = "t1";
  issue_id = "i1";
  seq = n;
  type = text_message;
  tool = none;
  content = some "hello";
  input = none;
  output = none;
}

abbrev steps : List Step
steps = message (a_message 2) ∷ message (a_message 1) ∷ finished "i2" ∷ []

run-IsSorted_example : IsSorted compare_seq (run (λ n. "n") (λ s. s) "i1" steps mounted).items
run-IsSorted_example = run-IsSorted (λ n. "n") (λ s. s) "i1" steps

same_issue : ((a_message 1).issue_id == "i1") ≡ true
unfolding string_discrete Bool-cases
same_issue = refl

on_message_lem_example :
    Perm
      (on_message (λ n. "n") "i1" (a_message 1) mounted).items
      (mounted.items ++ live_item (a_message 1) ∷ [])
    × (on_message (λ n. "n") "i1" (a_message 1) (on_message (λ n. "n") "i1" (a_message 1) mounted)
        ≡ on_message (λ n. "n") "i1" (a_message 1) mounted)
on_message_lem_example = on_message_lem (λ n. "n") "i1" (a_message 1) mounted same_issue refl
