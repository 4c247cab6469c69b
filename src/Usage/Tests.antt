-- ===== src/Usage/Tests.antt =====
-- Two usages of one day and a model that the table has no exact entry for.
use github_idea_os_app.Base.{
  ℕ, ◌+◌, ◌*◌, ◌/◌, ◌≡◌, refl, none, some, List, [], ◌∷◌, if◌then◌else◌, Bool-cases, ◌==◌,
  string_eq, string_discrete, nat_eq, option_eq, any, find_key,
}
use github_idea_os_app.Base.Dict.{get}
use github_idea_os_app.Base.Text.{starts_with}
use github_idea_os_app.Usage.{
  RuntimeUsage, Doubles, estimate_cost, find_prefix, DailyTokenData, DailyCostData,
  ModelDistribution, aggregate_by_date,
}
use github_idea_os_app.Usage.Totals.{usage_date, usages_of, token_sums, sum_of, cost_sum}
use github_idea_os_app.Usage.Laws.{named, all_tokens, aggregate_by_date_lem}
use native.Mathlib.Decide.{ℕ_discrete}
use Prim.Native.String.{compare as compare_texts}

abbrev usage : ℕ → RuntimeUsage
usage n = record {
  date = "2026-01-02";
  provider = "claude";
  model = "claude-opus-4-6-20260101";
  input_tokens = n;
  output_tokens = 1;
  cache_read_tokens = 0;
  cache_write_tokens = 0;
}

abbrev usages : List RuntimeUsage
usages = usage 1_000_000 ∷ usage 7 ∷ []

-- Whole dollars, rounded down.
abbrev dollars : Doubles ℕ
dollars = record {
  whole = λ n. n;
  hundredths = λ n. n / 100;
  plus = λ a b. a + b;
  times = λ a b. a * b;
  over = λ a b. a / b;
  round = λ a. a;
}

cost_by_prefix : estimate_cost dollars (usage 1_000_000) ≡ 5
unfolding estimate_cost find_prefix get starts_with string_discrete Bool-cases ℕ_discrete
cost_by_prefix = refl

aggregate_by_date_lem_example :
    (find_key
        (λ (e : DailyTokenData). e.date)
        "2026-01-02"
        (aggregate_by_date dollars compare_texts (λ d. d) usages).daily_tokens
      ≡ (if any (λ u. u.date == "2026-01-02") usages
          then some (record {
            date = "2026-01-02";
            label = "2026-01-02";
            tokens = token_sums (usages_of usage_date "2026-01-02" usages);
          })
          else none))
    × (find_key
          (λ (e : DailyCostData ℕ). e.date)
          "2026-01-02"
          (aggregate_by_date dollars compare_texts (λ d. d) usages).daily_cost
        ≡ (if any (λ u. u.date == "2026-01-02") usages
            then some (record {
              date = "2026-01-02";
              label = "2026-01-02";
              cost = cost_sum dollars (usages_of usage_date "2026-01-02" usages) 0 * 100 / 100;
            })
            else none))
    × (find_key
          (λ (e : ModelDistribution ℕ). e.model)
          "2026-01-02"
          (aggregate_by_date dollars compare_texts (λ d. d) usages).model_dist
        ≡ (if any (λ u. named u == "2026-01-02") usages
            then some (record {
              model = "2026-01-02";
              tokens = sum_of all_tokens (usages_of named "2026-01-02" usages);
              cost = cost_sum dollars (usages_of named "2026-01-02" usages) 0;
            })
            else none))
aggregate_by_date_lem_example =
    aggregate_by_date_lem dollars compare_texts (λ d. d) "2026-01-02" usages
