-- ===== src/Usage/Laws.antt =====
-- The entries of `aggregateByDate`.
use github_idea_os_app.Base.{
  ℕ, ◌+◌, Ordering, String, ◌≡◌, refl, ap, ◌∙◌, Bool, true, false, none, some, List, [], map,
  if◌then◌else◌, ◌==◌, string_eq, nat_eq, option_eq, any, map_option, find_key, is_nonempty,
}
use github_idea_os_app.Base.Dict.{Dict, HasUniqueKeys}
use github_idea_os_app.Base.Sort.{sort}
use github_idea_os_app.Usage.{
  RuntimeUsage, Doubles, no_tokens, add_tokens, no_data, add_data, model_name, no_maps,
  DailyTokenData, DailyCostData, ModelDistribution, compare_dist, to_dist, by_date, to_daily_tokens,
  to_daily_cost, aggregate_by_date,
}
use github_idea_os_app.Usage.Sums.{
  group, total, get-group, group-HasUniqueKeys, find_key-sort, find_key-get, find_key-map,
  map-IsUnique,
}
use github_idea_os_app.Usage.Totals.{
  usage_date, usages_of, token_sums, sum_of, add_cost, cost_sum, dates-group, costs-group,
  models-group, total_tokens, total_costs, total_data,
}

pair_if :
    {V C : Type 0} (f : String × V → C) (k : String) (b : Bool) (v : V)
    → map_option f (map_option (λ w. (k, w)) (if b then some v else none))
      ≡ (if b then some (f (k, v)) else none)
pair_if f k true v = refl
pair_if f k false v = refl

module _ {V C : Type 0} (key : RuntimeUsage → String) (add : RuntimeUsage → V → V) (zero_v : V)
    (f : String × V → C) (key_c : C → String) (h : (e : String × V) → key_c (f e) ≡ e.0) where
  entries : List RuntimeUsage → Dict String V
  entries us = group key add zero_v us []

  entries-IsUnique : (us : List RuntimeUsage) → HasUniqueKeys (entries us)
  unfolding entries
  entries-IsUnique us = group-HasUniqueKeys key add zero_v us [] tt

  find_entry :
      (k : String) (us : List RuntimeUsage)
      → map_option f (find_key (λ e. e.0) k (entries us)) ≡ (
          if any (λ u. key u == k) us then some (f (k, total key add zero_v k us zero_v)) else none)
  unfolding entries
  find_entry k us =
      ap (map_option f) (
        find_key-get k (entries us) ∙ ap (map_option (λ v. (k, v))) (get-group key add zero_v k us))
      ∙ pair_if f k (any (λ u. key u == k) us) (total key add zero_v k us zero_v)

  -- What is found by a key after the map has been sorted and its entries rewritten.
  find-map-sort :
      (cmp : String × V → String × V → Ordering) (k : String) (us : List RuntimeUsage)
      → find_key key_c k (map f (sort cmp (group key add zero_v us []))) ≡ (
          if any (λ u. key u == k) us then some (f (k, total key add zero_v k us zero_v)) else none)
  unfolding entries
  find-map-sort cmp k us =
      find_key-map f (λ e. e.0) key_c h k (sort cmp (entries us))
      ∙ ap (map_option f) (find_key-sort (λ e. e.0) cmp k (entries us) (entries-IsUnique us))
      ∙ find_entry k us

  -- The same when the entries are rewritten first.
  find-sort-map :
      (cmp : C → C → Ordering) (k : String) (us : List RuntimeUsage)
      → find_key key_c k (sort cmp (map f (group key add zero_v us []))) ≡ (
          if any (λ u. key u == k) us then some (f (k, total key add zero_v k us zero_v)) else none)
  unfolding entries
  find-sort-map cmp k us =
      find_key-sort key_c cmp k (map f (entries us))
        (map-IsUnique f (λ e. e.0) key_c h (entries us) (entries-IsUnique us))
      ∙ find_key-map f (λ e. e.0) key_c h k (entries us)
      ∙ find_entry k us

-- The name of the model, or of the provider when it is empty.
abbrev pub named : RuntimeUsage → String
named u = if is_nonempty u.model then u.model else u.provider

-- All four kinds of tokens of a usage.
abbrev pub all_tokens : RuntimeUsage → ℕ
all_tokens u = u.input_tokens + u.output_tokens + u.cache_read_tokens + u.cache_write_tokens

module _ {D : Type 0} (d : Doubles D) (compare_texts : String → String → Ordering)
    (label : String → String) where
  -- For each date the aggregate has an entry of tokens and one of costs exactly when some usage has
  -- that date, and for each name of a model an entry exactly when some usage has that name, its
  -- provider standing for a name that is empty. The numbers of tokens are the sums over those usages;
  -- the costs are the prices of those usages, by the entry of the table with the name of the model or
  -- else the first with a prefix of it, added one after the other, and for a date rounded to
  -- hundredths of a dollar.
  pub aggregate_by_date_lem :
      (k : String) (us : List RuntimeUsage)
      → (find_key
            (λ (e : DailyTokenData). e.date)
            k
            (aggregate_by_date d compare_texts label us).daily_tokens
          ≡ (if any (λ u. u.date == k) us
              then some (record {
                date = k;
                label = label k;
                tokens = token_sums (usages_of usage_date k us);
              })
              else none))
        × (find_key
              (λ (e : DailyCostData D). e.date)
              k
              (aggregate_by_date d compare_texts label us).daily_cost
            ≡ (if any (λ u. u.date == k) us
                then some (record {
                  date = k;
                  label = label k;
                  cost =
                      d.over
                        (d.round (
                          d.times
                            (cost_sum d (usages_of usage_date k us) (d.whole 0))
                            (d.whole 100)))
                        (d.whole 100);
                })
                else none))
        × (find_key
              (λ (e : ModelDistribution D). e.model)
              k
              (aggregate_by_date d compare_texts label us).model_dist
            ≡ (if any (λ u. named u == k) us
                then some (record {
                  model = k;
                  tokens = sum_of all_tokens (usages_of named k us);
                  cost = cost_sum d (usages_of named k us) (d.whole 0);
                })
                else none))
  unfolding aggregate_by_date
  aggregate_by_date_lem k us = (
    rw (dates-group d us no_maps) (
          find-map-sort usage_date add_tokens no_tokens (to_daily_tokens d compare_texts label)
            (λ e. e.date) (λ e. refl) (by_date d compare_texts label) k us)
        ∙ ap
            (λ t.
              if any (λ u. u.date == k) us
              then some (to_daily_tokens d compare_texts label (k, t))
              else none)
            (total_tokens k us),
    rw (costs-group d us no_maps) (
          find-map-sort usage_date (add_cost d) (d.whole 0) (to_daily_cost d compare_texts label)
            (λ e. e.date) (λ e. refl) (by_date d compare_texts label) k us)
        ∙ ap
            (λ c.
              if any (λ u. u.date == k) us
              then some (to_daily_cost d compare_texts label (k, c))
              else none)
            (total_costs d k us),
    rw (models-group d us no_maps) (
          find-sort-map model_name (add_data d) (no_data d) to_dist (λ e. e.model) (λ e. refl)
            compare_dist k us)
        ∙ ap (λ m. if any (λ u. model_name u == k) us then some (to_dist (k, m)) else none)
            (total_data d k us),
  )
