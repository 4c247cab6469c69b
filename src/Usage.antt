-- ===== src/Usage.antt =====
-- apps/web/features/runtimes/utils.ts. Costs are doubles, whose operations are a parameter, `Doubles`; a
-- price is a literal, given in hundredths of a dollar. Numbers of tokens are whole, and their sums are
-- taken to stay exact. `compare_texts` stands for `localeCompare`, `to_text` for the text of a number in
-- a template, `label` for `formatLabel` and `locale_text` for `toLocaleString`.
pub mod Sums
mod Totals
mod Laws
mod Format
mod Tests
use github_idea_os_app.Base.{
  ℕ, zero, suc, ◌+◌, ◌-◌, ◌*◌, ◌/◌, ◌%◌, ◌≤◌, ◌<◌, Ordering, compare, String, ◌≡◌, refl, sym, ap,
  subst, ◌∙◌, ◌≢◌, ◌↔◌, ◌⊎◌, inl, inr, Bool, true, false, not, ◌&&◌, ◌||◌, Option, none, some, List,
  [], ◌∷◌, ◌++◌, map, arith, if◌then◌else◌, Bool-cases, Option-cases, Eq, ◌==◌, string_eq,
  string_discrete, nat_eq, option_eq, ltb, leb, get_or, or_else, is_some, is_nonempty, is_truthy,
  length, any, filter, find, head?, is_empty, All, length-append, length-filter-le, any-append,
  any-filter, filter-append, includes, has, IsUnique, IsUnique-concat, IsUnique-filter, has-map,
  IsUnique-map, map_option, find_key, remove_key, map_key, add_new, has-find_key, find_key-append,
  find_key-remove_key, any-eq_true, All-append, All-filter, All-of_forall, All-imp, All-filter-map,
  eq_nil_of_All, map-congr, map-map, All-zip, All-of_none, All-filter_self, any_of_All, All-mem,
  Mem, Perm, find_key-map_key, find_key-add_new, IsUnique-add_new, IsUnique-map_key,
}
use github_idea_os_app.Base.Dict.{Dict, get, set}
use github_idea_os_app.Base.Sort.{sort}
use github_idea_os_app.Base.Text.{starts_with}
use Prim.Native.String.{◌++◌ as text_append}

-- The fields of `RuntimeUsage` that are used.
pub record RuntimeUsage : Type 0 where
  pub date : String
  pub provider : String
  pub model : String
  pub input_tokens : ℕ
  pub output_tokens : ℕ
  pub cache_read_tokens : ℕ
  pub cache_write_tokens : ℕ

pub record Pricing : Type 0 where
  pub input : ℕ
  pub output : ℕ
  pub cache_read : ℕ
  pub cache_write : ℕ

abbrev price : ℕ → ℕ → ℕ → ℕ → Pricing
price i o r w = record { input = i; output = o; cache_read = r; cache_write = w }

abbrev pub model_pricing : Dict String Pricing
model_pricing =
    ("claude-haiku-4-5", price 100 500 10 125)
    ∷ ("claude-sonnet-4-5", price 300 1500 30 375)
    ∷ ("claude-sonnet-4-6", price 300 1500 30 375)
    ∷ ("claude-opus-4-5", price 500 2500 50 625)
    ∷ ("claude-opus-4-6", price 500 2500 50 625)
    ∷ []

-- The loop over the entries: the first key that the model starts with.
unfoldable pub find_prefix : String → Dict String Pricing → Option Pricing
find_prefix model [] = none
find_prefix model ((key, p) ∷ entries) =
    if starts_with model key then some p else find_prefix model entries

-- The operations of JavaScript on doubles: a whole number, a literal of so many hundredths, `+`, `*`,
-- `/` and `Math.round`.
pub record Doubles (D : Type 0) : Type 0 where
  pub whole : ℕ → D
  pub hundredths : ℕ → D
  pub plus : D → D → D
  pub times : D → D → D
  pub over : D → D → D
  pub round : D → D

module _ {D : Type 0} (d : Doubles D) where
  abbrev pub part_cost : ℕ → ℕ → D
  part_cost tokens price_of = d.times (d.whole tokens) (d.hundredths price_of)

  abbrev pub cost_at : Pricing → RuntimeUsage → D
  cost_at p u =
      d.over
        (d.plus
          (d.plus (d.plus (part_cost u.input_tokens p.input) (part_cost u.output_tokens p.output))
            (part_cost u.cache_read_tokens p.cache_read))
          (part_cost u.cache_write_tokens p.cache_write))
        (d.whole 1_000_000)

  unfoldable pub estimate_cost : RuntimeUsage → D
  estimate_cost u = elim (or_else (get u.model model_pricing) (find_prefix u.model model_pricing)) [
    | none ↦ d.whole 0
    | some pricing ↦ cost_at pricing u
  ]

pub record Tokens : Type 0 where
  pub input : ℕ
  pub output : ℕ
  pub cache_read : ℕ
  pub cache_write : ℕ

pub record ModelData (D : Type 0) : Type 0 where
  pub tokens : ℕ
  pub cost : D

-- `dateMap`, `costMap` and `modelMap`
pub record Maps (D : Type 0) : Type 0 where
  pub dates : Dict String Tokens
  pub costs : Dict String D
  pub models : Dict String (ModelData D)

abbrev pub no_tokens : Tokens
no_tokens = record { input = 0; output = 0; cache_read = 0; cache_write = 0 }

abbrev pub add_tokens : RuntimeUsage → Tokens → Tokens
add_tokens u t = record {
  input = t.input + u.input_tokens;
  output = t.output + u.output_tokens;
  cache_read = t.cache_read + u.cache_read_tokens;
  cache_write = t.cache_write + u.cache_write_tokens;
}

abbrev pub usage_tokens : RuntimeUsage → ℕ
usage_tokens u = u.input_tokens + u.output_tokens + u.cache_read_tokens + u.cache_write_tokens

-- `u.model || u.provider`
abbrev pub model_name : RuntimeUsage → String
model_name u = if is_nonempty u.model then u.model else u.provider

abbrev pub no_maps : {D : Type 0} → Maps D
no_maps = record { dates = []; costs = []; models = [] }

module _ {D : Type 0} (d : Doubles D) where
  abbrev pub no_data : ModelData D
  no_data = record { tokens = 0; cost = d.whole 0 }

  abbrev pub add_data : RuntimeUsage → ModelData D → ModelData D
  add_data u m = record {
    tokens = m.tokens + usage_tokens u;
    cost = d.plus m.cost (estimate_cost d u);
  }

  -- One round of the loop.
  unfoldable pub add_usage : RuntimeUsage → Maps D → Maps D
  add_usage u m = record {
    dates = set u.date (add_tokens u (get_or (get u.date m.dates) no_tokens)) m.dates;
    costs =
        set u.date (d.plus (get_or (get u.date m.costs) (d.whole 0)) (estimate_cost d u)) m.costs;
    models =
        set (model_name u) (add_data u (get_or (get (model_name u) m.models) no_data)) m.models;
  }

  unfoldable pub add_all : List RuntimeUsage → Maps D → Maps D
  add_all [] m = m
  add_all (u ∷ us) m = add_all us (add_usage u m)

pub record DailyTokenData : Type 0 where
  pub date : String
  pub label : String
  pub tokens : Tokens

pub record DailyCostData (D : Type 0) : Type 0 where
  pub date : String
  pub label : String
  pub cost : D

pub record ModelDistribution (D : Type 0) : Type 0 where
  pub model : String
  pub tokens : ℕ
  pub cost : D

pub record Aggregate (D : Type 0) : Type 0 where
  pub daily_tokens : List DailyTokenData
  pub daily_cost : List (DailyCostData D)
  pub model_dist : List (ModelDistribution D)

module _ {D : Type 0} where
  -- `b.tokens - a.tokens`
  abbrev pub compare_dist : ModelDistribution D → ModelDistribution D → Ordering
  compare_dist a b = compare b.tokens a.tokens

  abbrev pub to_dist : String × ModelData D → ModelDistribution D
  to_dist e = record { model = e.0; tokens = e.1.tokens; cost = e.1.cost }

module _ {D : Type 0} (d : Doubles D) (compare_texts : String → String → Ordering)
    (label : String → String) where
  -- `Math.round(cost * 100) / 100`
  abbrev pub round_cost : D → D
  round_cost cost = d.over (d.round (d.times cost (d.whole 100))) (d.whole 100)

  abbrev pub by_date {ℓ} : {A : Type ℓ} → String × A → String × A → Ordering
  by_date a b = compare_texts a.0 b.0

  abbrev pub to_daily_tokens : String × Tokens → DailyTokenData
  to_daily_tokens e = record { date = e.0; label = label e.0; tokens = e.1 }

  abbrev pub to_daily_cost : String × D → DailyCostData D
  to_daily_cost e = record { date = e.0; label = label e.0; cost = round_cost e.1 }

  unfoldable pub aggregate_by_date : List RuntimeUsage → Aggregate D
  aggregate_by_date usage =
      let m = add_all d usage no_maps in
      record {
        daily_tokens = map to_daily_tokens (sort by_date m.dates);
        daily_cost = map to_daily_cost (sort by_date m.costs);
        model_dist = sort compare_dist (map to_dist m.models);
      }

module _ (to_text : ℕ → String) where
  -- `formatLastSeen`, at the times of `lastSeenAt` and of now in milliseconds: a time that is still
  -- to come gives a negative difference.
  unfoldable pub format_last_seen : ℕ → Option ℕ → String
  format_last_seen now none = "Never"
  format_last_seen now (some seen) =
      let diff = now - seen in
      if ltb diff 60_000
      then "Just now"
      else if ltb diff 3_600_000
      then text_append (to_text (diff / 60_000)) "m ago"
      else if ltb diff 86_400_000
      then text_append (to_text (diff / 3_600_000)) "h ago"
      else text_append (to_text (diff / 86_400_000)) "d ago"

-- `formatTokens`; `to_fixed n d` stands for `(n / d).toFixed(1)`.
unfoldable pub format_tokens : (ℕ → ℕ → String) → (ℕ → String) → ℕ → String
format_tokens to_fixed locale_text n =
    if leb 1_000_000 n
    then text_append (to_fixed n 1_000_000) "M"
    else if leb 1_000 n
    then text_append (to_fixed n 1_000) "K"
    else locale_text n
