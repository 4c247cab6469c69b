-- ===== src/Usage/Totals.antt =====
-- The sums over the usages of a date or of a model, and the sums that `add_all` keeps.
use github_idea_os_app.Base.{
  ℕ, ◌+◌, String, ◌≡◌, refl, ap, ◌∙◌, inl, inr, Bool-cases, Option, none, some, List, [], ◌∷◌, ◌==◌,
  string_eq, nat_eq, option_eq, filter, find, or_else, map_option, arith,
}
use github_idea_os_app.Base.Dict.{Dict, get}
use github_idea_os_app.Base.Text.{starts_with}
use github_idea_os_app.Usage.{
  RuntimeUsage, Pricing, model_pricing, find_prefix, Doubles, cost_at, estimate_cost, Tokens,
  ModelData, Maps, no_tokens, add_tokens, usage_tokens, no_data, add_data, model_name, add_usage,
  add_all,
}
use github_idea_os_app.Usage.Sums.{group, total}

abbrev pub usage_date : RuntimeUsage → String
usage_date u = u.date

-- The usages with a key.
abbrev pub usages_of : (RuntimeUsage → String) → String → List RuntimeUsage → List RuntimeUsage
usages_of key k us = filter (λ u. key u == k) us

abbrev pub sum_of : (RuntimeUsage → ℕ) → List RuntimeUsage → ℕ
sum_of f [] = 0
sum_of f (u ∷ us) = f u + sum_of f us

-- Everything in the list, added one after the other.
abbrev pub fold_usages {ℓ} : {V : Type ℓ} → (RuntimeUsage → V → V) → List RuntimeUsage → V → V
fold_usages add [] v = v
fold_usages add (u ∷ us) v = fold_usages add us (add u v)

total-fold {ℓ} :
    {V : Type ℓ} (key : RuntimeUsage → String) (add : RuntimeUsage → V → V) (z : V) (k : String)
    (us : List RuntimeUsage) (v : V)
    → total key add z k us v ≡ fold_usages add (usages_of key k us) v
total-fold key add z k [] v = refl
total-fold key add z k (u ∷ us) v = elim (Bool-cases (key u == k)) [
  | inl e ↦ rw e (total-fold key add z k us (add u v))
  | inr e ↦ rw e (total-fold key add z k us v)
]

tokens_congr :
    {a b c d i j k l : ℕ}
    → a ≡ i
    → b ≡ j
    → c ≡ k
    → d ≡ l
    → Path Tokens
        (record { input = a; output = b; cache_read = c; cache_write = d })
        (record { input = i; output = j; cache_read = k; cache_write = l })
tokens_congr e f g h = rw (e, f, g, h) refl

-- The sums of the four kinds of tokens.
abbrev pub token_sums : List RuntimeUsage → Tokens
token_sums us = record {
  input = sum_of (λ u. u.input_tokens) us;
  output = sum_of (λ u. u.output_tokens) us;
  cache_read = sum_of (λ u. u.cache_read_tokens) us;
  cache_write = sum_of (λ u. u.cache_write_tokens) us;
}

abbrev plus_tokens : Tokens → Tokens → Tokens
plus_tokens s t = record {
  input = s.input + t.input;
  output = s.output + t.output;
  cache_read = s.cache_read + t.cache_read;
  cache_write = s.cache_write + t.cache_write;
}

fold_tokens :
    (us : List RuntimeUsage) (t : Tokens)
    → fold_usages add_tokens us t ≡ plus_tokens t (token_sums us)
fold_tokens [] t = tokens_congr (omega arith) (omega arith) (omega arith) (omega arith)
fold_tokens (u ∷ us) t =
    fold_tokens us (add_tokens u t)
    ∙ tokens_congr (omega arith) (omega arith) (omega arith) (omega arith)

pub total_tokens :
    (k : String) (us : List RuntimeUsage)
    → total usage_date add_tokens no_tokens k us no_tokens ≡ token_sums (usages_of usage_date k us)
total_tokens k us =
    total-fold usage_date add_tokens no_tokens k us no_tokens
    ∙ fold_tokens (usages_of usage_date k us) no_tokens
    ∙ tokens_congr (omega arith) (omega arith) (omega arith) (omega arith)

-- The price of a model: that of the entry with its name, else of the first entry whose name it starts
-- with.
abbrev pub price_of : String → Option Pricing
price_of model =
    map_option (λ (e : String × Pricing). e.1)
      (or_else (find (λ (e : String × Pricing). e.0 == model) model_pricing)
        (find (λ (e : String × Pricing). starts_with model e.0) model_pricing))

get-find :
    (k : String) (m : Dict String Pricing)
    → get k m ≡ map_option (λ e. e.1) (find (λ (e : String × Pricing). e.0 == k) m)
unfolding get
get-find k [] = refl
get-find k ((j, v) ∷ m) = ground (arith, get-find k m)

prefix_find :
    (model : String) (m : Dict String Pricing)
    → find_prefix model m
      ≡ map_option (λ e. e.1) (find (λ (e : String × Pricing). starts_with model e.0) m)
unfolding find_prefix
prefix_find model [] = refl
prefix_find model ((j, v) ∷ m) = ground (arith, prefix_find model m)

map-or_else :
    {A B : Type 0} (f : A → B) (a b : Option A)
    → or_else (map_option f a) (map_option f b) ≡ map_option f (or_else a b)
map-or_else f none b = refl
map-or_else f (some a) b = refl

price_of_lem :
    (model : String)
    → or_else (get model model_pricing) (find_prefix model model_pricing) ≡ price_of model
price_of_lem model =
    rw (get-find model model_pricing, prefix_find model model_pricing)
      (map-or_else (λ e. e.1) (find (λ (e : String × Pricing). e.0 == model) model_pricing)
        (find (λ (e : String × Pricing). starts_with model e.0) model_pricing))

-- This many tokens at four prices for a million, in dollars.
module _ {D : Type 0} (d : Doubles D) where
  abbrev pub million_price : ℕ → ℕ → ℕ → ℕ → Pricing → D
  million_price a b c e p =
      d.over
        (d.plus
          (d.plus
            (d.plus (d.times (d.whole a) (d.hundredths p.input))
              (d.times (d.whole b) (d.hundredths p.output)))
            (d.times (d.whole c) (d.hundredths p.cache_read)))
          (d.times (d.whole e) (d.hundredths p.cache_write)))
        (d.whole 1_000_000)

  abbrev pub cost_of : RuntimeUsage → D
  cost_of u = elim (price_of u.model) [
    | none ↦ d.whole 0
    | some p ↦
        million_price u.input_tokens u.output_tokens u.cache_read_tokens u.cache_write_tokens p
  ]

  -- The costs added one after the other, from 0 on.
  abbrev pub cost_sum : List RuntimeUsage → D → D
  cost_sum [] c = c
  cost_sum (u ∷ us) c = cost_sum us (d.plus c (cost_of u))

  estimate_cost_lem : (u : RuntimeUsage) → estimate_cost d u ≡ cost_of u
  unfolding estimate_cost
  estimate_cost_lem u =
      ap (λ (o : Option Pricing). elim o [ none ↦ d.whole 0 | some p ↦ cost_at d p u ])
        (price_of_lem u.model)

  abbrev pub add_cost : RuntimeUsage → D → D
  add_cost u cost = d.plus cost (estimate_cost d u)

  fold_costs : (us : List RuntimeUsage) (c : D) → fold_usages add_cost us c ≡ cost_sum us c
  fold_costs [] c = refl
  fold_costs (u ∷ us) c =
      fold_costs us (d.plus c (estimate_cost d u))
      ∙ ap (λ x. cost_sum us (d.plus c x)) (estimate_cost_lem u)

  data_congr :
      {a b : ℕ} {x y : D}
      → a ≡ b
      → x ≡ y
      → Path (ModelData D) (record { tokens = a; cost = x }) (record { tokens = b; cost = y })
  data_congr e f = rw (e, f) refl

  fold_data :
      (us : List RuntimeUsage) (m : ModelData D)
      → fold_usages (add_data d) us m
        ≡ record { tokens = m.tokens + sum_of usage_tokens us; cost = cost_sum us m.cost }
  fold_data [] m = data_congr (omega arith) refl
  fold_data (u ∷ us) m =
      fold_data us (add_data d u m)
      ∙ data_congr (omega arith) (ap (λ x. cost_sum us (d.plus m.cost x)) (estimate_cost_lem u))

  pub dates-group :
      (us : List RuntimeUsage) (m : Maps D)
      → (add_all d us m).dates ≡ group usage_date add_tokens no_tokens us m.dates
  unfolding add_all add_usage
  dates-group [] m = refl
  dates-group (u ∷ us) m = dates-group us (add_usage d u m)

  pub costs-group :
      (us : List RuntimeUsage) (m : Maps D)
      → (add_all d us m).costs ≡ group usage_date add_cost (d.whole 0) us m.costs
  unfolding add_all add_usage
  costs-group [] m = refl
  costs-group (u ∷ us) m = costs-group us (add_usage d u m)

  pub models-group :
      (us : List RuntimeUsage) (m : Maps D)
      → (add_all d us m).models ≡ group model_name (add_data d) (no_data d) us m.models
  unfolding add_all add_usage
  models-group [] m = refl
  models-group (u ∷ us) m = models-group us (add_usage d u m)

  pub total_costs :
      (k : String) (us : List RuntimeUsage)
      → total usage_date add_cost (d.whole 0) k us (d.whole 0)
        ≡ cost_sum (usages_of usage_date k us) (d.whole 0)
  total_costs k us =
      total-fold usage_date add_cost (d.whole 0) k us (d.whole 0)
      ∙ fold_costs (usages_of usage_date k us) (d.whole 0)

  pub total_data :
      (k : String) (us : List RuntimeUsage)
      → total model_name (add_data d) (no_data d) k us (no_data d) ≡ record {
        tokens = sum_of usage_tokens (usages_of model_name k us);
        cost = cost_sum (usages_of model_name k us) (d.whole 0);
      }
  total_data k us =
      total-fold model_name (add_data d) (no_data d) k us (no_data d)
      ∙ fold_data (usages_of model_name k us) (no_data d)
      ∙ data_congr (omega arith) refl
