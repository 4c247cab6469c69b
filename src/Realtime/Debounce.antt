-- ===== src/Realtime/Debounce.antt =====
-- What the debounce of the refreshes guarantees.
use github_idea_os_app.Base.{
  ℕ, zero, suc, ◌+◌, ◌-◌, String, ◌≡◌, refl, ap, ◌∙◌, inl, inr, Bool, true, false, not, ◌&&◌,
  Option, none, some, List, [], ◌∷◌, ◌++◌, arith, if◌then◌else◌, Bool-cases, ◌==◌, string_eq,
  nat_eq, option_eq, leb, is_truthy, includes, has,
}
use github_idea_os_app.Base.Dict.{Dict, get, HasUniqueKeys, get-set, set-HasUniqueKeys}
use github_idea_os_app.Realtime.{specific_events, refresh_keys, prefix_of, on_any_message, tick}

-- A message of another user, of no specific handler, whose prefix has a refresh.
abbrev pub starts_refresh : Option String → Option String → String → Bool
starts_refresh my_user_id actor_id type =
    not (is_truthy actor_id && actor_id == my_user_id)
    && not (includes specific_events type)
    && includes refresh_keys (prefix_of type)

-- A message starts the timer of its prefix anew if it is not one's own, has no handler of its own and
-- its prefix has a refresh; it leaves every other timer as it is, and any other message leaves all.
get-on_any_message :
    (my_user_id actor_id : Option String) (type prefix : String) (timers : Dict String ℕ)
    → get prefix (on_any_message my_user_id actor_id type timers) ≡ (
        if starts_refresh my_user_id actor_id type && prefix_of type == prefix
        then some 100
        else get prefix timers)
unfolding on_any_message
get-on_any_message my_user_id actor_id type prefix timers =
    ground (arith, get-set (prefix_of type) prefix 100 timers)

-- The state after some milliseconds in which no message comes, with the refreshes that ran.
unfoldable pub ticks : ℕ → Dict String ℕ → Dict String ℕ × List String
ticks zero timers = (timers, [])
ticks (suc n) timers =
    let next = tick timers in let rest = ticks n next.0 in (rest.0, next.1 ++ rest.1)

-- How often a refresh ran.
unfoldable pub count : String → List String → ℕ
count prefix [] = 0
count prefix (p ∷ ps) = let rest = count prefix ps in if p == prefix then suc rest else rest

count-append : (p : String) (ps qs : List String) → count p (ps ++ qs) ≡ count p ps + count p qs
unfolding count
count-append p [] qs = omega arith
count-append p (q ∷ ps) qs = ground (arith, count-append p ps qs)

-- What a millisecond does to a timer, and how often its refresh runs in it.
abbrev after : Option ℕ → Option ℕ
after none = none
after (some n) = if leb n 1 then none else some (n - 1)

abbrev runs : Option ℕ → ℕ
runs none = 0
runs (some n) = if leb n 1 then 1 else 0

has_key-tick :
    (p : String) (timers : Dict String ℕ)
    → has (λ e. e.0) p timers ≡ false
    → has (λ e. e.0) p (tick timers).0 ≡ false
unfolding tick
has_key-tick p [] h = refl
has_key-tick p ((q, n) ∷ timers) h = ground (arith, has_key-tick p timers)

tick-HasUniqueKeys : (timers : Dict String ℕ) → HasUniqueKeys timers → HasUniqueKeys (tick timers).0
unfolding tick
tick-HasUniqueKeys [] u = tt
tick-HasUniqueKeys ((q, n) ∷ timers) (new, u) = elim (Bool-cases (leb n 1)) [
  | inl e ↦ rw (tick, e) (tick-HasUniqueKeys timers u)
  | inr e ↦ rw (tick, e) (has_key-tick q timers new, tick-HasUniqueKeys timers u)
]

absent :
    (p : String) (timers : Dict String ℕ)
    → has (λ e. e.0) p timers ≡ false
    → (get p timers ≡ none) × (get p (tick timers).0 ≡ none) × (count p (tick timers).1 ≡ 0)
unfolding tick get count
absent p [] h = (refl, refl, refl)
absent p ((q, n) ∷ timers) h = ground (arith, absent p timers)

get-tick :
    (p : String) (timers : Dict String ℕ)
    → HasUniqueKeys timers
    → (get p (tick timers).0 ≡ after (get p timers))
      × (count p (tick timers).1 ≡ runs (get p timers))
unfolding tick get count
get-tick p [] u = (refl, refl)
get-tick p ((q, n) ∷ timers) (new, u) = ground (arith, get-tick p timers u, absent q timers new)

-- How often the refresh of a timer runs in some milliseconds.
abbrev expected : ℕ → Option ℕ → ℕ
expected k none = 0
expected zero (some n) = 0
expected (suc k) (some n) = if leb n (suc k) then 1 else 0

expected-zero : (o : Option ℕ) → 0 ≡ expected zero o
expected-zero none = refl
expected-zero (some n) = refl

expected-suc : (k : ℕ) (o : Option ℕ) → runs o + expected k (after o) ≡ expected (suc k) o
expected-suc zero none = omega arith
expected-suc (suc k) none = omega arith
expected-suc zero (some n) = ground arith
expected-suc (suc k) (some n) = ground arith

expected-hundred :
    (k : ℕ) (p : String) (o : Option ℕ)
    → expected k (if p == p then some 100 else o) ≡ (if leb 100 k then 1 else 0)
expected-hundred zero p o = ground arith
expected-hundred (suc k) p o = ground arith

count-ticks :
    (k : ℕ) (p : String) (timers : Dict String ℕ)
    → HasUniqueKeys timers
    → count p (ticks k timers).1 ≡ expected k (get p timers)
unfolding ticks count
count-ticks zero p timers u = expected-zero (get p timers)
count-ticks (suc k) p timers u =
    let (left, ran) = get-tick p timers u in
    count-append p (tick timers).1 (ticks k (tick timers).0).1
    ∙ rw (ran, count-ticks k p (tick timers).0 (tick-HasUniqueKeys timers u), left)
        (expected-suc k (get p timers))

on_any_message-HasUniqueKeys :
    (my_user_id actor_id : Option String) (type : String) (timers : Dict String ℕ)
    → HasUniqueKeys timers
    → HasUniqueKeys (on_any_message my_user_id actor_id type timers)
unfolding on_any_message
on_any_message-HasUniqueKeys my_user_id actor_id type timers u =
    elim (Bool-cases (is_truthy actor_id && actor_id == my_user_id)) [
      | inl e ↦ rw (on_any_message, e) u
      | inr e ↦ elim (Bool-cases (includes specific_events type)) [
        | inl f ↦ rw (on_any_message, e, f) u
        | inr f ↦ elim (Bool-cases (includes refresh_keys (prefix_of type))) [
          | inl g ↦ rw (on_any_message, e, f, g) (set-HasUniqueKeys (prefix_of type) 100 timers u)
          | inr g ↦ rw (on_any_message, e, f, g) u
        ]
      ]
    ]

-- However many messages of its prefix came before, a message that starts a refresh is followed by
-- exactly one run of it when no other comes for 100 milliseconds, and by none before those are over.
pub count-on_any_message :
    (my_user_id actor_id : Option String) (type : String) (timers : Dict String ℕ) (k : ℕ)
    → HasUniqueKeys timers
    → starts_refresh my_user_id actor_id type ≡ true
    → count (prefix_of type) (ticks k (on_any_message my_user_id actor_id type timers)).1
      ≡ (if leb 100 k then 1 else 0)
count-on_any_message my_user_id actor_id type timers k u h =
    count-ticks k (prefix_of type) (on_any_message my_user_id actor_id type timers)
      (on_any_message-HasUniqueKeys my_user_id actor_id type timers u)
    ∙ ap (expected k) (get-on_any_message my_user_id actor_id type (prefix_of type) timers)
    ∙ rw h (expected-hundred k (prefix_of type) (get (prefix_of type) timers))
