-- ===== src/Base/Dict.antt =====
-- `Map`: a dictionary that keeps the order in which its keys were first set.
use github_idea_os_app.Base.Compare.{Eq, ◌==◌, if◌then◌else◌, Bool-cases}
use github_idea_os_app.Base.Lists.{any, IsUnique, All}
use mathlib.Core.Path.{◌≡◌, refl}
use mathlib.Core.Logic.{inl, inr}
use mathlib.Core.Bool.{Bool, false, ◌||◌}
use mathlib.Core.Option.{Option, none, some}
use mathlib.Core.List.{List, [], ◌∷◌}
use native.Mathlib.Omega.{arith}

abbrev pub Dict {ℓ κ} : Type ℓ → Type κ → Type (ℓ ⊔ κ)
Dict K V = List (K × V)

module _ {ℓ κ} {K : Type ℓ} {V : Type κ} ⦃e : Eq K⦄ where
  -- `m.get(k)`
  unfoldable pub get : K → Dict K V → Option V
  get k [] = none
  get k ((j, v) ∷ m) = if j == k then some v else get k m

  -- `m.set(k, v)`
  unfoldable pub set : K → V → Dict K V → Dict K V
  set k v [] = (k, v) ∷ []
  set k v ((j, w) ∷ m) = let rest = set k v m in if j == k then (j, v) ∷ m else (j, w) ∷ rest

  -- `m.delete(k)`
  unfoldable pub delete : K → Dict K V → Dict K V
  delete k [] = []
  delete k ((j, w) ∷ m) = let rest = delete k m in if j == k then m else (j, w) ∷ rest

  -- `m.has(k)`
  abbrev pub has_key : K → Dict K V → Bool
  has_key k = any (λ e. e.0 == k)

  -- No key stands twice.
  abbrev pub HasUniqueKeys : Dict K V → Type 0
  HasUniqueKeys = IsUnique (λ e. e.0)

  pub get-set :
      (k j : K) (v : V) (m : Dict K V) → get j (set k v m) ≡ (if j == k then some v else get j m)
  unfolding get set
  get-set k j v [] = ground arith
  get-set k j v ((i, w) ∷ m) = ground (arith, get-set k j v m)

  has_key-set : (k j : K) (v : V) (m : Dict K V) → has_key j (set k v m) ≡ ((j == k) || has_key j m)
  unfolding set
  has_key-set k j v [] = ground arith
  has_key-set k j v ((i, w) ∷ m) = ground (arith, has_key-set k j v m)

  pub set-HasUniqueKeys :
      (k : K) (v : V) (m : Dict K V) → HasUniqueKeys m → HasUniqueKeys (set k v m)
  unfolding set
  set-HasUniqueKeys k v [] u = (refl, tt)
  set-HasUniqueKeys k v ((i, w) ∷ m) (new, u) = elim (Bool-cases (i == k)) [
    | inl e ↦ rw (e, set) (new, u)
    | inr e ↦ rw (e, set) (rw (has_key-set k i v m, e) new, set-HasUniqueKeys k v m u)
  ]

  get_absent : (k : K) (m : Dict K V) → has_key k m ≡ false → get k m ≡ none
  unfolding get
  get_absent k [] h = refl
  get_absent k ((j, w) ∷ m) h = ground (arith, get_absent k m)

  pub get-delete :
      (k j : K) (m : Dict K V)
      → HasUniqueKeys m
      → get j (delete k m) ≡ (if j == k then none else get j m)
  unfolding get delete
  get-delete k j [] u = ground arith
  get-delete k j ((i, w) ∷ m) (new, u) = ground (arith, get-delete k j m u, get_absent i m new)

  has_key-delete : (k j : K) (m : Dict K V) → has_key j m ≡ false → has_key j (delete k m) ≡ false
  unfolding delete
  has_key-delete k j [] h = refl
  has_key-delete k j ((i, w) ∷ m) h = ground (arith, has_key-delete k j m)

  pub delete-HasUniqueKeys : (k : K) (m : Dict K V) → HasUniqueKeys m → HasUniqueKeys (delete k m)
  unfolding delete
  delete-HasUniqueKeys k [] u = tt
  delete-HasUniqueKeys k ((i, w) ∷ m) (new, u) = elim (Bool-cases (i == k)) [
    | inl e ↦ rw (e, delete) u
    | inr e ↦ rw (e, delete) (has_key-delete k i m new, delete-HasUniqueKeys k m u)
  ]

  -- With unique keys each entry is what `get` finds.
  entry_of_tail :
      (j : K) (v : V) (m : Dict K V) (n : Dict K V)
      → has_key j n ≡ false
      → All (λ e. get e.0 m ≡ some e.1) n
      → All (λ e. get e.0 ((j, v) ∷ m) ≡ some e.1) n
  unfolding get
  entry_of_tail j v m [] h a = tt
  entry_of_tail j v m ((i, w) ∷ n) h (p, a) = (ground arith, entry_of_tail j v m n (ground arith) a)

  pub All-get : (m : Dict K V) → HasUniqueKeys m → All (λ e. get e.0 m ≡ some e.1) m
  unfolding get
  All-get [] u = tt
  All-get ((j, v) ∷ m) (new, u) = (ground arith, entry_of_tail j v m m new (All-get m u))
