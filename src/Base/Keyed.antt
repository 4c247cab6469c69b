-- ===== src/Base/Keyed.antt =====
-- Arrays of objects with a key, as the stores keep them: looked up by `find`, changed by `map`,
-- `filter` and appending.
use mathlib.Core.Path.{◌≡◌, refl}
use mathlib.Core.Logic.{inl, inr}
use mathlib.Core.Bool.{not}
use mathlib.Core.Option.{Option, none, some}
use mathlib.Core.List.{List, [], ◌∷◌, ◌++◌, map}
use native.Mathlib.Omega.{arith}
use github_idea_os_app.Base.Compare.{Eq, ◌==◌, if◌then◌else◌, or_else, is_some, Bool-cases}
use github_idea_os_app.Base.Lists.{find, filter, has, IsUnique, IsUnique-map, IsUnique-concat}

-- `o?.f`, and the update of what a map holds.
abbrev pub map_option {ℓ κ} : {A : Type ℓ} {B : Type κ} → (A → B) → Option A → Option B
map_option f none = none
map_option f (some a) = some (f a)

module _ {ℓ κ} {A : Type ℓ} {K : Type κ} ⦃e : Eq K⦄ (key : A → K) where
  -- `xs.find((x) => x.key === k)`
  abbrev pub find_key : K → List A → Option A
  find_key k = find (λ x. key x == k)

  -- `xs.filter((x) => x.key !== k)`
  abbrev pub remove_key : K → List A → List A
  remove_key k = filter (λ x. not (key x == k))

  -- `xs.map((x) => (x.key === k ? f(x) : x))`
  abbrev pub map_key : K → (A → A) → List A → List A
  map_key k f = map (λ x. if key x == k then f x else x)

  -- `xs.some((x) => x.key === a.key) ? xs : [...xs, a]`
  abbrev pub add_new : A → List A → List A
  add_new a xs = if has key (key a) xs then xs else xs ++ a ∷ []

  pub has-find_key : (k : K) (xs : List A) → has key k xs ≡ is_some (find_key k xs)
  has-find_key k [] = refl
  has-find_key k (x ∷ xs) = ground (arith, has-find_key k xs)

  pub find_key-append :
      (k : K) (xs ys : List A) → find_key k (xs ++ ys) ≡ or_else (find_key k xs) (find_key k ys)
  find_key-append k [] ys = refl
  find_key-append k (x ∷ xs) ys = ground (arith, find_key-append k xs ys)

  pub find_key-remove_key :
      (k j : K) (xs : List A)
      → find_key k (remove_key j xs) ≡ (if k == j then none else find_key k xs)
  find_key-remove_key k j [] = ground arith
  find_key-remove_key k j (x ∷ xs) = ground (arith, find_key-remove_key k j xs)

  -- What is changed keeps its key.
  pub find_key-map_key :
      (k j : K) (f : A → A) (xs : List A)
      → ((a : A) → key a ≡ j → key (f a) ≡ key a)
      → find_key k (map_key j f xs)
        ≡ (if k == j then map_option f (find_key k xs) else find_key k xs)
  find_key-map_key k j f [] h = ground arith
  find_key-map_key k j f (x ∷ xs) h = ground (arith, h x, find_key-map_key k j f xs h)

  pub find_key-add_new :
      (k : K) (a : A) (xs : List A)
      → find_key k (add_new a xs)
        ≡ (if k == key a then or_else (find_key k xs) (some a) else find_key k xs)
  find_key-add_new k a xs =
      ground (arith, has-find_key k xs, has-find_key (key a) xs, find_key-append k xs (a ∷ []))

  pub IsUnique-add_new : (a : A) (xs : List A) → IsUnique key xs → IsUnique key (add_new a xs)
  IsUnique-add_new a xs u = elim (Bool-cases (has key (key a) xs)) [
    | inl old ↦ rw old u
    | inr new ↦ rw new (IsUnique-concat key xs a new u)
  ]

  pub IsUnique-map_key :
      (j : K) (f : A → A) (xs : List A)
      → ((a : A) → key a ≡ j → key (f a) ≡ key a)
      → IsUnique key xs
      → IsUnique key (map_key j f xs)
  IsUnique-map_key j f xs h u =
      IsUnique-map key (λ x. if key x == j then f x else x) (λ a. ground (arith, h a)) xs u
