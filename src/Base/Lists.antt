-- ===== src/Base/Lists.antt =====
-- Arrays as lists: `some`, `find`, `filter`, `includes`, `length`, and arrays whose elements have
-- distinct keys.
use Prim.Native.Nat.{ℕ, suc, ◌+◌, ◌≤◌}
use mathlib.Core.Path.{◌≡◌, refl}
use mathlib.Core.Bool.{Bool, true, false, ◌||◌}
use mathlib.Core.Option.{Option, none, some}
use mathlib.Core.Logic.{inl, inr}
use mathlib.Core.List.{List, [], ◌∷◌, ◌++◌, map, Mem, mem-cons_self, mem-cons_of_mem}
use native.Mathlib.Omega.{arith}
use github_idea_os_app.Base.Compare.{Eq, ◌==◌, if◌then◌else◌, Bool-cases}

module _ {ℓ} {A : Type ℓ} where
  abbrev pub length : List A → ℕ
  length [] = 0
  length (x ∷ xs) = suc (length xs)

  -- `xs.some(p)`
  abbrev pub any : (A → Bool) → List A → Bool
  any p [] = false
  any p (x ∷ xs) = p x || any p xs

  -- `xs.filter(p)`
  abbrev pub filter : (A → Bool) → List A → List A
  filter p [] = []
  filter p (x ∷ xs) = let rest = filter p xs in if p x then x ∷ rest else rest

  -- `xs.find(p)`
  abbrev pub find : (A → Bool) → List A → Option A
  find p [] = none
  find p (x ∷ xs) = if p x then some x else find p xs

  -- `xs[0]`
  abbrev pub head? : List A → Option A
  head? [] = none
  head? (x ∷ xs) = some x

  abbrev pub is_empty : List A → Bool
  is_empty [] = true
  is_empty (x ∷ xs) = false

  -- Every element satisfies `P`.
  abbrev pub All {κ} : (A → Type κ) → List A → Type κ
  All P [] = Unit
  All P (x ∷ xs) = P x × All P xs

  pub length-append : (xs ys : List A) → length (xs ++ ys) ≡ length xs + length ys
  length-append [] ys = omega arith
  length-append (x ∷ xs) ys = omega (arith, length-append xs ys)

  pub length-filter-le : (p : A → Bool) (xs : List A) → length (filter p xs) ≤ length xs
  length-filter-le p [] = omega arith
  length-filter-le p (x ∷ xs) = ground (arith, length-filter-le p xs)

  pub any-append : (p : A → Bool) (xs ys : List A) → any p (xs ++ ys) ≡ (any p xs || any p ys)
  any-append p [] ys = refl
  any-append p (x ∷ xs) ys = ground (arith, any-append p xs ys)

  pub any-filter : (p q : A → Bool) (xs : List A) → any p xs ≡ false → any p (filter q xs) ≡ false
  any-filter p q [] h = refl
  any-filter p q (x ∷ xs) h = ground (arith, any-filter p q xs)

  pub filter-append :
      (p : A → Bool) (xs ys : List A) → filter p (xs ++ ys) ≡ filter p xs ++ filter p ys
  filter-append p [] ys = refl
  filter-append p (x ∷ xs) ys = ground (arith, filter-append p xs ys)

  pub any-eq_true : (p : A → Bool) (xs ys : List A) → any p xs ≡ true → any p (xs ++ ys) ≡ true
  any-eq_true p xs ys h = rw (any-append p xs ys, h)

module _ {ℓ κ} {A : Type ℓ} (P : A → Type κ) where
  pub All-append : (xs ys : List A) → All P xs → All P ys → All P (xs ++ ys)
  All-append [] ys h k = k
  All-append (x ∷ xs) ys (p, h) k = (p, All-append xs ys h k)

  pub All-filter : (q : A → Bool) (xs : List A) → All P xs → All P (filter q xs)
  All-filter q [] h = tt
  All-filter q (x ∷ xs) (p, h) = elim (Bool-cases (q x)) [
    | inl e ↦ rw e (p, All-filter q xs h)
    | inr e ↦ rw e (All-filter q xs h)
  ]

  pub All-of_forall : ((a : A) → P a) → (xs : List A) → All P xs
  All-of_forall h [] = tt
  All-of_forall h (x ∷ xs) = (h x, All-of_forall h xs)

  pub All-imp {μ} : (Q : A → Type μ) → ((a : A) → P a → Q a) → (xs : List A) → All P xs → All Q xs
  All-imp Q f [] h = tt
  All-imp Q f (x ∷ xs) (p, h) = (f x p, All-imp Q f xs h)

  pub All-zip {μ} : (Q : A → Type μ) (xs : List A) → All P xs → All Q xs → All (λ a. P a × Q a) xs
  All-zip Q [] h k = tt
  All-zip Q (x ∷ xs) (p, h) (q, k) = ((p, q), All-zip Q xs h k)

  pub All-of_none : (xs : List A) → head? xs ≡ none → All P xs
  All-of_none [] e = tt
  All-of_none (x ∷ xs) e = cc

  -- What a filter keeps passes its test.
  pub All-filter_self :
      (q : A → Bool) → ((a : A) → q a ≡ true → P a) → (xs : List A) → All P (filter q xs)
  All-filter_self q f [] = tt
  All-filter_self q f (x ∷ xs) = elim (Bool-cases (q x)) [
    | inl e ↦ rw e (f x e, All-filter_self q f xs)
    | inr e ↦ rw e (All-filter_self q f xs)
  ]

  -- The same of a list that a map has gone over.
  pub All-filter-map :
      (q : A → Bool) (f : A → A)
      → ((a : A) → q (f a) ≡ true → P (f a))
      → (xs : List A) → All P (filter q (map f xs))
  All-filter-map q f h [] = tt
  All-filter-map q f h (x ∷ xs) = elim (Bool-cases (q (f x))) [
    | inl e ↦ rw e (h x e, All-filter-map q f h xs)
    | inr e ↦ rw e (All-filter-map q f h xs)
  ]

module _ {ℓ} {A : Type ℓ} where
  -- No element passes a test that every element fails.
  pub any_of_All : (p : A → Bool) (xs : List A) → All (λ x. p x ≡ false) xs → any p xs ≡ false
  any_of_All p [] h = refl
  any_of_All p (x ∷ xs) (e, h) = rw e (any_of_All p xs h)

  pub eq_nil_of_All : (xs : List A) → All (λ x. ⊥) xs → xs ≡ []
  eq_nil_of_All [] h = refl
  eq_nil_of_All (x ∷ xs) h = absurd h.0

  pub map-congr : (f g : A → A) → ((a : A) → f a ≡ g a) → (xs : List A) → map f xs ≡ map g xs
  map-congr f g h [] = refl
  map-congr f g h (x ∷ xs) = rw (h x, map-congr f g h xs)

  pub map-map : (f g : A → A) (xs : List A) → map f (map g xs) ≡ map (λ a. f (g a)) xs
  map-map f g [] = refl
  map-map f g (x ∷ xs) = rw (map-map f g xs)

  pub All-mem : (xs : List A) → All (λ x. Mem x xs) xs
  All-mem [] = tt
  All-mem (x ∷ xs) = (
    mem-cons_self,
    All-imp (λ y. Mem y xs) (λ y. Mem y (x ∷ xs)) (λ y. mem-cons_of_mem x) xs (All-mem xs),
  )

-- `xs.includes(a)`
abbrev pub includes {ℓ} : {A : Type ℓ} ⦃e : Eq A⦄ → List A → A → Bool
includes xs a = any (λ x. x == a) xs

-- No two elements have the same key.
module _ {ℓ κ} {A : Type ℓ} {K : Type κ} ⦃e : Eq K⦄ (key : A → K) where
  -- `xs.some((x) => x.key === k)`
  abbrev pub has : K → List A → Bool
  has k = any (λ x. key x == k)

  abbrev pub IsUnique : List A → Type 0
  IsUnique [] = Unit
  IsUnique (x ∷ xs) = (has (key x) xs ≡ false) × IsUnique xs

  pub IsUnique-concat :
      (xs : List A) (a : A) → has (key a) xs ≡ false → IsUnique xs → IsUnique (xs ++ a ∷ [])
  IsUnique-concat [] a h u = ground arith
  IsUnique-concat (x ∷ xs) a h (new, u) = (
    ground (arith, any-append (λ y. key y == key x) xs (a ∷ [])),
    IsUnique-concat xs a (ground arith) u,
  )

  pub IsUnique-filter : (p : A → Bool) (xs : List A) → IsUnique xs → IsUnique (filter p xs)
  IsUnique-filter p [] u = tt
  IsUnique-filter p (x ∷ xs) (new, u) =
      ground (arith, IsUnique-filter p xs u, any-filter (λ y. key y == key x) p xs new)

  -- A map that keeps the keys.
  pub has-map :
      (f : A → A)
      → ((a : A) → key (f a) ≡ key a)
      → (k : K) (xs : List A) → has k (map f xs) ≡ has k xs
  has-map f h k [] = refl
  has-map f h k (x ∷ xs) = ground (arith, h x, has-map f h k xs)

  pub IsUnique-map :
      (f : A → A)
      → ((a : A) → key (f a) ≡ key a)
      → (xs : List A) → IsUnique xs
      → IsUnique (map f xs)
  IsUnique-map f h [] u = tt
  IsUnique-map f h (x ∷ xs) (new, u) =
      (ground (arith, h x, has-map f h (key x) xs), IsUnique-map f h xs u)
