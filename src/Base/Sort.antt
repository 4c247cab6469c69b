-- ===== src/Base/Sort.antt =====
-- `Array.prototype.sort` with a comparator: the stable sort. The sign of the comparator's answer is
-- an `Ordering`.
use Prim.Native.Nat.{Ordering}
use mathlib.Core.Path.{◌≡◌, refl, ◌∙◌}
use mathlib.Core.Logic.{inl, inr}
use mathlib.Core.Bool.{Bool, true, false}
use mathlib.Core.List.{List, [], ◌∷◌, Perm}
use mathlib.Core.List.Perm
use native.Mathlib.Omega.{arith}
use github_idea_os_app.Base.Compare.{if◌then◌else◌, Bool-cases, Eq, ◌==◌}
use github_idea_os_app.Base.Lists.{All, any, has, IsUnique}

module _ {ℓ} {A : Type ℓ} (cmp : A → A → Ordering) where
  -- `a` may stay in front of `b`.
  abbrev pub in_order : A → A → Bool
  in_order a b = elim (cmp a b) [ Ordering.gt ↦ false | _ ↦ true ]

  unfoldable pub insert : A → List A → List A
  insert x [] = x ∷ []
  insert x (y ∷ ys) = let rest = insert x ys in if in_order x y then x ∷ y ∷ ys else y ∷ rest

  unfoldable pub sort : List A → List A
  unfolding insert
  sort [] = []
  sort (x ∷ xs) = insert x (sort xs)

  -- Every element may stay in front of every later one.
  abbrev pub IsSorted : List A → Type ℓ
  IsSorted [] = Unit
  IsSorted (x ∷ xs) = All (λ y. in_order x y ≡ true) xs × IsSorted xs

  -- What a comparator has to satisfy for the sort to be determined.
  pub record IsOrder : Type ℓ where
    pub total : (a b : A) → in_order a b ≡ false → in_order b a ≡ true
    pub trans : (a b c : A) → in_order a b ≡ true → in_order b c ≡ true → in_order a c ≡ true

module _ {ℓ} {A : Type ℓ} (cmp : A → A → Ordering) where
  pub All-insert {κ} :
      (P : A → Type κ) (x : A) (ys : List A) → P x → All P ys → All P (insert cmp x ys)
  unfolding insert
  All-insert P x [] p h = (p, tt)
  All-insert P x (y ∷ ys) p (q, h) = elim (Bool-cases (in_order cmp x y)) [
    | inl e ↦ rw (e, insert) (p, (q, h))
    | inr e ↦ rw (e, insert) (q, All-insert P x ys p h)
  ]

  pub All-sort {κ} : (P : A → Type κ) (xs : List A) → All P xs → All P (sort cmp xs)
  unfolding sort
  All-sort P [] h = tt
  All-sort P (x ∷ xs) (p, h) = All-insert P x (sort cmp xs) p (All-sort P xs h)

  All-of_insert {κ} :
      (P : A → Type κ) (x : A) (ys : List A) → All P (insert cmp x ys) → P x × All P ys
  unfolding insert
  All-of_insert P x [] h = h
  All-of_insert P x (y ∷ ys) h = elim (Bool-cases (in_order cmp x y)) [
    | inl e ↦ rw (e, insert) at h
    | inr e ↦
        let (q, rest) : P y × All P (insert cmp x ys) = rw (e, insert) at h in
        let (p, k) = All-of_insert P x ys rest in (p, (q, k))
  ]

  pub All-of_sort {κ} : (P : A → Type κ) (xs : List A) → All P (sort cmp xs) → All P xs
  unfolding sort
  All-of_sort P [] h = tt
  All-of_sort P (x ∷ xs) h =
      let (p, k) = All-of_insert P x (sort cmp xs) h in (p, All-of_sort P xs k)

  pub any-insert : (p : A → Bool) (x : A) (ys : List A) → any p (insert cmp x ys) ≡ any p (x ∷ ys)
  unfolding insert
  any-insert p x [] = refl
  any-insert p x (y ∷ ys) = ground (arith, any-insert p x ys)

  pub any-sort : (p : A → Bool) (xs : List A) → any p (sort cmp xs) ≡ any p xs
  unfolding sort
  any-sort p [] = refl
  any-sort p (x ∷ xs) = ground (arith, any-insert p x (sort cmp xs), any-sort p xs)

  -- Sorting keeps keys distinct.
  module _ {κ} {K : Type κ} ⦃e : Eq K⦄ (key : A → K) where
    insert-IsUnique :
        (x : A) (ys : List A)
        → has key (key x) ys ≡ false
        → IsUnique key ys
        → IsUnique key (insert cmp x ys)
    unfolding insert
    insert-IsUnique x [] h u = (refl, tt)
    insert-IsUnique x (y ∷ ys) h (new, u) = elim (Bool-cases (in_order cmp x y)) [
      | inl e ↦ rw (e, insert) (h, (new, u))
      | inr e ↦
          rw (e, insert)
            (
              ground (arith, any-insert (λ z. key z == key y) x ys),
              insert-IsUnique x ys (ground arith) u,
            )
    ]

    pub sort-IsUnique : (xs : List A) → IsUnique key xs → IsUnique key (sort cmp xs)
    unfolding sort
    sort-IsUnique [] u = tt
    sort-IsUnique (x ∷ xs) (new, u) =
        insert-IsUnique x (sort cmp xs) (any-sort (λ z. key z == key x) xs ∙ new)
          (sort-IsUnique xs u)

  insert-perm : (x : A) (ys : List A) → Perm (insert cmp x ys) (x ∷ ys)
  unfolding insert
  insert-perm x [] = Perm.rfl
  insert-perm x (y ∷ ys) = elim (Bool-cases (in_order cmp x y)) [
    | inl e ↦ rw (e, insert) Perm.rfl
    | inr e ↦ rw (e, insert) (Perm.trans (Perm.cons y (insert-perm x ys)) (Perm.swap x y ys))
  ]

  -- The sort loses and invents nothing.
  pub sort-perm : (xs : List A) → Perm (sort cmp xs) xs
  unfolding sort
  sort-perm [] = Perm.rfl
  sort-perm (x ∷ xs) = Perm.trans (insert-perm x (sort cmp xs)) (Perm.cons x (sort-perm xs))

  insert_front :
      (x : A) (ys : List A) → All (λ y. in_order cmp x y ≡ true) ys → insert cmp x ys ≡ x ∷ ys
  unfolding insert
  insert_front x [] h = refl
  insert_front x (y ∷ ys) (e, h) = rw e

  -- A sorted list is left as it is: equal elements keep their order.
  pub sort_of_IsSorted : (xs : List A) → IsSorted cmp xs → sort cmp xs ≡ xs
  unfolding sort
  sort_of_IsSorted [] s = refl
  sort_of_IsSorted (x ∷ xs) (h, s) = rw (sort_of_IsSorted xs s) (insert_front x xs h)

  module _ (o : IsOrder cmp) where
    below_trans :
        (x y : A) (ys : List A)
        → in_order cmp x y ≡ true
        → All (λ z. in_order cmp y z ≡ true) ys
        → All (λ z. in_order cmp x z ≡ true) ys
    below_trans x y [] e h = tt
    below_trans x y (z ∷ zs) e (k, h) = (o.trans x y z e k, below_trans x y zs e h)

    insert-IsSorted : (x : A) (ys : List A) → IsSorted cmp ys → IsSorted cmp (insert cmp x ys)
    unfolding insert
    insert-IsSorted x [] s = (tt, tt)
    insert-IsSorted x (y ∷ ys) (h, s) = elim (Bool-cases (in_order cmp x y)) [
      | inl e ↦ rw (e, insert) ((e, below_trans x y ys e h), (h, s))
      | inr e ↦
          rw (e, insert)
            (
              All-insert (λ z. in_order cmp y z ≡ true) x ys (o.total x y e) h,
              insert-IsSorted x ys s,
            )
    ]

    -- The result is sorted.
    pub sort-IsSorted : (xs : List A) → IsSorted cmp (sort cmp xs)
    unfolding sort
    sort-IsSorted [] = tt
    sort-IsSorted (x ∷ xs) = insert-IsSorted x (sort cmp xs) (sort-IsSorted xs)
