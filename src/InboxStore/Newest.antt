-- ===== src/InboxStore/Newest.antt =====
-- The newest item of each group.
use github_idea_os_app.Base.{
  ℕ, String, ◌≡◌, refl, subst, ◌≢◌, inl, inr, Bool, true, false, ◌&&◌, some, List, [], ◌∷◌, arith,
  Option-cases, ◌==◌, string_eq, string_discrete, nat_eq, option_eq, leb, any, head?, All, has,
  IsUnique, All-imp, All-zip, All-of_none,
}
use github_idea_os_app.Base.Dict.{Dict, get, HasUniqueKeys, has_key}
use github_idea_os_app.Base.Sort.{sort, All-of_sort, IsSorted, IsOrder, sort-IsSorted, All-sort}
use github_idea_os_app.Types.Inbox.{InboxItem}
use github_idea_os_app.InboxStore.{group_key, newest_first, newest_of_groups}
use github_idea_os_app.InboxStore.Groups.{head?-All}

module _ (time : String → ℕ) where
  -- The comparator is an order.
  pub newest_first-IsOrder : IsOrder (newest_first time)
  newest_first-IsOrder = record { total = λ a b h. ground arith; trans = λ a b c h k. ground arith }

  -- An item stands for its group among `xs`.
  abbrev pub represents : List InboxItem → InboxItem → Bool
  represents xs i =
      any (λ x. (group_key x == group_key i) && leb (time i.created_at) (time x.created_at)) xs

  abbrev IsBelow : InboxItem → List InboxItem → Type 0
  IsBelow x = All (λ i. leb (time i.created_at) (time x.created_at) ≡ true)

  newest_head :
      (s : List InboxItem) (x : InboxItem)
      → head? s ≡ some x
      → IsSorted (newest_first time) s
      → IsBelow x s
  newest_head [] x h o = tt
  newest_head (y ∷ s) x h (b, o) =
      let e : y ≡ x = cc in subst (λ z. IsBelow z (y ∷ s)) e (ground arith, b)

  -- The head of a sorted group is its newest item.
  newest :
      (g : List InboxItem) (x : InboxItem)
      → head? (sort (newest_first time) g) ≡ some x
      → IsBelow x g
  newest g x h =
      All-of_sort (newest_first time) (λ i. leb (time i.created_at) (time x.created_at) ≡ true) g
        (newest_head (sort (newest_first time) g) x h
          (sort-IsSorted (newest_first time) newest_first-IsOrder g))

  pub All-newest_of_groups {κ} :
      (P : InboxItem → Type κ) (m : Dict String (List InboxItem))
      → All (λ e. All P e.1) m
      → All P (newest_of_groups time m)
  unfolding newest_of_groups
  All-newest_of_groups P [] h = tt
  All-newest_of_groups P ((k, g) ∷ m) (a, h) =
      elim (Option-cases (head? (sort (newest_first time) g))) [
        | inl e ↦ rw (e, newest_of_groups) (All-newest_of_groups P m h)
        | inr (x, e) ↦
            rw (e, newest_of_groups)
              (head?-All P _ x e (All-sort (newest_first time) P g a), All-newest_of_groups P m h)
      ]

  abbrev pub HasKeys : Dict String (List InboxItem) → Type 0
  HasKeys = All (λ e. All (λ i. group_key i ≡ e.0) e.1)

  has-newest_of_groups :
      (k : String) (m : Dict String (List InboxItem))
      → HasKeys m
      → has_key k m ≡ false
      → has group_key k (newest_of_groups time m) ≡ false
  unfolding newest_of_groups
  has-newest_of_groups k [] h n = refl
  has-newest_of_groups k ((j, g) ∷ m) (a, h) n =
      elim (Option-cases (head? (sort (newest_first time) g))) [
        | inl e ↦ rw (e, newest_of_groups) (has-newest_of_groups k m h (ground arith))
        | inr (x, e) ↦
            rw (e, newest_of_groups)
              (let q : group_key x ≡ j =
                  head?-All (λ i. group_key i ≡ j) _ x e
                    (All-sort (newest_first time) (λ i. group_key i ≡ j) g a) in
                ground (arith, has-newest_of_groups k m h))
      ]

  pub newest_of_groups-IsUnique :
      (m : Dict String (List InboxItem))
      → HasKeys m
      → HasUniqueKeys m
      → IsUnique group_key (newest_of_groups time m)
  unfolding newest_of_groups
  newest_of_groups-IsUnique [] h u = tt
  newest_of_groups-IsUnique ((j, g) ∷ m) (a, h) (new, u) =
      elim (Option-cases (head? (sort (newest_first time) g))) [
        | inl e ↦ rw (e, newest_of_groups) (newest_of_groups-IsUnique m h u)
        | inr (x, e) ↦
            rw (e, newest_of_groups)
              (let q : group_key x ≡ j =
                  head?-All (λ i. group_key i ≡ j) _ x e
                    (All-sort (newest_first time) (λ i. group_key i ≡ j) g a) in
                (rw q (has-newest_of_groups j m h new), newest_of_groups-IsUnique m h u))
      ]

  Represents_head :
      (x : InboxItem) (xs : List InboxItem) (j : String) (f : List InboxItem)
      → head? (sort (newest_first time) f) ≡ some x
      → All (λ i. group_key i ≡ j) f
      → All (λ i. represents (x ∷ xs) i ≡ true) f
  Represents_head x xs j f e a =
      let q : group_key x ≡ j =
        head?-All (λ i. group_key i ≡ j) _ x e
          (All-sort (newest_first time) (λ i. group_key i ≡ j) f a) in
      All-imp (λ i. (group_key i ≡ j) × (leb (time i.created_at) (time x.created_at) ≡ true))
        (λ i. represents (x ∷ xs) i ≡ true) (λ i h. stands i q h.0 h.1) f
        (All-zip (λ i. group_key i ≡ j) (λ i. leb (time i.created_at) (time x.created_at) ≡ true) f
          a (newest f x e))
    where
      stands :
          (i : InboxItem)
          → group_key x ≡ j
          → group_key i ≡ j
          → leb (time i.created_at) (time x.created_at) ≡ true
          → represents (x ∷ xs) i ≡ true
      stands i q p b = ground arith

  Represents_tail :
      (x : InboxItem) (xs g : List InboxItem)
      → All (λ i. represents xs i ≡ true) g
      → All (λ i. represents (x ∷ xs) i ≡ true) g
  Represents_tail x xs g h =
      All-imp (λ i. represents xs i ≡ true) (λ i. represents (x ∷ xs) i ≡ true)
        (λ i r. ground arith) g h

  pub newest_of_groups-represents :
      (m : Dict String (List InboxItem)) (k : String) (g : List InboxItem)
      → HasKeys m
      → get k m ≡ some g
      → All (λ i. represents (newest_of_groups time m) i ≡ true) g
  unfolding newest_of_groups get
  newest_of_groups-represents [] k g h found = cc
  newest_of_groups-represents ((j, f) ∷ m) k g (a, h) found =
      elim (Option-cases (head? (sort (newest_first time) f))) [
        | inl e ↦ elim (string_discrete j k) [
          | yes p ↦
              subst (λ z. All (λ i. represents (newest_of_groups time ((j, f) ∷ m)) i ≡ true) z)
                (same p) (All-of_sort (newest_first time) _ f (All-of_none _ _ e))
          | no p ↦ rw (e, newest_of_groups) (newest_of_groups-represents m k g h (other p))
        ]
        | inr (x, e) ↦ elim (string_discrete j k) [
          | yes p ↦
              rw (e, newest_of_groups)
                (subst (λ z. All (λ i. represents (x ∷ newest_of_groups time m) i ≡ true) z)
                  (same p) (Represents_head x (newest_of_groups time m) j f e a))
          | no p ↦
              rw (e, newest_of_groups)
                (Represents_tail x (newest_of_groups time m) g
                  (newest_of_groups-represents m k g h (other p)))
        ]
      ]
    where
      same : j ≡ k → f ≡ g
      same p = ground arith

      other : j ≢ k → get k m ≡ some g
      other p = ground arith
