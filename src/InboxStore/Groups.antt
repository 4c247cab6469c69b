-- ===== src/InboxStore/Groups.antt =====
-- The groups of `deduplicate`, in the order in which their keys first occur.
use github_idea_os_app.Base.{
  String, ◌≡◌, refl, sym, ap, subst, ◌∙◌, inl, inr, true, some, List, [], ◌∷◌, ◌++◌, arith,
  if◌then◌else◌, Bool-cases, ◌==◌, string_eq, string_discrete, nat_eq, option_eq, get_or, filter,
  head?, All, All-imp,
}
use github_idea_os_app.Base.Dict.{Dict, get, get-set, HasUniqueKeys, set-HasUniqueKeys, All-get}
use github_idea_os_app.Types.Inbox.{InboxItem}
use github_idea_os_app.InboxStore.{group_key, add_to_group, group_items}

-- The items of a list whose group has the key `k`, in order.
abbrev pub group_of : String → List InboxItem → List InboxItem
group_of k = filter (λ i. group_key i == k)

pub group_items-HasUniqueKeys :
    (items : List InboxItem) (m : Dict String (List InboxItem))
    → HasUniqueKeys m
    → HasUniqueKeys (group_items items m)
unfolding group_items add_to_group
group_items-HasUniqueKeys [] m u = u
group_items-HasUniqueKeys (i ∷ items) m u =
    group_items-HasUniqueKeys items (add_to_group m i) (set-HasUniqueKeys (group_key i) _ m u)

append_snoc :
    (xs : List InboxItem) (i : InboxItem) (ys : List InboxItem)
    → (xs ++ i ∷ []) ++ ys ≡ xs ++ (i ∷ ys)
append_snoc [] i ys = refl
append_snoc (x ∷ xs) i ys = rw (append_snoc xs i ys)

append_nil : (xs : List InboxItem) → xs ++ [] ≡ xs
append_nil [] = refl
append_nil (x ∷ xs) = rw (append_nil xs)

get-add_to_group :
    (m : Dict String (List InboxItem)) (i : InboxItem) (k : String) (rest : List InboxItem)
    → get_or (get k (add_to_group m i)) [] ++ rest
      ≡ get_or (get k m) [] ++ (if group_key i == k then i ∷ rest else rest)
unfolding add_to_group
get-add_to_group m i k rest = elim (string_discrete (group_key i) k) [
  | yes p ↦ ground (
    arith,
    get-set (group_key i) k (get_or (get (group_key i) m) [] ++ i ∷ []) m,
    append_snoc (get_or (get (group_key i) m) []) i rest,
  )
  | no p ↦ ground (arith, get-set (group_key i) k (get_or (get (group_key i) m) [] ++ i ∷ []) m)
]

-- The group of a key holds the items of that key, in order.
pub get-group_items :
    (items : List InboxItem) (m : Dict String (List InboxItem)) (k : String)
    → get_or (get k (group_items items m)) [] ≡ get_or (get k m) [] ++ group_of k items
unfolding group_items
get-group_items [] m k = sym (append_nil _)
get-group_items (i ∷ items) m k =
    get-group_items items (add_to_group m i) k ∙ get-add_to_group m i k (group_of k items)

-- Every group is the part of the items that has its key.
pub groups_lem :
    (items : List InboxItem) → All (λ e. e.1 ≡ group_of e.0 items) (group_items items [])
unfolding get
groups_lem items =
    All-imp (λ e. get e.0 (group_items items []) ≡ some e.1) (λ e. e.1 ≡ group_of e.0 items)
      (λ e h. found e.0 e.1 h) (group_items items [])
      (All-get (group_items items []) (group_items-HasUniqueKeys items [] tt))
  where
    found :
        (k : String) (g : List InboxItem)
        → get k (group_items items []) ≡ some g
        → g ≡ group_of k items
    found k g h = sym (ap (λ o. get_or o []) h) ∙ get-group_items items [] k

pub head?-All {κ} :
    (P : InboxItem → Type κ) (s : List InboxItem) (x : InboxItem) → head? s ≡ some x → All P s → P x
head?-All P [] x h a = cc
head?-All P (y ∷ s) x h (p, a) = subst P (cc) p

group_of_tail {κ} :
    (P : InboxItem → Type κ) (x : InboxItem) (xs : List InboxItem) (k : String)
    → All P (group_of k (x ∷ xs))
    → All P (group_of k xs)
group_of_tail P x xs k h = elim (Bool-cases (group_key x == k)) [
  | inl e ↦ (rw e at h).1
  | inr e ↦ rw e at h
]

group_of_head {κ} :
    (P : InboxItem → Type κ) (x : InboxItem) (xs : List InboxItem)
    → All P (group_of (group_key x) (x ∷ xs))
    → P x
group_of_head P x xs h = let e : (group_key x == group_key x) ≡ true = ground arith in (rw e at h).0

-- What holds of every group holds of all items.
pub All-of_groups {κ} :
    (P : InboxItem → Type κ) (xs : List InboxItem)
    → ((k : String) → All P (group_of k xs))
    → All P xs
All-of_groups P [] h = tt
All-of_groups P (x ∷ xs) h =
    (group_of_head P x xs (h (group_key x)), All-of_groups P xs (λ k. group_of_tail P x xs k (h k)))
