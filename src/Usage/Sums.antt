-- ===== src/Usage/Sums.antt =====
-- Adding up the elements of an array by a key, in a map.
use github_idea_os_app.Base.{
  Ordering, String, ◌≡◌, refl, ap, ◌∙◌, inl, inr, false, Option, none, some, List, [], ◌∷◌, map,
  arith, if◌then◌else◌, Bool-cases, Eq, ◌==◌, string_eq, nat_eq, option_eq, get_or, any, has,
  IsUnique, map_option, find_key,
}
use github_idea_os_app.Base.Dict.{Dict, get, set, get-set, HasUniqueKeys, set-HasUniqueKeys}
use github_idea_os_app.Base.Sort.{sort, insert, any-sort}

module _ {ℓ κ} {A : Type ℓ} {V : Type κ} (key : A → String) (add : A → V → V) (none_yet : V) where
  -- The loop with `map.get(key) ?? none_yet` and `map.set(key, …)`.
  abbrev pub group : List A → Dict String V → Dict String V
  group [] m = m
  group (a ∷ as_rest) m = group as_rest (set (key a) (add a (get_or (get (key a) m) none_yet)) m)

  -- The sum of the elements with a key.
  abbrev pub total : String → List A → V → V
  total k [] v = v
  total k (a ∷ rest) v = total k rest (if key a == k then add a v else v)

  held : String → List A → Option V → Option V
  held k [] o = o
  held k (a ∷ rest) o = held k rest (if key a == k then some (add a (get_or o none_yet)) else o)

  held-some : (k : String) (xs : List A) (v : V) → held k xs (some v) ≡ some (total k xs v)
  unfolding held
  held-some k [] v = refl
  held-some k (a ∷ rest) v = elim (Bool-cases (key a == k)) [
    | inl e ↦ rw e (held-some k rest (add a v))
    | inr e ↦ rw e (held-some k rest v)
  ]

  held-none :
      (k : String) (xs : List A)
      → held k xs none ≡ (if any (λ a. key a == k) xs then some (total k xs none_yet) else none)
  unfolding held
  held-none k [] = refl
  held-none k (a ∷ rest) = elim (Bool-cases (key a == k)) [
    | inl e ↦ rw e (held-some k rest (add a none_yet))
    | inr e ↦ rw e (held-none k rest)
  ]

  get-group-held :
      (k : String) (xs : List A) (m : Dict String V) → get k (group xs m) ≡ held k xs (get k m)
  unfolding held
  get-group-held k [] m = refl
  get-group-held k (a ∷ rest) m =
      get-group-held k rest (set (key a) (add a (get_or (get (key a) m) none_yet)) m)
      ∙ ap (held k rest)
          (ground (arith, get-set (key a) k (add a (get_or (get (key a) m) none_yet)) m))

  -- A key of the array has its sum in the map; no other key is there.
  pub get-group :
      (k : String) (xs : List A)
      → get k (group xs [])
        ≡ (if any (λ a. key a == k) xs then some (total k xs none_yet) else none)
  unfolding get
  get-group k xs = get-group-held k xs [] ∙ held-none k xs

  pub group-HasUniqueKeys :
      (xs : List A) (m : Dict String V) → HasUniqueKeys m → HasUniqueKeys (group xs m)
  group-HasUniqueKeys [] m u = u
  group-HasUniqueKeys (a ∷ rest) m u =
      group-HasUniqueKeys rest (set (key a) (add a (get_or (get (key a) m) none_yet)) m)
        (set-HasUniqueKeys (key a) (add a (get_or (get (key a) m) none_yet)) m u)

module _ {ℓ κ} {A : Type ℓ} {K : Type κ} ⦃e : Eq K⦄ (key : A → K) (cmp : A → A → Ordering) where
  find_key-insert :
      (k : K) (x : A) (ys : List A)
      → has key (key x) ys ≡ false
      → find_key key k (insert cmp x ys) ≡ find_key key k (x ∷ ys)
  unfolding insert
  find_key-insert k x [] h = refl
  find_key-insert k x (y ∷ ys) h = ground (arith, find_key-insert k x ys)

  -- Sorting changes nothing of what is found by a key, when the keys are distinct.
  pub find_key-sort :
      (k : K) (xs : List A) → IsUnique key xs → find_key key k (sort cmp xs) ≡ find_key key k xs
  unfolding sort
  find_key-sort k [] u = refl
  find_key-sort k (x ∷ xs) (new, u) =
      find_key-insert k x (sort cmp xs) (any-sort cmp (λ y. key y == key x) xs ∙ new)
      ∙ ground (arith, find_key-sort k xs u)

pub find_key-get :
    {V : Type 0} (k : String) (m : Dict String V)
    → find_key (λ e. e.0) k m ≡ map_option (λ v. (k, v)) (get k m)
unfolding get
find_key-get k [] = refl
find_key-get k ((j, v) ∷ m) = ground (arith, find_key-get k m)

pub find_key-map :
    {B C : Type 0} (f : B → C) (key_b : B → String) (key_c : C → String)
    → ((b : B) → key_c (f b) ≡ key_b b)
    → (k : String) (xs : List B) → find_key key_c k (map f xs) ≡ map_option f (find_key key_b k xs)
find_key-map f key_b key_c h k [] = refl
find_key-map f key_b key_c h k (x ∷ xs) = ground (arith, h x, find_key-map f key_b key_c h k xs)

has-map_key :
    {B C : Type 0} (f : B → C) (key_b : B → String) (key_c : C → String)
    → ((b : B) → key_c (f b) ≡ key_b b)
    → (k : String) (xs : List B) → has key_c k (map f xs) ≡ has key_b k xs
has-map_key f key_b key_c h k [] = refl
has-map_key f key_b key_c h k (x ∷ xs) = ground (arith, h x, has-map_key f key_b key_c h k xs)

pub map-IsUnique :
    {B C : Type 0} (f : B → C) (key_b : B → String) (key_c : C → String)
    → ((b : B) → key_c (f b) ≡ key_b b)
    → (xs : List B) → IsUnique key_b xs
    → IsUnique key_c (map f xs)
map-IsUnique f key_b key_c h [] u = tt
map-IsUnique f key_b key_c h (x ∷ xs) (new, u) =
    (rw (h x) (has-map_key f key_b key_c h (key_b x) xs ∙ new), map-IsUnique f key_b key_c h xs u)
