-- ===== src/Thread/Descendants.antt =====
-- The ids that the loop collects, and the entries that reply to a comment.
use github_idea_os_app.Base.{
  ℕ, zero, suc, ◌<◌, String, ◌≡◌, refl, sym, subst, ◌↔◌, ◌⊎◌, inl, inr, Bool, true, false, not,
  ◌&&◌, Option, none, some, List, [], ◌∷◌, ◌++◌, arith, Bool-cases, ◌==◌, string_eq,
  string_discrete, nat_eq, option_eq, is_nonempty, length, All, length-filter-le, includes,
  any-eq_true, All-append,
}
use mathlib.Core.List.{Memᴰ}
use github_idea_os_app.Types.Comment.{TimelineEntry}
use github_idea_os_app.Thread.{has_parent_in, is_new_reply, sweep, collect, ids_to_remove}
use github_idea_os_app.Thread.Sweep.{missing, collect_total}

-- `x` is the id of the comment `root`, or of an entry of the timeline whose parent is such an id.
-- An empty parent id is no parent.
pub data Descends (prev : List TimelineEntry) (root : String) : String → Type 0 where
  self : Descends prev root root
  reply :
      {x p : String} (e : TimelineEntry)
      → Memᴰ e prev
      → e.id ≡ x
      → e.parent_id ≡ some p
      → is_nonempty p ≡ true
      → Descends prev root p
      → Descends prev root x

-- No entry is left that replies to a collected id and is not collected.
abbrev pub IsClosed : List String → List TimelineEntry → Type 0
IsClosed ids = All (λ e. is_new_reply ids e ≡ false)

module _ (prev : List TimelineEntry) (root : String) where
  Descends-of_includes :
      (ids : List String) (p : String)
      → All (Descends prev root) ids
      → includes ids p ≡ true
      → Descends prev root p
  Descends-of_includes [] p h e = cc
  Descends-of_includes (x ∷ ids) p (d, h) e = elim (string_discrete x p) [
    | yes q ↦ subst (Descends prev root) q d
    | no q ↦ Descends-of_includes ids p h (ground arith)
  ]

  Descends-of_new_reply :
      (ids : List String) (e : TimelineEntry) (parent : Option String)
      → e.parent_id ≡ parent
      → Memᴰ e prev
      → All (Descends prev root) ids
      → has_parent_in ids parent ≡ true
      → Descends prev root e.id
  Descends-of_new_reply ids e none q m h c = cc
  Descends-of_new_reply ids e (some p) q m h c =
      reply e m refl q (ground arith) (Descends-of_includes ids p h (ground arith))

  sweep-Descends :
      (es : List TimelineEntry) (ids : List String) (added : Bool)
      → ((e : TimelineEntry) → Memᴰ e es → Memᴰ e prev)
      → All (Descends prev root) ids
      → All (Descends prev root) (sweep es ids added).0
  unfolding sweep is_new_reply
  sweep-Descends [] ids added m h = h
  sweep-Descends (e ∷ es) ids added m h = elim (Bool-cases (is_new_reply ids e)) [
    | inl c ↦
        rw (c, sweep)
          (sweep-Descends es (ids ++ e.id ∷ []) true (λ d k. m d (Memᴰ.tail k))
            (All-append (Descends prev root) ids (e.id ∷ []) h (
              Descends-of_new_reply ids e e.parent_id refl (m e (Memᴰ.head refl)) h (ground arith),
              tt,
            )))
    | inr c ↦ rw (c, sweep) (sweep-Descends es ids added (λ d k. m d (Memᴰ.tail k)) h)
  ]

  collect-Descends :
      (fuel : ℕ) (ids r : List String)
      → All (Descends prev root) ids
      → collect fuel prev ids ≡ some r
      → All (Descends prev root) r
  unfolding collect
  collect-Descends zero ids r h e = cc
  collect-Descends (suc fuel) ids r h e =
      go (sweep prev ids false) (sweep-Descends prev ids false (λ d k. k) h)
        (λ j a q. collect-Descends fuel j r a q) e
    where
      go :
          (q : List String × Bool)
          → All (Descends prev root) q.0
          → ((j : List String)
              → All (Descends prev root) j
              → collect fuel prev j ≡ some r
              → All (Descends prev root) r)
          → (elim q.1 [ true ↦ collect fuel prev q.0 | false ↦ some q.0 ]) ≡ some r
          → All (Descends prev root) r
      go (ids', true) a rec e' = rec ids' a e'
      go (ids', false) a rec e' = subst (All (Descends prev root)) (cc) a

-- The flag stays down only if nothing was added, and then nothing is left to add.
sweep_unchanged :
    (es : List TimelineEntry) (ids : List String) (added : Bool)
    → (sweep es ids added).1 ≡ false
    → (added ≡ false) × ((sweep es ids added).0 ≡ ids) × IsClosed ids es
unfolding sweep
sweep_unchanged [] ids added h = (h, refl, tt)
sweep_unchanged (e ∷ es) ids added h = elim (Bool-cases (is_new_reply ids e)) [
  | inl c ↦ absurd (cc ((sweep_unchanged es _ true (rw (c, sweep) at h)).0))
  | inr c ↦
      let (a, b, d) = sweep_unchanged es ids added (rw (c, sweep) at h) in
      rw (c, sweep) (a, b, (refl, d))
]

sweep-includes :
    (es : List TimelineEntry) (ids : List String) (added : Bool) (x : String)
    → includes ids x ≡ true
    → includes (sweep es ids added).0 x ≡ true
unfolding sweep
sweep-includes [] ids added x h = h
sweep-includes (e ∷ es) ids added x h = elim (Bool-cases (is_new_reply ids e)) [
  | inl c ↦
      rw (c, sweep)
        (sweep-includes es (ids ++ e.id ∷ []) true x (any-eq_true (λ y. y == x) ids _ h))
  | inr c ↦ rw (c, sweep) (sweep-includes es ids added x h)
]

collect-IsClosed :
    (fuel : ℕ) (prev : List TimelineEntry) (ids r : List String) (x : String)
    → collect fuel prev ids ≡ some r
    → IsClosed r prev × ((includes ids x ≡ false) ⊎ (includes r x ≡ true))
unfolding collect
collect-IsClosed zero prev ids r x e = cc
collect-IsClosed (suc fuel) prev ids r x e =
    go (sweep prev ids false) (sweep_unchanged prev ids false) (sweep-includes prev ids false x)
      (λ j q. collect-IsClosed fuel prev j r x q) e
  where
    go :
        (q : List String × Bool)
        → (q.1 ≡ false → (false ≡ false) × (q.0 ≡ ids) × IsClosed ids prev)
        → (includes ids x ≡ true → includes q.0 x ≡ true)
        → ((j : List String)
            → collect fuel prev j ≡ some r
            → IsClosed r prev × ((includes j x ≡ false) ⊎ (includes r x ≡ true)))
        → (elim q.1 [ true ↦ collect fuel prev q.0 | false ↦ some q.0 ]) ≡ some r
        → IsClosed r prev × ((includes ids x ≡ false) ⊎ (includes r x ≡ true))
    go (j, true) u k rec e' = let (c, d) = rec j e' in (c, ground arith)
    go (j, false) u k rec e' =
        let (_, b, c) = u refl in
        let same : ids ≡ r = cc in (subst (λ i. IsClosed i prev) same c, ground arith)

All-Memᴰ {κ} :
    (P : TimelineEntry → Type κ) (e : TimelineEntry) (xs : List TimelineEntry)
    → Memᴰ e xs
    → All P xs
    → P e
All-Memᴰ P e xs (Memᴰ.head q) (p, h) = subst P (sym q) p
All-Memᴰ P e xs (Memᴰ.tail m) (p, h) = All-Memᴰ P e _ m h

bool_lem : (a b c : Bool) → (a && b && not c) ≡ false → a ≡ true → b ≡ true → c ≡ true
bool_lem a b c h p q = ground arith

closed_reply :
    (r : List String) (e : TimelineEntry) (o : Option String) (p : String)
    → (has_parent_in r o && not (includes r e.id)) ≡ false
    → o ≡ some p
    → is_nonempty p ≡ true
    → includes r p ≡ true
    → includes r e.id ≡ true
closed_reply r e none p k w n i = cc
closed_reply r e (some q) p k w n i =
    let same : q ≡ p = cc in
    bool_lem (is_nonempty p) (includes r p) (includes r e.id)
      (subst (λ z. (is_nonempty z && includes r z && not (includes r e.id)) ≡ false) same (k)) n i

includes_of_Descends :
    (prev : List TimelineEntry) (root : String) (r : List String)
    → IsClosed r prev
    → includes r root ≡ true
    → (x : String) → Descends prev root x
    → includes r x ≡ true
unfolding is_new_reply
includes_of_Descends prev root r c h x self = h
includes_of_Descends prev root r c h x (reply {p = p} e m q parent n d) =
    subst (λ z. includes r z ≡ true) q
      (closed_reply r e e.parent_id p (All-Memᴰ (λ e'. is_new_reply r e' ≡ false) e prev m c) parent
        n (includes_of_Descends prev root r c h p d))

enough : (prev : List TimelineEntry) (ids : List String) → missing prev ids < suc (length prev)
unfolding missing
enough prev ids =
    omega (arith, length-filter-le (λ (e : TimelineEntry). not (includes ids e.id)) prev)

-- The loop ends within its fuel, and what it has collected are exactly the comment and the entries
-- that reply to it, directly or through other replies.
pub ids_to_remove_iff :
    (prev : List TimelineEntry) (comment_id x : String)
    → (collect (suc (length prev)) prev (comment_id ∷ []) ≡ some (ids_to_remove prev comment_id))
      × ((includes (ids_to_remove prev comment_id) x ≡ true) ↔ Descends prev comment_id x)
unfolding ids_to_remove
ids_to_remove_iff prev comment_id x =
    let ids = comment_id ∷ [] in
    let (r, e) = collect_total (suc (length prev)) prev ids (enough prev ids) in
    let sound = collect-Descends prev comment_id (suc (length prev)) ids r (self, tt) e in
    let (closed, has_root) = collect-IsClosed (suc (length prev)) prev ids r comment_id e in
    rw (e, ids_to_remove)
      (
        refl,
        (
          λ h. Descends-of_includes prev comment_id r x sound h,
          λ d. includes_of_Descends prev comment_id r closed (ground arith) x d,
        ),
      )
