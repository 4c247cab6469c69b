-- ===== src/Thread/Sweep.antt =====
-- One round of the loop, and why the rounds end.
use github_idea_os_app.Base.{
  ℕ, zero, suc, ◌≤◌, ◌<◌, String, ◌≡◌, refl, ◌⊎◌, inl, inr, Bool, true, false, not, ◌||◌, some,
  List, [], ◌∷◌, ◌++◌, arith, Bool-cases, ◌==◌, string_eq, nat_eq, option_eq, length, filter, All,
  any-append, includes, has, All-imp,
}
use github_idea_os_app.Types.Comment.{TimelineEntry}
use github_idea_os_app.Thread.{is_new_reply, sweep, collect}

-- The entries whose id is not collected yet.
unfoldable pub missing : List TimelineEntry → List String → ℕ
missing prev ids = length (filter (λ e. not (includes ids e.id)) prev)

includes-concat :
    (ids : List String) (k x : String) → includes (ids ++ k ∷ []) x ≡ (includes ids x || k == x)
includes-concat ids k x = ground (arith, any-append (λ y. y == x) ids (k ∷ []))

missing-concat-le :
    (prev : List TimelineEntry) (ids : List String) (k : String)
    → missing prev (ids ++ k ∷ []) ≤ missing prev ids
unfolding missing
missing-concat-le [] ids k = omega arith
missing-concat-le (e ∷ prev) ids k =
    ground (arith, includes-concat ids k e.id, missing-concat-le prev ids k)

missing-concat-lt :
    (prev : List TimelineEntry) (ids : List String) (k : String)
    → has (λ (e : TimelineEntry). e.id) k prev ≡ true
    → includes ids k ≡ false
    → missing prev (ids ++ k ∷ []) < missing prev ids
unfolding missing
missing-concat-lt [] ids k h n = cc
missing-concat-lt (e ∷ prev) ids k h n =
    ground (
      arith,
      includes-concat ids k e.id,
      missing-concat-le prev ids k,
      missing-concat-lt prev ids k,
    )

-- A round adds ids of entries only, so it loses none of the missing, and fewer are missing once it
-- has added one.
sweep-missing :
    (prev es : List TimelineEntry) (ids : List String) (added : Bool)
    → All (λ e. has (λ (d : TimelineEntry). d.id) e.id prev ≡ true) es
    → (missing prev (sweep es ids added).0 ≤ missing prev ids)
      × (((sweep es ids added).1 ≡ added)
          ⊎ (missing prev (sweep es ids added).0 < missing prev ids))
unfolding sweep is_new_reply
sweep-missing prev [] ids added h = (omega arith, inl refl)
sweep-missing prev (e ∷ es) ids added (p, h) = elim (Bool-cases (is_new_reply ids e)) [
  | inl c ↦
      let (le, _) = sweep-missing prev es (ids ++ e.id ∷ []) true h in
      let lt : missing prev (ids ++ e.id ∷ []) < missing prev ids =
        missing-concat-lt prev ids e.id p (ground arith) in
      rw (c, sweep) (omega arith, inr (omega arith))
  | inr c ↦ rw (c, sweep) (sweep-missing prev es ids added h)
]

entries_are_present :
    (prev : List TimelineEntry) → All (λ e. has (λ (d : TimelineEntry). d.id) e.id prev ≡ true) prev
entries_are_present [] = tt
entries_are_present (e ∷ prev) = (
  ground arith,
  All-imp (λ x. has (λ (d : TimelineEntry). d.id) x.id prev ≡ true)
      (λ x. has (λ (d : TimelineEntry). d.id) x.id (e ∷ prev) ≡ true) (λ x h. ground arith) prev
      (entries_are_present prev),
)

-- With more fuel than ids are missing the loop ends.
pub collect_total :
    (fuel : ℕ) (prev : List TimelineEntry) (ids : List String)
    → missing prev ids < fuel
    → (r : List String) × (collect fuel prev ids ≡ some r)
unfolding collect
collect_total zero prev ids h = elim h [ ]
collect_total (suc fuel) prev ids h =
    go (λ j lt. collect_total fuel prev j lt) (sweep prev ids false)
      (sweep-missing prev prev ids false (entries_are_present prev))
  where
    go :
        ((j : List String)
          → missing prev j < fuel
          → (r : List String) × (collect fuel prev j ≡ some r))
        → (q : List String × Bool)
        → (missing prev q.0 ≤ missing prev ids)
          × ((q.1 ≡ false) ⊎ (missing prev q.0 < missing prev ids))
        → (r : List String) × ((elim q.1 [ true ↦ collect fuel prev q.0 | false ↦ some q.0 ])
            ≡ some r)
    go rec (ids', true) (le, c) = rec ids' (ground arith)
    go rec (ids', false) (le, c) = (ids', refl)
