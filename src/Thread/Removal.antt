-- ===== src/Thread/Removal.antt =====
-- What deleting a comment leaves of the timeline, and what a rollback restores.
use github_idea_os_app.Base.{
  String, ◌≡◌, refl, inl, inr, Bool, true, false, not, List, [], ◌∷◌, ◌++◌, arith, Bool-cases,
  string_eq, nat_eq, option_eq, filter, All, includes, All-imp, All-filter_self, Perm,
}
use mathlib.Core.List.{perm_middle, Memᴰ}
use mathlib.Core.List.Perm
use github_idea_os_app.Types.Comment.{TimelineEntry}
use github_idea_os_app.Thread.{ids_to_remove, without_thread, removed_entries}
use github_idea_os_app.Thread.Descendants.{Descends, self, reply, ids_to_remove_iff}

-- A test that rules out the descendants, and one that keeps them.
not_included :
    (prev : List TimelineEntry) (comment_id : String) (e : TimelineEntry)
    → not (includes (ids_to_remove prev comment_id) e.id) ≡ true
    → ¬ Descends prev comment_id e.id
not_included prev comment_id e h d =
    cc ((ids_to_remove_iff prev comment_id e.id).1.1 d, not-eq-true _ h)
  where
    not-eq-true : (b : Bool) → not b ≡ true → b ≡ false
    not-eq-true b h = ground arith

-- Deleting a comment leaves no entry that is the comment or a reply below it, and removes no other.
pub without_thread-Descends :
    (prev : List TimelineEntry) (comment_id : String)
    → All (λ e. ¬ Descends prev comment_id e.id) (without_thread prev comment_id)
      × All (λ e. Descends prev comment_id e.id) (removed_entries prev comment_id)
unfolding without_thread removed_entries
without_thread-Descends prev comment_id = (
  All-filter_self (λ e. ¬ Descends prev comment_id e.id)
      (λ e. not (includes (ids_to_remove prev comment_id) e.id)) (not_included prev comment_id)
      prev,
  All-filter_self (λ e. Descends prev comment_id e.id)
      (λ e. includes (ids_to_remove prev comment_id) e.id)
      (λ e h. (ids_to_remove_iff prev comment_id e.id).1.0 h) prev,
)

Memᴰ_of_filter :
    (p : TimelineEntry → Bool) (e : TimelineEntry) (xs : List TimelineEntry)
    → Memᴰ e (filter p xs)
    → Memᴰ e xs
Memᴰ_of_filter p e [] m = m
Memᴰ_of_filter p e (x ∷ xs) m = elim (Bool-cases (p x)) [
  | inl h ↦ go (Memᴰ_of_filter p e xs) (rw h at m)
  | inr h ↦ Memᴰ.tail (Memᴰ_of_filter p e xs (rw h at m))
]
  where
    go : (Memᴰ e (filter p xs) → Memᴰ e xs) → Memᴰ e (x ∷ filter p xs) → Memᴰ e (x ∷ xs)
    go rec (Memᴰ.head q) = Memᴰ.head q
    go rec (Memᴰ.tail k) = Memᴰ.tail (rec k)

Descends-mono :
    (prev es : List TimelineEntry) (root : String)
    → ((e : TimelineEntry) → Memᴰ e es → Memᴰ e prev)
    → (x : String) → Descends es root x
    → Descends prev root x
Descends-mono prev es root h x self = self
Descends-mono prev es root h x (reply e m q w n d) =
    reply e (h e m) q w n (Descends-mono prev es root h _ d)

filter_of_All :
    (p : TimelineEntry → Bool) (xs : List TimelineEntry)
    → All (λ x. p x ≡ true) xs
    → filter p xs ≡ xs
filter_of_All p [] h = refl
filter_of_All p (x ∷ xs) (e, h) = rw (e, filter_of_All p xs h)

-- Deleting the comment again removes nothing more.
pub without_thread_idem :
    (prev : List TimelineEntry) (comment_id : String)
    → without_thread (without_thread prev comment_id) comment_id ≡ without_thread prev comment_id
unfolding without_thread
without_thread_idem prev comment_id =
    let rest = without_thread prev comment_id in
    filter_of_All (λ e. not (includes (ids_to_remove rest comment_id) e.id)) rest
      (All-imp (λ e. ¬ Descends prev comment_id e.id)
        (λ e. not (includes (ids_to_remove rest comment_id) e.id) ≡ true)
        (λ e n. elim (Bool-cases (includes (ids_to_remove rest comment_id) e.id)) [
          | inl h ↦ absurd (
              n (
                Descends-mono prev rest comment_id
                  (λ d m.
                    Memᴰ_of_filter (λ z. not (includes (ids_to_remove prev comment_id) z.id)) d prev
                      m)
                  e.id ((ids_to_remove_iff rest comment_id e.id).1.0 h)))
          | inr h ↦ rw h
        ])
        rest (without_thread-Descends prev comment_id).0)

partition-perm :
    (p : TimelineEntry → Bool) (xs : List TimelineEntry)
    → Perm (filter (λ e. not (p e)) xs ++ filter p xs) xs
partition-perm p [] = Perm.rfl
partition-perm p (x ∷ xs) = elim (Bool-cases (p x)) [
  | inl e ↦ rw e (
      Perm.trans (perm_middle (filter (λ z. not (p z)) xs) (filter p xs))
        (Perm.cons x (partition-perm p xs)))
  | inr e ↦ rw e (Perm.cons x (partition-perm p xs))
]

-- A deletion that the server refuses is rolled back to the same entries, each as often as before:
-- what was removed stands at the end.
pub without_thread-append-removed_entries :
    (prev : List TimelineEntry) (comment_id : String)
    → Perm (without_thread prev comment_id ++ removed_entries prev comment_id) prev
unfolding without_thread removed_entries
without_thread-append-removed_entries prev comment_id =
    partition-perm (λ e. includes (ids_to_remove prev comment_id) e.id) prev
