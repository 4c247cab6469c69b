-- ===== src/ReactionBar/Laws.antt =====
-- The groups of reaction-bar.tsx.
use github_idea_os_app.Base.{
  ℕ, ◌+◌, String, ◌≡◌, refl, sym, ap, ◌∙◌, inl, inr, Bool, true, Option, none, some, List, [], ◌∷◌,
  ◌++◌, map, ◌||◌, arith, ◌==◌, if◌then◌else◌, Bool-cases, string_eq, nat_eq, option_eq, get_or,
  any, filter, length, find_key, All, IsUnique, has,
}
use mathlib.Core.List.{append_assoc, append-nil}
use github_idea_os_app.Base.Dict.{Dict, get, set, get-set, HasUniqueKeys, set-HasUniqueKeys}
use github_idea_os_app.ReactionBar.{
  ReactionItem, Actor, GroupedReaction, new_group, actor_of, is_mine, add_to_group, group_all,
  group_reactions,
}

equal_texts : (a b : String) → (a == b) ≡ true → a ≡ b
equal_texts a b h = ground arith

-- A group with some more reactions, told apart from the loop.
abbrev pub with_reactions : Option String → List ReactionItem → GroupedReaction → GroupedReaction
with_reactions user rs g = record {
  emoji = g.emoji;
  count = g.count + length rs;
  reacted = g.reacted || any (is_mine user) rs;
  actors = g.actors ++ map actor_of rs;
}

-- The reactions with an emoji.
abbrev pub reactions_with : String → List ReactionItem → List ReactionItem
reactions_with k rs = filter (λ r. r.emoji == k) rs

group_congr :
    {c d : ℕ} {p q : Bool} {as_c as_d : List Actor} (emoji : String)
    → c ≡ d
    → p ≡ q
    → as_c ≡ as_d
    → Path GroupedReaction
        (record { emoji = emoji; count = c; reacted = p; actors = as_c })
        (record { emoji = emoji; count = d; reacted = q; actors = as_d })
group_congr emoji e f g = rw (e, f, g) refl

from_zero : (n : ℕ) → 0 + n ≡ n
from_zero n = omega arith

or_later : (a b c : Bool) → ((if a then true else b) || c) ≡ (b || (a || c))
or_later a b c = ground arith

module _ (user : Option String) where
  held : String → List ReactionItem → Option GroupedReaction → Option GroupedReaction
  held k [] o = o
  held k (r ∷ rs) o =
      held k rs
        (if r.emoji == k then some (add_to_group user r (get_or o (new_group r.emoji))) else o)

  get-group_all-held :
      (k : String) (rs : List ReactionItem) (m : Dict String GroupedReaction)
      → get k (group_all user rs m) ≡ held k rs (get k m)
  unfolding held group_all
  get-group_all-held k [] m = refl
  get-group_all-held k (r ∷ rs) m =
      get-group_all-held k rs
        (set r.emoji (add_to_group user r (get_or (get r.emoji m) (new_group r.emoji))) m)
      ∙ ap (held k rs) (
          ground (
            arith,
            get-set r.emoji k (add_to_group user r (get_or (get r.emoji m) (new_group r.emoji))) m,
          ))

  with_reactions-add :
      (r : ReactionItem) (rs : List ReactionItem) (g : GroupedReaction)
      → with_reactions user rs (add_to_group user r g) ≡ with_reactions user (r ∷ rs) g
  with_reactions-add r rs g =
      group_congr g.emoji (omega arith)
        (or_later (is_mine user r) g.reacted (any (is_mine user) rs))
        (append_assoc g.actors (actor_of r ∷ []) (map actor_of rs))

  with_reactions-nil : (g : GroupedReaction) → with_reactions user [] g ≡ g
  with_reactions-nil g = group_congr g.emoji (omega arith) (ground arith) (append-nil g.actors)

  held-some :
      (k : String) (rs : List ReactionItem) (g : GroupedReaction)
      → held k rs (some g) ≡ some (with_reactions user (reactions_with k rs) g)
  unfolding held
  held-some k [] g = ap some (sym (with_reactions-nil g))
  held-some k (r ∷ rs) g = elim (Bool-cases (r.emoji == k)) [
    | inl e ↦ rw e (
        held-some k rs (add_to_group user r g)
        ∙ ap some (with_reactions-add r (reactions_with k rs) g))
    | inr e ↦ rw e (held-some k rs g)
  ]

  held-none :
      (k : String) (rs : List ReactionItem)
      → held k rs none ≡ (
          if any (λ r. r.emoji == k) rs
          then some (with_reactions user (reactions_with k rs) (new_group k))
          else none)
  unfolding held
  held-none k [] = refl
  held-none k (r ∷ rs) = elim (Bool-cases (r.emoji == k)) [
    | inl e ↦ rw e (
        held-some k rs (add_to_group user r (new_group r.emoji))
        ∙ ap some (
            with_reactions-add r (reactions_with k rs) (new_group r.emoji)
            ∙ ap (λ emoji. with_reactions user (r ∷ reactions_with k rs) (new_group emoji))
                (equal_texts r.emoji k e)))
    | inr e ↦ rw e (held-none k rs)
  ]

abbrev pub emoji_of : GroupedReaction → String
emoji_of g = g.emoji

abbrev values : Dict String GroupedReaction → List GroupedReaction
values m = map (λ e. e.1) m

-- Every group stands under its emoji.
IsFiled : Dict String GroupedReaction → Type 0
IsFiled m = All (λ (e : String × GroupedReaction). e.1.emoji ≡ e.0) m

emoji_of_get :
    (k : String) (m : Dict String GroupedReaction)
    → IsFiled m
    → (get_or (get k m) (new_group k)).emoji ≡ k
unfolding IsFiled get
emoji_of_get k [] h = refl
emoji_of_get k ((j, g) ∷ m) h = elim (Bool-cases (j == k)) [
  | inl e ↦ rw e (h.0 ∙ equal_texts j k e)
  | inr e ↦ rw e (emoji_of_get k m h.1)
]

set-IsFiled :
    (k : String) (g : GroupedReaction) (m : Dict String GroupedReaction)
    → g.emoji ≡ k
    → IsFiled m
    → IsFiled (set k g m)
unfolding IsFiled set
set-IsFiled k g [] e h = (e, tt)
set-IsFiled k g ((j, w) ∷ m) e h = elim (Bool-cases (j == k)) [
  | inl f ↦ rw f (e ∙ sym (equal_texts j k f), h.1)
  | inr f ↦ rw f (h.0, set-IsFiled k g m e h.1)
]

find_key-values :
    (k : String) (m : Dict String GroupedReaction)
    → IsFiled m
    → find_key emoji_of k (values m) ≡ get k m
unfolding IsFiled get
find_key-values k [] h = refl
find_key-values k ((j, g) ∷ m) h =
    ap (λ x. if x == k then some g else find_key emoji_of k (values m)) h.0
    ∙ ap (λ o. if j == k then some g else o) (find_key-values k m h.1)

has-values :
    (k : String) (m : Dict String GroupedReaction)
    → IsFiled m
    → has emoji_of k (values m) ≡ has (λ (e : String × GroupedReaction). e.0) k m
unfolding IsFiled
has-values k [] h = refl
has-values k ((j, g) ∷ m) h =
    ap (λ x. x == k || has emoji_of k (values m)) h.0 ∙ ap (λ b. j == k || b) (has-values k m h.1)

values-IsUnique :
    (m : Dict String GroupedReaction) → IsFiled m → HasUniqueKeys m → IsUnique emoji_of (values m)
unfolding IsFiled
values-IsUnique [] h u = u
values-IsUnique ((j, g) ∷ m) h (new, u) =
    (ap (λ x. has emoji_of x (values m)) h.0 ∙ has-values j m h.1 ∙ new, values-IsUnique m h.1 u)

module _ (user : Option String) where
  group_all-IsFiled :
      (rs : List ReactionItem) (m : Dict String GroupedReaction)
      → IsFiled m
      → IsFiled (group_all user rs m)
  unfolding group_all
  group_all-IsFiled [] m h = h
  group_all-IsFiled (r ∷ rs) m h =
      group_all-IsFiled rs _ (set-IsFiled r.emoji _ m (emoji_of_get r.emoji m h) h)

  group_all-HasUniqueKeys :
      (rs : List ReactionItem) (m : Dict String GroupedReaction)
      → HasUniqueKeys m
      → HasUniqueKeys (group_all user rs m)
  unfolding group_all
  group_all-HasUniqueKeys [] m u = u
  group_all-HasUniqueKeys (r ∷ rs) m u =
      group_all-HasUniqueKeys rs _ (set-HasUniqueKeys r.emoji _ m u)

  -- No emoji has two groups, and for every emoji there is a group exactly when some reaction has it. Its count is the number of
  -- these reactions, its actors are theirs in the same order, and it is marked exactly when one of
  -- them is the current user's.
  pub group_reactions_lem :
      (k : String) (rs : List ReactionItem)
      → IsUnique emoji_of (group_reactions rs user)
        × (find_key emoji_of k (group_reactions rs user) ≡ (
            if any (λ r. r.emoji == k) rs
            then some (record {
              emoji = k;
              count = length (reactions_with k rs);
              reacted = any (is_mine user) (reactions_with k rs);
              actors = map actor_of (reactions_with k rs);
            })
            else none))
  unfolding group_reactions get IsFiled
  group_reactions_lem k rs = (
    values-IsUnique (group_all user rs []) (group_all-IsFiled rs [] tt)
        (group_all-HasUniqueKeys rs [] tt),
    find_key-values k (group_all user rs []) (group_all-IsFiled rs [] tt)
        ∙ get-group_all-held user k rs []
        ∙ held-none user k rs
        ∙ ap
            (λ c.
              if any (λ r. r.emoji == k) rs
              then some (record {
                emoji = k;
                count = c;
                reacted = any (is_mine user) (reactions_with k rs);
                actors = map actor_of (reactions_with k rs);
              })
              else none)
            (from_zero (length (reactions_with k rs))),
  )
