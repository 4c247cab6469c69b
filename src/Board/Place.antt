-- ===== src/Board/Place.antt =====
-- Where a new position lies.
use github_idea_os_app.Base.{
  ℕ, suc, ◌+◌, ◌-◌, ◌≡◌, refl, true, false, List, [], ◌∷◌, ◌++◌, arith, ◌==◌, string_eq, nat_eq,
  option_eq, leb, length, is_empty, length-append, subst,
}
use github_idea_os_app.Base.Int.{ℤ, pos, negsuc, compare_ℤ}
use github_idea_os_app.Base.Sort.{in_order}
use github_idea_os_app.Types.Issue.{Issue}
use native.Mathlib.Decide.{ℕ_discrete}
use github_idea_os_app.Board.{add_ℤ, double, one, position_at, compute_position}

-- The integer is at most the other one.
abbrev pub IsAtMost : ℤ → ℤ → Type 0
IsAtMost a b = in_order compare_ℤ a b ≡ true

-- What rounding to the nearest double promises when nothing overflows: it keeps the order, and it
-- changes no double.
pub record Rounds (IsDouble : ℤ → Type 0) (round_half : ℤ → ℤ) : Type 0 where
  pub monotone : (m n : ℤ) → IsAtMost m n → IsAtMost (round_half m) (round_half n)
  pub exact : (a : ℤ) → IsDouble a → round_half (double a) ≡ a

next-IsAtMost : (a : ℤ) (k : ℕ) → IsAtMost (double a) (double (add_ℤ a (pos k)))
unfolding add_ℤ
next-IsAtMost (pos a) k = ground arith
next-IsAtMost (negsuc a) k = ground arith

previous-IsAtMost : (a : ℤ) (k : ℕ) → IsAtMost (double (add_ℤ a (negsuc k))) (double a)
unfolding add_ℤ
previous-IsAtMost (pos a) k = ground arith
previous-IsAtMost (negsuc a) k = ground arith

first-IsAtMost : (a b : ℤ) → IsAtMost a b → IsAtMost (double (double a)) (double (add_ℤ a b))
unfolding add_ℤ
first-IsAtMost (pos a) (pos b) h = ground arith
first-IsAtMost (pos a) (negsuc b) h = cc
first-IsAtMost (negsuc a) (pos b) h = ground arith
first-IsAtMost (negsuc a) (negsuc b) h = ground arith

second-IsAtMost : (a b : ℤ) → IsAtMost a b → IsAtMost (double (add_ℤ a b)) (double (double b))
unfolding add_ℤ
second-IsAtMost (pos a) (pos b) h = ground arith
second-IsAtMost (pos a) (negsuc b) h = cc
second-IsAtMost (negsuc a) (pos b) h = ground arith
second-IsAtMost (negsuc a) (negsuc b) h = ground arith

position_at-append :
    (xs ys : List Issue) (b : Issue) → position_at (length xs) (xs ++ b ∷ ys) ≡ b.position
unfolding position_at
position_at-append [] ys b = refl
position_at-append (x ∷ xs) ys b = position_at-append xs ys b

position_before :
    (xs ys : List Issue) (a b : Issue) → position_at (length xs) (xs ++ a ∷ b ∷ ys) ≡ a.position
position_before xs ys a b = position_at-append xs (b ∷ ys) a

position_after :
    (xs ys : List Issue) (a b : Issue)
    → position_at (suc (length xs)) (xs ++ a ∷ b ∷ ys) ≡ b.position
unfolding position_at
position_after [] ys a b = refl
position_after (x ∷ xs) ys a b = position_after xs ys a b

nonempty-append : (xs ys : List Issue) (a : Issue) → is_empty (xs ++ a ∷ ys) ≡ false
nonempty-append [] ys a = refl
nonempty-append (x ∷ xs) ys a = refl

end_index : (n : ℕ) → ((n + 1 == 0) ≡ false) × (leb (n + 1) (n + 1) ≡ true) × ((n + 1) - 1 ≡ n)
end_index n = (ground arith, ground arith, omega arith)

middle_index :
    (n k : ℕ) → ((suc n == 0) ≡ false) × (leb (n + suc (suc k)) (suc n) ≡ false) × (suc n - 1 ≡ n)
middle_index n k = (ground arith, ground arith, omega arith)

module _ (IsDouble : ℤ → Type 0) (round_half : ℤ → ℤ) (r : Rounds IsDouble round_half) where
  above : (a n : ℤ) → IsDouble a → IsAtMost (double a) n → IsAtMost a (round_half n)
  above a n d h = subst (λ x. IsAtMost x (round_half n)) (r.exact a d) (r.monotone (double a) n h)

  below : (n a : ℤ) → IsDouble a → IsAtMost n (double a) → IsAtMost (round_half n) a
  below n a d h = subst (λ x. IsAtMost (round_half n) x) (r.exact a d) (r.monotone n (double a) h)

  at_front :
      (b : Issue) (ys : List Issue)
      → compute_position round_half (b ∷ ys) 0
        ≡ round_half (double (add_ℤ b.position (negsuc (one - 1))))
  unfolding compute_position position_at ℕ_discrete
  at_front b ys = refl

  at_end :
      (xs : List Issue) (a : Issue)
      → compute_position round_half (xs ++ a ∷ []) (length (xs ++ a ∷ []))
        ≡ round_half (double (add_ℤ a.position (pos one)))
  unfolding compute_position
  at_end xs a =
      let (nonzero, past, before) = end_index (length xs) in
      rw
        (
          nonempty-append xs [] a,
          length-append xs (a ∷ []),
          nonzero,
          past,
          before,
          position_at-append xs [] a,
        )
        refl

  between :
      (xs ys : List Issue) (a b : Issue)
      → compute_position round_half (xs ++ a ∷ b ∷ ys) (suc (length xs))
        ≡ round_half (round_half (double (add_ℤ a.position b.position)))
  unfolding compute_position
  between xs ys a b =
      let (nonzero, inside, before) = middle_index (length xs) (length ys) in
      rw
        (
          nonempty-append xs (b ∷ ys) a,
          length-append xs (a ∷ b ∷ ys),
          nonzero,
          inside,
          before,
          position_before xs ys a b,
          position_after xs ys a b,
        )
        refl

  -- A card put in front of the first card of a column, behind the last one, or between two cards in
  -- order gets a position that is not on the other side of its neighbours, as long as nothing
  -- overflows. Rounding may give it the position of a neighbour.
  pub compute_position_lem :
      (xs ys : List Issue) (a b : Issue)
      → IsDouble a.position
      → IsDouble b.position
      → IsDouble (double a.position)
      → IsDouble (double b.position)
      → IsAtMost a.position b.position
      → IsAtMost (compute_position round_half (b ∷ ys) 0) b.position
        × IsAtMost a.position (compute_position round_half (xs ++ a ∷ []) (length (xs ++ a ∷ [])))
        × IsAtMost a.position (compute_position round_half (xs ++ a ∷ b ∷ ys) (suc (length xs)))
        × IsAtMost (compute_position round_half (xs ++ a ∷ b ∷ ys) (suc (length xs))) b.position
  compute_position_lem xs ys a b da db da2 db2 h =
      rw (at_front b ys, at_end xs a, between xs ys a b)
        (
          below (double (add_ℤ b.position (negsuc (one - 1)))) b.position db
              (previous-IsAtMost b.position (one - 1)),
          above a.position (double (add_ℤ a.position (pos one))) da (next-IsAtMost a.position one),
          above a.position (round_half (double (add_ℤ a.position b.position))) da (
              above (double a.position) (double (add_ℤ a.position b.position)) da2
                (first-IsAtMost a.position b.position h)),
          below (round_half (double (add_ℤ a.position b.position))) b.position db (
              below (double (add_ℤ a.position b.position)) (double b.position) db2
                (second-IsAtMost a.position b.position h)),
        )
