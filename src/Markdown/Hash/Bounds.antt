-- ===== src/Markdown/Hash/Bounds.antt =====
-- The value of a hash and its text.
use github_idea_os_app.Base.{
  ℕ, zero, suc, ◌+◌, ◌-◌, ◌*◌, ◌/◌, ◌%◌, ◌≤◌, ◌<◌, String, ◌≡◌, refl, sym, ap, ◌∙◌, inl, inr, Bool,
  true, ◌&&◌, List, [], ◌∷◌, arith, if◌then◌else◌, Bool-cases, ◌==◌, string_eq, nat_eq, option_eq,
  ltb,
}
use github_idea_os_app.Markdown.Hash.{
  hash_step, hash_from, code_units, base36, base36_digits, simple_hash,
}
use Prim.Native.Nat.{bit_xor, ◌^◌, digits, differ, bit_xor-bitwise}
use github_idea_os_app.Markdown.Hash.Xor.{differ_lt, bit_xor-mod}
use text.Mathlib.TextLemmas.{length-append}
use native.Mathlib.Decide.{ℕ_discrete}
use Prim.Native.String.append
use Prim.Native.String.count.{cons as count_cons}
use Prim.Native.Char.{Char, code}
use Prim.Native.String.{◌++◌ as text_append, count, char_at}

half_lt : (k a : ℕ) → a < 2 ^ suc k → a / 2 < 2 ^ k
half_lt k a h = grind arith

xor_digits_lt : (k n a b : ℕ) → a < 2 ^ k → b < 2 ^ k → digits (λ y. y) differ n a b < 2 ^ k
xor_digits_lt k zero a b p q = q
xor_digits_lt k (suc n) zero b p q = q
xor_digits_lt zero (suc n) (suc a) b p q = absurd (omega arith)
xor_digits_lt (suc k) (suc n) (suc a) b p q = grind (
  arith,
  xor_digits_lt k n (suc a / 2) (b / 2) (half_lt k (suc a) p) (half_lt k b q),
  differ_lt (suc a % 2) (b % 2) (omega arith) (omega arith),
)

xor_lt : (a b : ℕ) → a < 2 ^ 32 → b < 2 ^ 32 → bit_xor a b < 2 ^ 32
xor_lt a b p q = rw (bit_xor-bitwise a b) (xor_digits_lt 32 a a b p q)

hash_step_lt : (hash c : ℕ) → hash_step hash c < 2 ^ 32
unfolding hash_step
hash_step_lt hash c = xor_lt ((hash * 32 + hash) % 2 ^ 32) (c % 2 ^ 32) (omega arith) (omega arith)

hash_from_lt : (hash : ℕ) (cs : List ℕ) → hash < 2 ^ 32 → hash_from hash cs < 2 ^ 32
unfolding hash_from
hash_from_lt hash [] p = p
hash_from_lt hash (c ∷ cs) p = hash_from_lt (hash_step hash c) cs (hash_step_lt hash c)

-- The number that digits in base 36 stand for.
abbrev digit_value : Char → ℕ
digit_value c = if ltb (code c) 58 then code c - 48 else code c - 87

unfoldable pub read36 : ℕ → String → ℕ
read36 n String.[] = n
read36 n (String.◌∷◌ c s) = read36 (n * 36 + digit_value c) s

all_below : ℕ → (ℕ → Bool) → Bool
all_below zero p = true
all_below (suc n) p = p n && all_below n p

all_below_lem : (n : ℕ) (p : ℕ → Bool) (x : ℕ) → all_below n p ≡ true → x < n → p x ≡ true
unfolding all_below
all_below_lem zero p x h q = absurd (omega arith)
all_below_lem (suc n) p x h q = elim (Bool-cases (x == n)) [
  | inl e ↦ ground arith
  | inr e ↦ all_below_lem n p x (ground arith) (ground arith)
]

digit_value-char_at : (d : ℕ) → d < 36 → digit_value (char_at base36_digits d) ≡ d
unfolding all_below ℕ_discrete
digit_value-char_at d p =
    ground (arith, all_below_lem 36 (λ x. digit_value (char_at base36_digits x) == x) d refl p)

read36-append : (n : ℕ) (s t : String) → read36 n (text_append s t) ≡ read36 (read36 n s) t
unfolding read36
read36-append n String.[] t = rw (append.nil t) refl
read36-append n (String.◌∷◌ c s) t =
    rw (append.cons c s t, read36-append (n * 36 + digit_value c) s t)

read36-base36 : (fuel n : ℕ) → n < 36 ^ fuel → read36 0 (base36 fuel n) ≡ n
unfolding base36 read36
read36-base36 zero n p = omega arith
read36-base36 (suc fuel) n p = elim (Bool-cases (n / 36 == 0)) [
  | inl e ↦
      rw
        (
          e,
          append.nil (String.◌∷◌ (char_at base36_digits (n % 36)) String.[]),
          digit_value-char_at (n % 36) (omega arith),
        )
        (ground arith)
  | inr e ↦
      rw
        (
          e,
          read36-append 0 (base36 fuel (n / 36))
              (String.◌∷◌ (char_at base36_digits (n % 36)) String.[]),
          read36-base36 fuel (n / 36) (grind arith),
          digit_value-char_at (n % 36) (omega arith),
        )
        (omega arith)
]

count-base36-le : (fuel n : ℕ) → count (base36 fuel n) ≤ fuel
unfolding base36
count-base36-le zero n = omega arith
count-base36-le (suc fuel) n = elim (Bool-cases (n / 36 == 0)) [
  | inl e ↦
      rw
        (
          e,
          length-append "" (String.◌∷◌ (char_at base36_digits (n % 36)) String.[]),
          count_cons (char_at base36_digits (n % 36)) "",
        )
        (omega arith)
  | inr e ↦
      rw
        (
          e,
          length-append (base36 fuel (n / 36))
              (String.◌∷◌ (char_at base36_digits (n % 36)) String.[]),
          count_cons (char_at base36_digits (n % 36)) "",
        )
        (omega (arith, count-base36-le fuel (n / 36)))
]

-- The hash on numbers without a bound: 5381, and for each code unit 33 times what there is, exclusive
-- or the unit.
abbrev pub unbounded_hash : ℕ → List ℕ → ℕ
unbounded_hash hash [] = hash
unbounded_hash hash (c ∷ cs) = unbounded_hash (bit_xor (hash * 33) c) cs

times_mod : (h : ℕ) → (h % 2 ^ 32 * 32 + h % 2 ^ 32) % 2 ^ 32 ≡ h * 33 % 2 ^ 32
times_mod h = omega arith

hash_from-mod :
    (cs : List ℕ) (hash : ℕ) → hash_from (hash % 2 ^ 32) cs ≡ unbounded_hash hash cs % 2 ^ 32
unfolding hash_from hash_step
hash_from-mod [] hash = refl
hash_from-mod (c ∷ cs) hash =
    ap (λ h. hash_from h cs)
      (ap (λ h. bit_xor h (c % 2 ^ 32)) (times_mod hash) ∙ sym (bit_xor-mod 32 (hash * 33) c))
    ∙ hash_from-mod cs (bit_xor (hash * 33) c)

-- The text of a hash has at most seven digits in base 36, and they stand for the djb2 hash of the text
-- with exclusive or, computed on numbers without a bound and then cut to its lowest 32 bits.
pub simple_hash_lem :
    (s : String)
    → (count (simple_hash s) ≤ 7)
      × (read36 0 (simple_hash s) ≡ unbounded_hash 5381 (code_units s) % 2 ^ 32)
unfolding simple_hash
simple_hash_lem s = (
  count-base36-le 7 (hash_from 5381 (code_units s)),
  read36-base36 7 (hash_from 5381 (code_units s))
        (omega (arith, hash_from_lt 5381 (code_units s) (omega arith)))
      ∙ hash_from-mod (code_units s) 5381,
)
