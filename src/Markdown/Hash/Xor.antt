-- ===== src/Markdown/Hash/Xor.antt =====
-- Exclusive or, digit by digit and modulo a power of two.
use Prim.Native.Nat.{
  ℕ, zero, suc, ◌+◌, ◌*◌, ◌/◌, ◌%◌, ◌≤◌, ◌<◌, ◌^◌, bit_xor, digits, differ, bit_xor-bitwise,
}
use github_idea_os_app.Base.{◌≡◌, refl, sym, arith, ◌∙◌, ap}

abbrev xor_digits : ℕ → ℕ → ℕ → ℕ
xor_digits n a b = digits (λ y. y) differ n a b

xor_digits_fuel : (n m a b : ℕ) → a ≤ n → a ≤ m → xor_digits n a b ≡ xor_digits m a b
xor_digits_fuel zero zero a b p q = refl
xor_digits_fuel zero (suc m) zero b p q = refl
xor_digits_fuel zero (suc m) (suc a) b p q = absurd (omega arith)
xor_digits_fuel (suc n) zero zero b p q = refl
xor_digits_fuel (suc n) zero (suc a) b p q = absurd (omega arith)
xor_digits_fuel (suc n) (suc m) zero b p q = refl
xor_digits_fuel (suc n) (suc m) (suc a) b p q =
    omega (arith, xor_digits_fuel n m (suc a / 2) (b / 2) (omega arith) (omega arith))

zero-bit_xor : (b : ℕ) → bit_xor 0 b ≡ b
zero-bit_xor b = bit_xor-bitwise 0 b

differ_zero : (y : ℕ) → y < 2 → differ 0 y ≡ y
differ_zero y h = refl

bit_xor_step : (a b : ℕ) → bit_xor a b ≡ bit_xor (a / 2) (b / 2) * 2 + differ (a % 2) (b % 2)
bit_xor_step zero b =
    omega (arith, zero-bit_xor b, zero-bit_xor (b / 2), differ_zero (b % 2) (omega arith))
bit_xor_step (suc a) b = omega (
  arith,
  bit_xor-bitwise (suc a) b,
  bit_xor-bitwise (suc a / 2) (b / 2),
  xor_digits_fuel a (suc a / 2) (suc a / 2) (b / 2) (omega arith) (omega arith),
)

mod_double : (a m : ℕ) → 0 < m → a % (m * 2) ≡ (a / 2 % m) * 2 + a % 2
mod_double a m p = grind arith

half_mod : (a m : ℕ) → 0 < m → a % (m * 2) / 2 ≡ a / 2 % m
half_mod a m p = omega (arith, mod_double a m p)

rest_mod : (a m : ℕ) → 0 < m → a % (m * 2) % 2 ≡ a % 2
rest_mod a m p = omega (arith, mod_double a m p)

pub differ_lt : (x y : ℕ) → x < 2 → y < 2 → differ x y < 2
differ_lt zero y p q = q
differ_lt (suc zero) zero p q = omega arith
differ_lt (suc zero) (suc y) p q = omega arith
differ_lt (suc (suc x)) y p q = absurd (omega arith)

double_mod : (x d m : ℕ) → 0 < m → d < 2 → (x * 2 + d) % (m * 2) ≡ (x % m) * 2 + d
double_mod x d m p q =
    mod_double (x * 2 + d) m p
    ∙ ap (λ y. (y % m) * 2 + (x * 2 + d) % 2) half
    ∙ ap (λ y. (x % m) * 2 + y) last
  where
    half : (x * 2 + d) / 2 ≡ x
    half = omega arith

    last : (x * 2 + d) % 2 ≡ d
    last = omega arith

positive : (k : ℕ) → 0 < 2 ^ k
positive zero = omega arith
positive (suc k) = grind (arith, positive k)

power_suc : (k : ℕ) → 2 ^ suc k ≡ 2 ^ k * 2
power_suc k = grind arith

mod_one : (x : ℕ) → x % 2 ^ 0 ≡ 0
mod_one x = omega arith

-- The lowest digits of an exclusive or are those of its arguments'.
pub bit_xor-mod : (k a b : ℕ) → bit_xor a b % 2 ^ k ≡ bit_xor (a % 2 ^ k) (b % 2 ^ k)
bit_xor-mod zero a b = rw (mod_one (bit_xor a b), mod_one a, mod_one b) (sym (zero-bit_xor 0))
bit_xor-mod (suc k) a b = rw (power_suc k) (
    ap (λ x. x % (2 ^ k * 2)) (bit_xor_step a b)
    ∙ double_mod (bit_xor (a / 2) (b / 2)) (differ (a % 2) (b % 2)) (2 ^ k) (positive k)
        (differ_lt (a % 2) (b % 2) (omega arith) (omega arith))
    ∙ ap (λ x. x * 2 + differ (a % 2) (b % 2)) (bit_xor-mod k (a / 2) (b / 2))
    ∙ sym (
        bit_xor_step (a % (2 ^ k * 2)) (b % (2 ^ k * 2))
        ∙ rw
            (
              half_mod a (2 ^ k) (positive k),
              half_mod b (2 ^ k) (positive k),
              rest_mod a (2 ^ k) (positive k),
              rest_mod b (2 ^ k) (positive k),
            )
            refl))
