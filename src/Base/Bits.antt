-- ===== src/Base/Bits.antt =====
-- `bit_xor` at variables: one equation for the lowest digit, and what follows by induction on the width.
use Prim.Native.Nat.{
  ℕ, zero, suc, ◌+◌, ◌-◌, ◌*◌, ◌/◌, ◌%◌, ◌^◌, ◌≤◌, ◌<◌, bit_xor, differ, digits, bit_xor-bitwise,
}
use mathlib.Core.Path.{◌≡◌, refl, ap, ◌∙◌}
use native.Mathlib.Nat.{pow-suc}
use native.Mathlib.Omega.{arith}

abbrev xor_digits : ℕ → ℕ → ℕ → ℕ
xor_digits = digits (λ b. b) differ

-- One round more than the number needs changes nothing, and so do any number of rounds.
round_to_spare : (n b a : ℕ) → a ≤ n → xor_digits (suc n) a b ≡ xor_digits n a b
round_to_spare zero b zero h = refl
round_to_spare (suc n) b zero h = refl
round_to_spare zero b (suc a) h = absurd (omega arith)
round_to_spare (suc n) b (suc a) h =
    ap (λ (q : ℕ). q * 2 + differ (suc a % 2) (b % 2))
      (round_to_spare n (b / 2) (suc a / 2) (omega arith))

rounds_to_spare : (extra n b a : ℕ) → a ≤ n → xor_digits (n + extra) a b ≡ xor_digits n a b
rounds_to_spare zero n b a h = ap (λ (m : ℕ). xor_digits m a b) (omega arith)
rounds_to_spare (suc extra) n b a h =
    let next : n + suc extra ≡ suc (n + extra) = omega arith in
    ap (λ (m : ℕ). xor_digits m a b) next
    ∙ round_to_spare (n + extra) b a (omega arith)
    ∙ rounds_to_spare extra n b a h

half_is_enough : (a b : ℕ) → xor_digits a (suc a / 2) b ≡ xor_digits (suc a / 2) (suc a / 2) b
half_is_enough a b =
    let whole : a ≡ suc a / 2 + (a - suc a / 2) = omega arith in
    ap (λ (n : ℕ). xor_digits n (suc a / 2) b) whole
    ∙ rounds_to_spare (a - suc a / 2) (suc a / 2) b (suc a / 2) (omega arith)

pub zero-bit_xor : (b : ℕ) → bit_xor 0 b ≡ b
zero-bit_xor b = bit_xor-bitwise 0 b

differ_digits : (x y : ℕ) → x < 2 → y < 2 → differ x y ≡ (x + y) % 2
differ_digits zero y p q = omega arith
differ_digits (suc zero) zero p q = refl
differ_digits (suc zero) (suc zero) p q = refl
differ_digits (suc zero) (suc (suc y)) p q = absurd (omega arith)
differ_digits (suc (suc x)) y p q = absurd (omega arith)

pub bit_xor_step : (a b : ℕ) → bit_xor a b ≡ bit_xor (a / 2) (b / 2) * 2 + (a + b) % 2
bit_xor_step zero b = omega (arith, zero-bit_xor b, zero-bit_xor (b / 2))
bit_xor_step (suc a) b = omega (
  arith,
  bit_xor-bitwise (suc a) b,
  bit_xor-bitwise (suc a / 2) (b / 2),
  half_is_enough a (b / 2),
  differ_digits (suc a % 2) (b % 2) (omega arith) (omega arith),
)

bit_xor_self_fuel : (n a : ℕ) → a ≤ n → bit_xor a a ≡ 0
bit_xor_self_fuel n zero h = refl
bit_xor_self_fuel zero (suc a) h = absurd (omega arith)
bit_xor_self_fuel (suc n) (suc a) h =
    omega (arith, bit_xor_step (suc a) (suc a), bit_xor_self_fuel n (suc a / 2) (omega arith))

pub bit_xor_self : (a : ℕ) → bit_xor a a ≡ 0
bit_xor_self a = bit_xor_self_fuel a a (omega arith)

bit_xor-zero_fuel : (n a : ℕ) → a ≤ n → bit_xor a 0 ≡ a
bit_xor-zero_fuel n zero h = refl
bit_xor-zero_fuel zero (suc a) h = absurd (omega arith)
bit_xor-zero_fuel (suc n) (suc a) h =
    omega (arith, bit_xor_step (suc a) 0, bit_xor-zero_fuel n (suc a / 2) (omega arith))

pub bit_xor-zero : (a : ℕ) → bit_xor a 0 ≡ a
bit_xor-zero a = bit_xor-zero_fuel a a (omega arith)

-- Numbers of `k` bits have an exclusive or of `k` bits.
pub bit_xor-lt : (k a b : ℕ) → a < 2 ^ k → b < 2 ^ k → bit_xor a b < 2 ^ k
bit_xor-lt zero zero zero p q = omega arith
bit_xor-lt zero zero (suc b) p q = absurd (omega arith)
bit_xor-lt zero (suc a) b p q = absurd (omega arith)
bit_xor-lt (suc k) a b p q = omega (
  arith,
  pow-suc 2 k,
  bit_xor_step a b,
  bit_xor-lt k (a / 2) (b / 2) (omega (arith, pow-suc 2 k)) (omega (arith, pow-suc 2 k)),
)

twice_shifted : (h k : ℕ) → h * 2 ^ suc k ≡ 2 * (h * 2 ^ k)
twice_shifted h k = omega (arith, ap (λ (t : ℕ). h * t) (pow-suc 2 k))

-- The lowest `k` bits are cleared by themselves.
pub bit_xor_clears : (k h l : ℕ) → l < 2 ^ k → bit_xor (h * 2 ^ k + l) l ≡ h * 2 ^ k
bit_xor_clears zero h zero p = omega (arith, bit_xor-zero (h * 2 ^ 0 + 0))
bit_xor_clears zero h (suc l) p = absurd (omega arith)
bit_xor_clears (suc k) h l p = ground (
  arith,
  bit_xor_step (h * 2 ^ suc k + l) l,
  twice_shifted h k,
  pow-suc 2 k,
  bit_xor_clears k h (l / 2) (omega (arith, pow-suc 2 k)),
)
