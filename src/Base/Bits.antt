-- ===== src/Base/Bits.antt =====
-- Masks and packed fields as arithmetic: a mask of low ones is a remainder, and an or with bits
-- below a shifted value is a sum.
use Prim.Native.Nat.{
  ℕ, zero, suc, ◌+◌, ◌*◌, ◌/◌, ◌%◌, ◌^◌, ◌≤◌, ◌<◌, min, max, bit_and, bit_or, digits,
  bit_and-bitwise, bit_or-bitwise,
}
use mathlib.Core.Path.{◌≡◌, refl, ap, ◌∙◌}
use native.Mathlib.Nat.{mul_assoc}
use native.Mathlib.Omega.{arith}

-- The digits of a combination do not depend on the fuel, once there is enough of it.
module _ (alone : ℕ → ℕ) (op : ℕ → ℕ → ℕ) where
  abbrev combined : ℕ → ℕ → ℕ → ℕ
  combined n a b = digits alone op n a b

  combined_fuel : (n m a b : ℕ) → a ≤ n → a ≤ m → combined n a b ≡ combined m a b
  combined_fuel zero zero a b p q = refl
  combined_fuel zero (suc m) zero b p q = refl
  combined_fuel zero (suc m) (suc a) b p q = absurd (omega arith)
  combined_fuel (suc n) zero zero b p q = refl
  combined_fuel (suc n) zero (suc a) b p q = absurd (omega arith)
  combined_fuel (suc n) (suc m) zero b p q = refl
  combined_fuel (suc n) (suc m) (suc a) b p q =
      omega (arith, combined_fuel n m (suc a / 2) (b / 2) (omega arith) (omega arith))

pub bit_and-halves : (a b : ℕ) → bit_and a b ≡ bit_and (a / 2) (b / 2) * 2 + min (a % 2) (b % 2)
bit_and-halves zero b = omega (arith, bit_and-bitwise 0 b, bit_and-bitwise 0 (b / 2))
bit_and-halves (suc a) b = omega (
  arith,
  bit_and-bitwise (suc a) b,
  bit_and-bitwise (suc a / 2) (b / 2),
  combined_fuel (λ b. zero) min a (suc a / 2) (suc a / 2) (b / 2) (omega arith) (omega arith),
)

pub bit_or-halves : (a b : ℕ) → bit_or a b ≡ bit_or (a / 2) (b / 2) * 2 + max (a % 2) (b % 2)
bit_or-halves zero b = omega (arith, bit_or-bitwise 0 b, bit_or-bitwise 0 (b / 2))
bit_or-halves (suc a) b = omega (
  arith,
  bit_or-bitwise (suc a) b,
  bit_or-bitwise (suc a / 2) (b / 2),
  combined_fuel (λ b. b) max a (suc a / 2) (suc a / 2) (b / 2) (omega arith) (omega arith),
)

none_set_fuel : (n a : ℕ) → a ≤ n → bit_and a 0 ≡ 0
none_set_fuel n zero h = refl
none_set_fuel zero (suc a) h = absurd (omega arith)
none_set_fuel (suc n) (suc a) h =
    omega (arith, bit_and-halves (suc a) 0, none_set_fuel n (suc a / 2) (omega arith))

pub bit_and-zero : (a : ℕ) → bit_and a 0 ≡ 0
bit_and-zero a = none_set_fuel a a (omega arith)

nothing_or_fuel : (n a : ℕ) → a ≤ n → bit_or a 0 ≡ a
nothing_or_fuel n zero h = refl
nothing_or_fuel zero (suc a) h = absurd (omega arith)
nothing_or_fuel (suc n) (suc a) h =
    omega (arith, bit_or-halves (suc a) 0, nothing_or_fuel n (suc a / 2) (omega arith))

pub bit_or-zero : (a b : ℕ) → b ≡ 0 → bit_or a b ≡ a
bit_or-zero a b e = ap (bit_or a) e ∙ nothing_or_fuel a a (omega arith)

-- Masks of k low ones, for the widths in use.
unfoldable pub low_mask : ℕ → ℕ
low_mask zero = 0
low_mask (suc k) = low_mask k * 2 + 1

unfoldable pub power : ℕ → ℕ
power zero = 1
power (suc k) = power k * 2

pub power-positive : (k : ℕ) → 0 < power k
unfolding power
power-positive zero = omega arith
power-positive (suc k) = omega (arith, power-positive k)

pub low_mask-power : (k : ℕ) → low_mask k + 1 ≡ power k
unfolding power low_mask
low_mask-power zero = refl
low_mask-power (suc k) = omega (arith, low_mask-power k)

-- The mask keeps what stands below the k-th digit.
pub bit_and-low_mask :
    (k x q r : ℕ) → x ≡ q * power k + r → r < power k → bit_and x (low_mask k) ≡ r
unfolding power low_mask
bit_and-low_mask zero x q r e below = omega (arith, bit_and-zero x)
bit_and-low_mask (suc k) x q r e below = omega (
  arith,
  bit_and-halves x (low_mask k * 2 + 1),
  ap (λ (t : ℕ). bit_and (x / 2) t) halved_mask,
  bit_and-low_mask k (x / 2) q (r / 2) halved (omega arith),
)
  where
    halved_mask : (low_mask k * 2 + 1) / 2 ≡ low_mask k
    halved_mask = omega arith

    doubled : q * (power k * 2) ≡ q * power k * 2
    doubled = omega (arith, mul_assoc q (power k) 2)

    halved : x / 2 ≡ q * power k + r / 2
    halved = omega (arith, doubled)

-- Bits below a shifted value are added to it.
pub bit_or-shifted : (k a b : ℕ) → b < power k → bit_or (a * power k) b ≡ a * power k + b
unfolding power
bit_or-shifted zero a b below = omega (arith, or_nothing)
  where
    or_nothing : bit_or (a * 1) b ≡ a * 1
    or_nothing = bit_or-zero (a * 1) b (omega arith)
bit_or-shifted (suc k) a b below = omega (
  arith,
  doubled,
  bit_or-halves (a * (power k * 2)) b,
  ap (λ (t : ℕ). bit_or t (b / 2)) halved,
  bit_or-shifted k a (b / 2) (omega arith),
)
  where
    doubled : a * (power k * 2) ≡ a * power k * 2
    doubled = omega (arith, mul_assoc a (power k) 2)

    halved : a * (power k * 2) / 2 ≡ a * power k
    halved = omega (arith, doubled)

-- The masks that the programs write out.
pub bit_and_12 : (x : ℕ) → bit_and x 0xFFF ≡ x % 4096
unfolding power low_mask
bit_and_12 x = bit_and-low_mask 12 x (x / 4096) (x % 4096) (omega arith) (omega arith)

pub bit_and_44 : (x : ℕ) → bit_and x 0xFFFFFFFFFFF ≡ x % 2 ^ 44
unfolding power low_mask
bit_and_44 x = bit_and-low_mask 44 x (x / 2 ^ 44) (x % 2 ^ 44) (omega arith) (omega arith)

pub bit_or_10 : (a b : ℕ) → b < 1024 → bit_or (a * 1024) b ≡ a * 1024 + b
unfolding power
bit_or_10 a b below = bit_or-shifted 10 a b below
