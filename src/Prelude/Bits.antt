-- ===== src/Prelude/Bits.antt =====
-- `|`, `&` and `^` of machine words as arithmetic.
use gokafka.Prelude.{◌∙◌}
use Prim.Native.Nat.{ℕ, zero, suc, ◌+◌, ◌*◌, ◌/◌, ◌%◌, ◌^◌, ◌≤◌, ◌<◌, max}
use Prim.Native.Nat.{bit_and, bit_or, digits, bit_or-bitwise, bit_and-bitwise, min, ◌-◌}
use mathlib.Core.Path.{◌≡◌, refl, ap, ◌∙◌}
use mathlib.Core.Bool.{Bool, true, ◌&&◌}
use native.Mathlib.Nat.{
  pow-suc, div-add-mod, mod-lt, one-le-pow, add-mul-mod_self_right, mod-eq_of_lt,
}
use native.Mathlib.Omega.{arith}
use gokafka.Prelude.Tests.{◌==◌, ==_iff}

-- The digit recursion does not depend on its fuel, when that is enough.
module _ (z : ℕ → ℕ) (f : ℕ → ℕ → ℕ) where
  digits_fuel :
      (x y fuel more : ℕ) → x ≤ fuel → x ≤ more → digits z f fuel x y ≡ digits z f more x y
  digits_fuel (suc x) y (suc fuel) (suc more) enough enough' =
      let half : suc x / 2 ≤ x = omega arith in
      ap (λ (t : ℕ). t * 2 + f (suc x % 2) (y % 2))
        (digits_fuel (suc x / 2) (y / 2) fuel more (omega arith) (omega arith))
  digits_fuel (suc x) y zero more enough enough' = absurd (omega arith)
  digits_fuel (suc x) y (suc fuel) zero enough enough' = absurd (omega arith)
  digits_fuel zero y zero zero enough enough' = refl
  digits_fuel zero y (suc fuel) zero enough enough' = refl
  digits_fuel zero y zero (suc more) enough enough' = refl
  digits_fuel zero y (suc fuel) (suc more) enough enough' = refl

bit_or_digit : (a b : ℕ) → bit_or a b ≡ bit_or (a / 2) (b / 2) * 2 + max (a % 2) (b % 2)
bit_or_digit zero b = omega (arith, bit_or-bitwise 0 b, bit_or-bitwise 0 (b / 2))
bit_or_digit (suc a) b = omega (
  arith,
  bit_or-bitwise (suc a) b,
  bit_or-bitwise (suc a / 2) (b / 2),
  digits_fuel (λ y. y) max (suc a / 2) (b / 2) a (suc a / 2) (omega arith) (omega arith),
)

zero-bit_or : (b : ℕ) → bit_or 0 b ≡ b
zero-bit_or b = bit_or-bitwise 0 b

bit_or-zero_fuel : (n a : ℕ) → a ≤ n → bit_or a 0 ≡ a
bit_or-zero_fuel n zero h = zero-bit_or 0
bit_or-zero_fuel zero (suc a) h = absurd (omega arith)
bit_or-zero_fuel (suc n) (suc a) h =
    omega (arith, bit_or_digit (suc a) 0, bit_or-zero_fuel n (suc a / 2) (omega arith))

double_shift : (b k : ℕ) → b * 2 ^ suc k ≡ 2 * (b * 2 ^ k)
double_shift b k = omega (arith, ap (λ (t : ℕ). b * t) (pow-suc 2 k))

-- `a | b << k` where `a` fits the low k bits.
pub bit_or_disjoint : (k a b : ℕ) → a < 2 ^ k → bit_or a (b * 2 ^ k) ≡ a + b * 2 ^ k
bit_or_disjoint zero zero b h = omega (arith, zero-bit_or (b * 2 ^ 0))
bit_or_disjoint zero (suc a) b h = absurd (omega arith)
bit_or_disjoint (suc k) a b h = omega (
  arith,
  bit_or_digit a (b * 2 ^ suc k),
  double_shift b k,
  pow-suc 2 k,
  bit_or_disjoint k (a / 2) b (omega (arith, pow-suc 2 k)),
  ap (λ (t : ℕ). bit_or (a / 2) t)
      (let e : b * 2 ^ suc k / 2 ≡ b * 2 ^ k = omega (arith, double_shift b k) in e),
)

-- `b << k | a` where `a` fits the low k bits.
pub bit_or_disjoint_swap : (k a b : ℕ) → a < 2 ^ k → bit_or (b * 2 ^ k) a ≡ a + b * 2 ^ k
bit_or_disjoint_swap zero zero b h =
    omega (arith, bit_or-zero_fuel (b * 2 ^ 0) (b * 2 ^ 0) (omega arith))
bit_or_disjoint_swap zero (suc a) b h = absurd (omega arith)
bit_or_disjoint_swap (suc k) a b h = omega (
  arith,
  bit_or_digit (b * 2 ^ suc k) a,
  double_shift b k,
  pow-suc 2 k,
  bit_or_disjoint_swap k (a / 2) b (omega (arith, pow-suc 2 k)),
  ap (λ (t : ℕ). bit_or t (a / 2))
      (let e : b * 2 ^ suc k / 2 ≡ b * 2 ^ k = omega (arith, double_shift b k) in e),
)

-- A test of all values below a bound, for facts about one byte.
every_below : (ℕ → Bool) → ℕ → Bool
every_below test zero = true
every_below test (suc bound) = every_below test bound && test bound

every_below-at :
    (test : ℕ → Bool) (bound c : ℕ) → c < bound → every_below test bound ≡ true → test c ≡ true
unfolding every_below
every_below-at test (suc bound) c below all = ground (arith, every_below-at test bound c)
every_below-at test zero c below all = absurd (omega arith)

abbrev keeps_low_seven : ℕ → Bool
keeps_low_seven c = bit_and c 0x7f == c % 128

low_seven_of_bytes : every_below keeps_low_seven 256 ≡ true
unfolding every_below
low_seven_of_bytes = refl

-- `c & 0x7f` of a byte.
pub bit_and_low_seven : (c : ℕ) → c < 256 → bit_and c 0x7f ≡ c % 128
bit_and_low_seven c h = (==_iff _ _).0 (every_below-at keeps_low_seven 256 c h low_seven_of_bytes)

abbrev sets_high_bit : ℕ → Bool
sets_high_bit c = bit_or c 0x80 == c % 128 + 128

high_bit_of_bytes : every_below sets_high_bit 256 ≡ true
unfolding every_below
high_bit_of_bytes = refl

-- `byte(c) | 0x80`.
pub bit_or_continue : (c : ℕ) → c < 256 → bit_or c 0x80 ≡ c % 128 + 128
bit_or_continue c h = (==_iff _ _).0 (every_below-at sets_high_bit 256 c h high_bit_of_bytes)

abbrev keeps_low_two : ℕ → Bool
keeps_low_two c = bit_and c 0x3 == c % 4

low_two_of_bytes : every_below keeps_low_two 256 ≡ true
unfolding every_below
low_two_of_bytes = refl

-- `c & 0x3` of a byte.
pub bit_and_low_two : (c : ℕ) → c < 256 → bit_and c 0x3 ≡ c % 4
bit_and_low_two c h = (==_iff _ _).0 (every_below-at keeps_low_two 256 c h low_two_of_bytes)

bit_and_digit : (a b : ℕ) → bit_and a b ≡ bit_and (a / 2) (b / 2) * 2 + min (a % 2) (b % 2)
bit_and_digit zero b = omega (arith, bit_and-bitwise 0 b, bit_and-bitwise 0 (b / 2))
bit_and_digit (suc a) b = omega (
  arith,
  bit_and-bitwise (suc a) b,
  bit_and-bitwise (suc a / 2) (b / 2),
  digits_fuel (λ y. 0) min (suc a / 2) (b / 2) a (suc a / 2) (omega arith) (omega arith),
)

bit_and-zero_fuel : (n a : ℕ) → a ≤ n → bit_and a 0 ≡ 0
bit_and-zero_fuel n zero h = bit_and-bitwise 0 0
bit_and-zero_fuel zero (suc a) h = absurd (omega arith)
bit_and-zero_fuel (suc n) (suc a) h =
    omega (arith, bit_and_digit (suc a) 0, bit_and-zero_fuel n (suc a / 2) (omega arith))

-- The lowest bit split off a remainder.
mod_double : (k a : ℕ) → a % 2 ^ suc k ≡ a / 2 % 2 ^ k * 2 + a % 2
mod_double k a =
    let r = a / 2 % 2 ^ k * 2 + a % 2 in
    let q = a / 2 / 2 ^ k in
    let whole : a ≡ r + q * 2 ^ suc k =
      omega (arith, div-add-mod (a / 2) (2 ^ k), double_shift q k) in
    let small : r < 2 ^ suc k =
      omega (arith, pow-suc 2 k, mod-lt (a / 2) (one-le-pow k 2 (omega arith))) in
    ap (λ (t : ℕ). t % 2 ^ suc k) whole
    ∙ add-mul-mod_self_right r q (2 ^ suc k)
    ∙ mod-eq_of_lt small

-- `a & (1 << k - 1)` keeps the low k bits.
pub bit_and_mask : (k a : ℕ) → bit_and a (2 ^ k - 1) ≡ a % 2 ^ k
bit_and_mask zero a = omega (arith, bit_and-zero_fuel a a (omega arith))
bit_and_mask (suc k) a =
    let one : 1 ≤ 2 ^ k = one-le-pow k 2 (omega arith) in
    let half : (2 ^ suc k - 1) / 2 ≡ 2 ^ k - 1 = omega (arith, pow-suc 2 k, one) in
    let odd : (2 ^ suc k - 1) % 2 ≡ 1 = omega (arith, pow-suc 2 k, one) in
    let step : bit_and (a / 2) ((2 ^ suc k - 1) / 2) ≡ a / 2 % 2 ^ k =
      ap (bit_and (a / 2)) half ∙ bit_and_mask k (a / 2) in
    omega (arith, bit_and_digit a (2 ^ suc k - 1), step, odd, mod_double k a)
