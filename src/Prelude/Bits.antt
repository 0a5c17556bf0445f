-- ===== src/Prelude/Bits.antt =====
-- The laws of `&`, `|` and `^` at variables, for every width: one digit at a time, a mask of one
-- bit, a mask of low bits, and `|` of disjoint fields.
use Prim.Native.Nat.{ℕ, zero, suc, ◌+◌, ◌-◌, ◌*◌, ◌/◌, ◌%◌, ◌^◌, ◌≤◌, ◌<◌}
use Prim.Native.Nat.{min, max, differ, bit_and, bit_or, bit_xor, digits}
use Prim.Native.Nat.{bit_and-bitwise, bit_or-bitwise, bit_xor-bitwise}
use mathlib.Core.Path.{◌≡◌, refl, ap, sym, ◌∙◌}
use native.Mathlib.Omega.{arith}
use native.Mathlib.Nat.{pow-suc, one-le-pow, mul_comm, div-div-eq-div-mul, div-add-mod'}

-- Any two counts that reach the first number's digits give the same result.
module _ (z : ℕ → ℕ) (f : ℕ → ℕ → ℕ) where
  digits-zero : (n b : ℕ) → digits z f n zero b ≡ z b
  digits-zero zero b = refl
  digits-zero (suc n) b = refl

  digits_agree : (n m a b : ℕ) → a ≤ n → a ≤ m → digits z f n a b ≡ digits z f m a b
  digits_agree n m zero b p q = digits-zero n b ∙ sym (digits-zero m b)
  digits_agree zero m (suc a) b p q = absurd (omega arith)
  digits_agree (suc n) zero (suc a) b p q = absurd (omega arith)
  digits_agree (suc n) (suc m) (suc a) b p q =
      let half = digits_agree n m (suc a / 2) (b / 2) (omega arith) (omega arith) in
      ap (λ (d : ℕ). d * 2 + f (suc a % 2) (b % 2)) half

-- The least digit of each operand decides the least digit of the result.
pub bit_and_step : (x y : ℕ) → bit_and x y ≡ 2 * bit_and (x / 2) (y / 2) + min (x % 2) (y % 2)
bit_and_step zero y = omega (arith, bit_and-bitwise 0 y, bit_and-bitwise 0 (y / 2))
bit_and_step (suc x) y =
    let half = suc x / 2 in
    let same = digits_agree (λ d. 0) min x half half (y / 2) (omega arith) (omega arith) in
    omega (arith, same, bit_and-bitwise half (y / 2), bit_and-bitwise (suc x) y)

pub bit_or_step : (x y : ℕ) → bit_or x y ≡ 2 * bit_or (x / 2) (y / 2) + max (x % 2) (y % 2)
bit_or_step zero y = omega (arith, bit_or-bitwise 0 y, bit_or-bitwise 0 (y / 2))
bit_or_step (suc x) y =
    let half = suc x / 2 in
    let same = digits_agree (λ d. d) max x half half (y / 2) (omega arith) (omega arith) in
    omega (arith, same, bit_or-bitwise half (y / 2), bit_or-bitwise (suc x) y)

-- On two digits exclusive or is the sum without its carry.
differ-digits : (x y : ℕ) → x < 2 → y < 2 → differ x y ≡ (x + y) % 2
differ-digits zero y p q = omega arith
differ-digits (suc zero) zero p q = refl
differ-digits (suc zero) (suc zero) p q = refl
differ-digits (suc zero) (suc (suc y)) p q = absurd (omega arith)
differ-digits (suc (suc x)) y p q = absurd (omega arith)

pub bit_xor_step : (x y : ℕ) → bit_xor x y ≡ 2 * bit_xor (x / 2) (y / 2) + (x + y) % 2
bit_xor_step zero y = omega (arith, bit_xor-bitwise 0 y, bit_xor-bitwise 0 (y / 2))
bit_xor_step (suc x) y =
    let half = suc x / 2 in
    let same = digits_agree (λ d. d) differ x half half (y / 2) (omega arith) (omega arith) in
    let digit = differ-digits (suc x % 2) (y % 2) (omega arith) (omega arith) in
    omega (arith, same, digit, bit_xor-bitwise half (y / 2), bit_xor-bitwise (suc x) y)

-- Zero on the right, by induction on a bound of the left.
with_zero : (n x : ℕ) → x < suc n → (bit_and x 0 ≡ 0) × (bit_or x 0 ≡ x)
with_zero n zero below = (refl, refl)
with_zero zero (suc x) below = absurd (omega arith)
with_zero (suc n) (suc x) below =
    let half = with_zero n (suc x / 2) (omega arith) in
    (omega (arith, half.0, bit_and_step (suc x) 0), omega (arith, half.1, bit_or_step (suc x) 0))

pub bit_and-zero : (x : ℕ) → bit_and x 0 ≡ 0
bit_and-zero x = (with_zero x x (omega arith)).0

pub bit_or-zero : (x : ℕ) → bit_or x 0 ≡ x
bit_or-zero x = (with_zero x x (omega arith)).1

mul-two_pow : (q k : ℕ) → q * 2 ^ suc k ≡ 2 * (q * 2 ^ k)
mul-two_pow q k = omega (arith, ap (λ (t : ℕ). q * t) (pow-suc 2 k))

-- `(high << k) | low` is a sum where `low` fits in `k` bits, the fields in either order.
pub bit_or_fields : (k high low : ℕ) → low < 2 ^ k → bit_or (high * 2 ^ k) low ≡ high * 2 ^ k + low
bit_or_fields zero high low fits = ground (arith, bit_or-zero high)
bit_or_fields (suc k) high low fits =
    let halved = bit_or_fields k high (low / 2) (omega arith) in
    ground (arith, halved, bit_or_step (high * 2 ^ suc k) low, mul-two_pow high k)

pub bit_or_low : (k low high : ℕ) → low < 2 ^ k → bit_or low (high * 2 ^ k) ≡ high * 2 ^ k + low
bit_or_low zero zero high fits = ground (arith, bit_or-bitwise 0 (high * 1))
bit_or_low zero (suc low) high fits = absurd (omega arith)
bit_or_low (suc k) low high fits =
    let halved = bit_or_low k (low / 2) high (omega arith) in
    ground (arith, halved, bit_or_step low (high * 2 ^ suc k), mul-two_pow high k)

bit_and_low : (k high low : ℕ) → low < 2 ^ k → bit_and (high * 2 ^ k + low) (2 ^ k - 1) ≡ low
bit_and_low zero high low fits = ground (arith, bit_and-zero (high * 1 + low))
bit_and_low (suc k) high low fits =
    let halved = bit_and_low k high (low / 2) (omega arith) in
    let step = bit_and_step (high * 2 ^ suc k + low) (2 ^ suc k - 1) in
    ground (arith, halved, step, mul-two_pow high k, pow-suc 2 k)

-- A mask of the low `k` bits is the remainder by `2 ^ k`.
pub bit_and_mask : (k a : ℕ) → bit_and a (2 ^ k - 1) ≡ a % 2 ^ k
bit_and_mask k a = ground (arith, one-le-pow k 2, bit_and_low k (a / 2 ^ k) (a % 2 ^ k))

-- A mask of the one bit `k` keeps that bit.
bit_and_one :
    (k q b r : ℕ) → b < 2 → r < 2 ^ k → bit_and ((2 * q + b) * 2 ^ k + r) (2 ^ k) ≡ b * 2 ^ k
bit_and_one zero q b r hb hr = ground (arith, bit_and_step (2 * q + b) 1, bit_and-zero q)
bit_and_one (suc k) q b r hb hr = ground (
  arith,
  mul-two_pow (2 * q + b) k,
  mul-two_pow b k,
  pow-suc 2 k,
  bit_and_step ((2 * q + b) * 2 ^ suc k + r) (2 ^ suc k),
  bit_and_one k q b (r / 2) hb (omega arith),
)

split_at_bit : (k a : ℕ) → (2 * (a / 2 ^ k / 2) + a / 2 ^ k % 2) * 2 ^ k + a % 2 ^ k ≡ a
split_at_bit k a = ap (λ (t : ℕ). t * 2 ^ k + a % 2 ^ k) (omega arith) ∙ div-add-mod' a (2 ^ k)

pub bit_and_bit : (k a : ℕ) → bit_and a (2 ^ k) ≡ a / 2 ^ k % 2 * 2 ^ k
bit_and_bit k a = rw (split_at_bit k a) at (
    bit_and_one k (a / 2 ^ k / 2) (a / 2 ^ k % 2) (a % 2 ^ k) (omega arith)
      (omega (arith, one-le-pow k 2)))

-- The bit `k` of a result is that of the operands' bits `k`.
div-two_pow : (a k : ℕ) → a / 2 ^ suc k ≡ a / 2 / 2 ^ k
div-two_pow a k = rw pow-suc (rw mul_comm (sym (div-div-eq-div-mul a 2 (2 ^ k))))

pub bit_xor_at : (k a b : ℕ) → bit_xor a b / 2 ^ k % 2 ≡ (a / 2 ^ k + b / 2 ^ k) % 2
bit_xor_at zero a b = omega (arith, bit_xor_step a b)
bit_xor_at (suc k) a b =
    simp div-two_pow (
      ap (λ (t : ℕ). t / 2 ^ k % 2) (omega (arith, bit_xor_step a b))
      ∙ bit_xor_at k (a / 2) (b / 2))

pub bit_and_at : (k a b : ℕ) → bit_and a b / 2 ^ k % 2 ≡ min (a / 2 ^ k % 2) (b / 2 ^ k % 2)
bit_and_at zero a b = omega (arith, bit_and_step a b)
bit_and_at (suc k) a b =
    simp div-two_pow (
      ap (λ (t : ℕ). t / 2 ^ k % 2) (omega (arith, bit_and_step a b))
      ∙ bit_and_at k (a / 2) (b / 2))

-- No operation sets a bit above those of its operands.
pub bit_and-le : (n a b : ℕ) → a ≤ n → bit_and a b ≤ a
bit_and-le n zero b h = omega (arith, bit_and-bitwise 0 b)
bit_and-le zero (suc a) b h = absurd (omega arith)
bit_and-le (suc n) (suc a) b h =
    omega (arith, bit_and_step (suc a) b, bit_and-le n (suc a / 2) (b / 2) (omega arith))

pub bit_or-lt : (k a b : ℕ) → a < 2 ^ k → b < 2 ^ k → bit_or a b < 2 ^ k
bit_or-lt zero zero zero p q = omega arith
bit_or-lt zero (suc a) b p q = absurd (omega arith)
bit_or-lt zero a (suc b) p q = absurd (omega arith)
bit_or-lt (suc k) a b p q = omega (
  arith,
  pow-suc 2 k,
  bit_or_step a b,
  bit_or-lt k (a / 2) (b / 2) (omega (arith, pow-suc 2 k)) (omega (arith, pow-suc 2 k)),
)

pub bit_xor-lt : (k a b : ℕ) → a < 2 ^ k → b < 2 ^ k → bit_xor a b < 2 ^ k
bit_xor-lt zero zero zero p q = omega arith
bit_xor-lt zero (suc a) b p q = absurd (omega arith)
bit_xor-lt zero a (suc b) p q = absurd (omega arith)
bit_xor-lt (suc k) a b p q = omega (
  arith,
  pow-suc 2 k,
  bit_xor_step a b,
  bit_xor-lt k (a / 2) (b / 2) (omega (arith, pow-suc 2 k)) (omega (arith, pow-suc 2 k)),
)
