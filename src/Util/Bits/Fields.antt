-- ===== src/Util/Bits/Fields.antt =====
-- emu/util/bits.hpp: `setbits` replaces one field and leaves the others, as arithmetic.
use Prim.Native.Nat.add
use native.Mathlib.Nat.{pow-suc, one-le-pow, mod-eq_of_lt, div-add-mod', div-lt_iff_lt-mul}
use yanesemu.Prelude.{
  ℕ, zero, suc, ◌+◌, ◌-◌, ◌*◌, ◌/◌, ◌%◌, ◌^◌, ◌<◌, ◌≤◌, bit_and, bit_or, ◌≡◌, refl, sym, ap, ◌∙◌,
  arith,
}
use yanesemu.Prelude.Bits.{bit_and_step, bit_or_step, bit_or_fields, bit_and_mask}
use yanesemu.Util.Bits.{setbits, not64}

two_pow_suc : (q k : ℕ) → q * 2 ^ suc k ≡ 2 * (q * 2 ^ k)
two_pow_suc q k = omega (arith, ap (λ (t : ℕ). q * t) (pow-suc 2 k))

-- A mask that keeps the low `b` bits, and what `m` keeps of the rest.
bit_and_split :
    (b q r m : ℕ)
    → r < 2 ^ b
    → bit_and (q * 2 ^ b + r) (m * 2 ^ b + (2 ^ b - 1)) ≡ bit_and q m * 2 ^ b + r
bit_and_split zero zero r m h = ground arith
bit_and_split zero q r m h = ground arith
bit_and_split (suc b) q r m h = ground (
  arith,
  two_pow_suc q b,
  two_pow_suc m b,
  two_pow_suc (bit_and q m) b,
  pow-suc 2 b,
  one-le-pow b 2,
  bit_and_step (q * 2 ^ suc b + r) (m * 2 ^ suc b + (2 ^ suc b - 1)),
  bit_and_split b q (r / 2) m (omega arith),
)

-- A mask that clears the low `n` bits.
bit_and_high : (n q r m : ℕ) → r < 2 ^ n → bit_and (q * 2 ^ n + r) (m * 2 ^ n) ≡ bit_and q m * 2 ^ n
bit_and_high zero q r m h = ground arith
bit_and_high (suc n) q r m h = ground (
  arith,
  two_pow_suc q n,
  two_pow_suc m n,
  two_pow_suc (bit_and q m) n,
  bit_and_step (q * 2 ^ suc n + r) (m * 2 ^ suc n),
  bit_and_high n q (r / 2) m (omega arith),
)

-- `|` of numbers whose low `b` bits are `r` and none.
bit_or_split :
    (b p q r : ℕ) → r < 2 ^ b → bit_or (p * 2 ^ b + r) (q * 2 ^ b) ≡ bit_or p q * 2 ^ b + r
bit_or_split zero p q r h = ground arith
bit_or_split (suc b) p q r h = ground (
  arith,
  two_pow_suc p b,
  two_pow_suc q b,
  two_pow_suc (bit_or p q) b,
  bit_or_step (p * 2 ^ suc b + r) (q * 2 ^ suc b),
  bit_or_split b p q (r / 2) (omega arith),
)

pow-add : (a b : ℕ) → 2 ^ (a + b) ≡ 2 ^ a * 2 ^ b
pow-add zero b = rw add.zero (omega arith)
pow-add (suc a) b =
    rw add.suc
      (omega (arith, pow-suc 2 (a + b), pow-add a b, ap (λ (t : ℕ). t * 2 ^ b) (pow-suc 2 a)))

product_lt : (x y z a : ℕ) → 1 ≤ x → 1 ≤ z → a < y → a * x < x * (y * z)
product_lt x y zero a hx hz h = absurd (omega arith)
product_lt x y (suc z) a hx hz h = let step : a * x + x ≤ x * y = grind arith in grind arith

-- With `x`, `y + 1` and `z + 1` powers of two whose product is 2 ^ 64: the mask of a field, shifted
-- and complemented.
hole :
    (x y z : ℕ)
    → 1 ≤ x
    → x * ((y + 1) * (z + 1)) ≡ 2 ^ 64
    → not64 (y * x % 2 ^ 64) ≡ z * (y + 1) * x + (x - 1)
hole x y z hx e = let bound : y * x < 2 ^ 64 = omega arith in omega arith

suc-eq : (n : ℕ) → suc n ≡ n + 1
suc-eq n = omega arith

add-sub : (n : ℕ) → n + 1 - 1 ≡ n
add-sub n = omega arith

hole_pos :
    (x y z : ℕ)
    → 1 ≤ x
    → 1 ≤ y
    → 1 ≤ z
    → x * (y * z) ≡ 2 ^ 64
    → not64 ((y - 1) * x % 2 ^ 64) ≡ (z - 1) * y * x + (x - 1)
hole_pos x zero z hx hy hz e = absurd (omega arith)
hole_pos x (suc y) zero hx hy hz e = absurd (omega arith)
hole_pos x (suc y) (suc z) hx hy hz e =
    rw (suc-eq y, suc-eq z, add-sub y, add-sub z) (hole x y z hx (rw (suc-eq y, suc-eq z) at e))

-- `num` in three parts: above the field, the field, and below it.
module _ (b n k u f r : ℕ) (e : 2 ^ b * (2 ^ n * 2 ^ k) ≡ 2 ^ 64) (hf : f < 2 ^ n) (hr : r < 2 ^ b)
    (hu : u < 2 ^ k) where
  hole_at : not64 ((2 ^ n - 1) * 2 ^ b % 2 ^ 64) ≡ (2 ^ k - 1) * 2 ^ n * 2 ^ b + (2 ^ b - 1)
  hole_at =
      hole_pos (2 ^ b) (2 ^ n) (2 ^ k) (one-le-pow b 2 (omega arith)) (one-le-pow n 2 (omega arith))
        (one-le-pow k 2 (omega arith)) e

  cleared :
      bit_and ((u * 2 ^ n + f) * 2 ^ b + r) (not64 ((2 ^ n - 1) * 2 ^ b % 2 ^ 64))
      ≡ u * 2 ^ n * 2 ^ b + r
  cleared =
      rw
        (
          hole_at,
          bit_and_split b (u * 2 ^ n + f) r ((2 ^ k - 1) * 2 ^ n) hr,
          bit_and_high n u f (2 ^ k - 1) hf,
          bit_and_mask k u,
        )
        (rw (mod-eq_of_lt hu))

  field_fits : (d : ℕ) → d % 2 ^ n * 2 ^ b % 2 ^ 64 ≡ d % 2 ^ n * 2 ^ b
  field_fits d = mod-eq_of_lt (
      rw (← e) (
        product_lt (2 ^ b) (2 ^ n) (2 ^ k) (d % 2 ^ n) (one-le-pow b 2 (omega arith))
          (one-le-pow k 2 (omega arith)) (omega (arith, one-le-pow n 2))))

  setbits_parts :
      (d : ℕ) → setbits ((u * 2 ^ n + f) * 2 ^ b + r) b n d ≡ (u * 2 ^ n + d % 2 ^ n) * 2 ^ b + r
  unfolding setbits
  setbits_parts d = rw (
    cleared,
    bit_and_mask n d,
    field_fits d,
    bit_or_split b (u * 2 ^ n) (d % 2 ^ n) r hr,
    bit_or_fields n u (d % 2 ^ n) (omega (arith, one-le-pow n 2)),
  )

-- `setbits` puts the low `n` bits of `d` into the field of `n` bits at `b` and keeps all other bits.
pub setbits_lem :
    (b n k num d : ℕ)
    → b + n + k ≡ 64
    → num < 2 ^ 64
    → setbits num b n d ≡ (num / 2 ^ b / 2 ^ n * 2 ^ n + d % 2 ^ n) * 2 ^ b + num % 2 ^ b
setbits_lem b n k num d e h =
    ap (λ (t : ℕ). setbits t b n d) (sym whole)
    ∙ setbits_parts b n k (num / 2 ^ b / 2 ^ n) (num / 2 ^ b % 2 ^ n) (num % 2 ^ b) product
        (omega (arith, one-le-pow n 2)) (omega (arith, one-le-pow b 2)) upper d
  where
    whole : (num / 2 ^ b / 2 ^ n * 2 ^ n + num / 2 ^ b % 2 ^ n) * 2 ^ b + num % 2 ^ b ≡ num
    whole = rw (div-add-mod' (num / 2 ^ b) (2 ^ n)) (div-add-mod' num (2 ^ b))

    product : 2 ^ b * (2 ^ n * 2 ^ k) ≡ 2 ^ 64
    product =
        let width : b + (n + k) ≡ 64 = omega arith in
        rw (← pow-add n k, ← pow-add b (n + k), width) refl

    below : num < 2 ^ k * 2 ^ n * 2 ^ b
    below = let e = product in grind arith

    upper : num / 2 ^ b / 2 ^ n < 2 ^ k
    upper =
        (div-lt_iff_lt-mul (one-le-pow n 2 (omega arith))).1
          ((div-lt_iff_lt-mul (one-le-pow b 2 (omega arith))).1 below)
