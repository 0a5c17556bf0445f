-- ===== src/Instr/Status.antt =====
-- emu/core/instrinfo.hpp: `ProcStatus`, the processor's flags, and its conversions from and to a
-- byte.
use yanesemu.Prelude.{ℕ, ◌+◌, ◌*◌, ◌/◌, ◌%◌, ◌^◌, ◌<◌, bit_and, bit_or, ◌≡◌, refl, arith}
use yanesemu.Prelude.{Bool, true, false, to_bool, bit, all_below, all_below_sound, ◌==◌, ==_iff}
use yanesemu.Prelude.Bits.{bit_or_low, bit_and_bit}
use native.Mathlib.Nat.{one-le-pow}

pub record ProcStatus : Type 0 where
  pub carry : Bool
  pub zero : Bool
  pub intdis : Bool
  pub decimal : Bool
  pub breakf : Bool
  pub unused : Bool
  pub ov : Bool
  pub neg : Bool

-- The default member initialisers, and `reset`.
abbrev pub cleared : ProcStatus
cleared = record {
  carry = false;
  zero = false;
  intdis = false;
  decimal = false;
  breakf = false;
  unused = true;
  ov = false;
  neg = false;
}

-- `operator uint8`
unfoldable pub to_byte : ProcStatus → ℕ
to_byte p =
    let p0 = bit p.carry * 2 ^ 0 in
    let p1 = bit_or p0 (bit p.zero * 2 ^ 1) in
    let p2 = bit_or p1 (bit p.intdis * 2 ^ 2) in
    let p3 = bit_or p2 (bit p.decimal * 2 ^ 3) in
    let p4 = bit_or p3 (bit p.breakf * 2 ^ 4) in
    let p5 = bit_or p4 (bit p.unused * 2 ^ 5) in
    let p6 = bit_or p5 (bit p.ov * 2 ^ 6) in bit_or p6 (bit p.neg * 2 ^ 7)

-- `operator=(uint8)`
unfoldable pub of_byte : ℕ → ProcStatus
of_byte b = record {
  carry = to_bool (bit_and b 0x01);
  zero = to_bool (bit_and b 0x02);
  intdis = to_bool (bit_and b 0x04);
  decimal = to_bool (bit_and b 0x08);
  breakf = to_bool (bit_and b 0x10);
  unused = to_bool (bit_and b 0x20);
  ov = to_bool (bit_and b 0x40);
  neg = to_bool (bit_and b 0x80);
}

abbrev digit_sum : ProcStatus → ℕ
digit_sum p =
    bit p.carry
    + bit p.zero * 2
    + bit p.intdis * 4
    + bit p.decimal * 8
    + bit p.breakf * 16
    + bit p.unused * 32
    + bit p.ov * 64
    + bit p.neg * 128

bit-le : (b : Bool) → bit b < 2
bit-le true = omega arith
bit-le false = omega arith

to_byte-eq-digit_sum : (p : ProcStatus) → to_byte p ≡ digit_sum p
unfolding to_byte
to_byte-eq-digit_sum p =
    let p0 = bit p.carry * 1 in
    let p1 = bit_or p0 (bit p.zero * 2) in
    let p2 = bit_or p1 (bit p.intdis * 4) in
    let p3 = bit_or p2 (bit p.decimal * 8) in
    let p4 = bit_or p3 (bit p.breakf * 16) in
    let p5 = bit_or p4 (bit p.unused * 32) in
    let p6 = bit_or p5 (bit p.ov * 64) in
    let e1 = bit_or_low 1 p0 (bit p.zero) (omega (arith, bit-le)) in
    let e2 = bit_or_low 2 p1 (bit p.intdis) (omega (arith, bit-le)) in
    let e3 = bit_or_low 3 p2 (bit p.decimal) (omega (arith, bit-le)) in
    let e4 = bit_or_low 4 p3 (bit p.breakf) (omega (arith, bit-le)) in
    let e5 = bit_or_low 5 p4 (bit p.unused) (omega (arith, bit-le)) in
    let e6 = bit_or_low 6 p5 (bit p.ov) (omega (arith, bit-le)) in
    let e7 = bit_or_low 7 p6 (bit p.neg) (omega (arith, bit-le)) in
    omega (arith, e1, e2, e3, e4, e5, e6, e7)

pub to_byte-lt : (p : ProcStatus) → to_byte p < 256
to_byte-lt p = omega (arith, to_byte-eq-digit_sum p, bit-le)

-- A mask of the one bit `k` tests that bit.
test_bit : (k n : ℕ) (b : Bool) → n / 2 ^ k % 2 ≡ bit b → to_bool (bit_and n (2 ^ k)) ≡ b
test_bit k n b e = rw (bit_and_bit k n, e) (ground (arith, one-le-pow k 2))

-- Storing the status byte back gives every flag its value.
pub of_byte-to_byte : (p : ProcStatus) → of_byte (to_byte p) ≡ p
unfolding of_byte
of_byte-to_byte p = λ i. record {
  carry = test_bit 0 (to_byte p) p.carry (omega (arith, to_byte-eq-digit_sum p, bit-le)) i;
  zero = test_bit 1 (to_byte p) p.zero (omega (arith, to_byte-eq-digit_sum p, bit-le)) i;
  intdis = test_bit 2 (to_byte p) p.intdis (omega (arith, to_byte-eq-digit_sum p, bit-le)) i;
  decimal = test_bit 3 (to_byte p) p.decimal (omega (arith, to_byte-eq-digit_sum p, bit-le)) i;
  breakf = test_bit 4 (to_byte p) p.breakf (omega (arith, to_byte-eq-digit_sum p, bit-le)) i;
  unused = test_bit 5 (to_byte p) p.unused (omega (arith, to_byte-eq-digit_sum p, bit-le)) i;
  ov = test_bit 6 (to_byte p) p.ov (omega (arith, to_byte-eq-digit_sum p, bit-le)) i;
  neg = test_bit 7 (to_byte p) p.neg (omega (arith, to_byte-eq-digit_sum p, bit-le)) i;
}

to_byte-of_byte_table : all_below (λ b. to_byte (of_byte b) == b) 256 ≡ true
unfolding to_byte of_byte all_below
to_byte-of_byte_table = refl

-- Every byte is the status byte of the flags that it sets.
pub to_byte-of_byte : (b : ℕ) → b < 256 → to_byte (of_byte b) ≡ b
to_byte-of_byte b h = (==_iff _ b).0 (all_below_sound _ 256 b to_byte-of_byte_table h)
