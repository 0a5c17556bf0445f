-- ===== src/Ppu/Registers/Access.antt =====
-- emu/core/ppu.cpp: what the CPU gets from the registers that it writes.
use yanesemu.Prelude.{
  ℕ, ◌+◌, ◌*◌, ◌/◌, ◌%◌, ◌^◌, ◌<◌, ◌≡◌, refl, arith, bit_and, bit_or, Bool, true, false, to_bool,
  if◌then◌else◌, bit, ◌==◌, ==_iff, ◌&&◌, all_below, all_below_sound,
}
use yanesemu.Prelude.Bits.{bit_and_mask}
use yanesemu.Util.Bits.{setbits, field}
use yanesemu.Util.Bits.Fields.{setbits_lem}
use yanesemu.Ppu.State.{Io, Video, Chip}
use yanesemu.Ppu.Address.{assign, nt_bits}
use yanesemu.Ppu.Registers

module _ {W : Type 0} ⦃video : Video W⦄ (s : Chip W) where
  -- Two writes to PPUADDR after the latch was cleared, of the high and then the low byte of an
  -- address, set the address and `tmp` to that address modulo 2^14 and leave the latch clear.
  pub writereg_addr :
      (hi lo : ℕ)
      → hi < 256
      → lo < 256
      → s.ppu.vram.tmp < 2 ^ 15
      → s.ppu.io.scroll_latch ≡ false
      → let t = Registers.writereg 0x2006 lo (Registers.writereg 0x2006 hi s) in
        (t.ppu.vram.addr ≡ (hi * 256 + lo) % 2 ^ 14)
        × (t.ppu.vram.tmp ≡ (hi * 256 + lo) % 2 ^ 14)
        × (t.ppu.io.scroll_latch ≡ false)
  unfolding Registers.writereg
  writereg_addr hi lo hh hl ht latch =
      let tmp = s.ppu.vram.tmp in
      let low6 = bit_and_mask 6 hi in
      let first = setbits_lem 8 6 50 tmp (bit_and hi 0x3f) (omega arith) (omega arith) in
      let t1 = setbits tmp 8 6 (bit_and hi 0x3f) % 2 ^ 16 in
      let second = setbits_lem 14 1 49 t1 0 (omega arith) (omega arith) in
      let t2 = setbits t1 14 1 0 % 2 ^ 16 in
      let third = setbits_lem 0 8 56 t2 lo (omega arith) (omega arith) in
      rw latch (omega arith, omega arith, refl)

  -- Two writes to PPUSCROLL after the latch was cleared set the scroll position of `x`, as coarse and
  -- fine x, and of `y`, as coarse and fine y in `tmp`; the nametable bits stay and so does the
  -- address, and the latch is clear again.
  pub writereg_scroll :
      (x y : ℕ)
      → x < 256
      → y < 256
      → s.ppu.vram.tmp < 2 ^ 15
      → s.ppu.io.scroll_latch ≡ false
      → let t = Registers.writereg 0x2005 y (Registers.writereg 0x2005 x s) in
        let nt = s.ppu.vram.tmp / 1024 % 4 in
        (t.ppu.vram.tmp ≡ y % 8 * 4096 + nt * 1024 + y / 8 * 32 + x / 8)
        × (t.ppu.vram.fine_x ≡ x % 8)
        × (t.ppu.vram.addr ≡ s.ppu.vram.addr)
        × (t.ppu.io.scroll_latch ≡ false)
  unfolding Registers.writereg
  writereg_scroll x y hx hy ht latch =
      let tmp = s.ppu.vram.tmp in
      let x5 = bit_and_mask 5 (x / 2 ^ 3) in
      let x3 = bit_and_mask 3 x in
      let y5 = bit_and_mask 5 (y / 2 ^ 3) in
      let y3 = bit_and_mask 3 y in
      let first =
        setbits_lem 0 5 59 tmp (bit_and (x / 2 ^ 3) 0x1f % 2 ^ 16) (omega arith) (omega arith) in
      let t1 = setbits tmp 0 5 (bit_and (x / 2 ^ 3) 0x1f % 2 ^ 16) % 2 ^ 16 in
      let second =
        setbits_lem 5 5 54 t1 (bit_and (y / 2 ^ 3) 0x1f % 2 ^ 16) (omega arith) (omega arith) in
      let t2 = setbits t1 5 5 (bit_and (y / 2 ^ 3) 0x1f % 2 ^ 16) % 2 ^ 16 in
      let third = setbits_lem 12 3 49 t2 (bit_and y 0x7 % 2 ^ 16) (omega arith) (omega arith) in
      rw latch (omega arith, omega arith, refl, refl)

-- The bytes of PPUCTRL and PPUMASK put together from the bits that a write takes apart.
abbrev joined : ℕ → ℕ → ℕ → ℕ → ℕ → ℕ → ℕ → ℕ
joined low b2 b3 b4 b5 b6 b7 =
    bit_or
      (bit_or
        (bit_or (bit_or (bit_or (bit_or low (b2 * 2 ^ 2)) (b3 * 2 ^ 3)) (b4 * 2 ^ 4)) (b5 * 2 ^ 5))
        (b6 * 2 ^ 6))
      (b7 * 2 ^ 7)

abbrev at_mask : ℕ → ℕ → ℕ
at_mask v m = bit (to_bool (bit_and v m))

abbrev upper_of : ℕ → ℕ → ℕ
upper_of v low =
    joined low (at_mask v 0x04) (at_mask v 0x08) (at_mask v 0x10) (at_mask v 0x20) (at_mask v 0x40)
      (at_mask v 0x80)

joined_table :
    all_below
      (λ v.
        (upper_of v (v % 4) % 2 ^ 8 == v)
        && (upper_of v (bit_or (at_mask v 0x01) (at_mask v 0x02 * 2 ^ 1)) == v))
      256
    ≡ true
unfolding all_below
joined_table = refl

and_true : (p q : Bool) → (p && q) ≡ true → (p ≡ true) × (q ≡ true)
and_true true true e = (refl, refl)
and_true true false e = cc
and_true false q e = cc

joined_lem :
    (v : ℕ)
    → v < 256
    → (upper_of v (v % 4) % 2 ^ 8 ≡ v)
      × (upper_of v (bit_or (at_mask v 0x01) (at_mask v 0x02 * 2 ^ 1)) ≡ v)
joined_lem v h =
    let both = all_below_sound _ 256 v joined_table h in
    let cases = and_true _ _ both in ((==_iff _ v).0 cases.0, (==_iff _ v).0 cases.1)

module _ {W : Type 0} ⦃video : Video W⦄ (s : Chip W) (v : ℕ) (h : v < 256)
    (ht : s.ppu.vram.tmp < 2 ^ 15) where
  written_nt : nt_bits (assign s.ppu.vram.tmp 10 2 (bit_and v 0x03)) ≡ v % 4
  unfolding nt_bits assign field
  written_nt =
      let d = bit_and v 0x03 % 2 ^ 16 in
      let low2 = bit_and_mask 2 v in
      let put = setbits_lem 10 2 52 s.ppu.vram.tmp d (omega arith) (omega arith) in
      omega (arith, bit_and_mask 2 (setbits s.ppu.vram.tmp 10 2 d % 2 ^ 16 / 2 ^ 10))

  -- The debugger's `readreg_no_sideeff` gives for PPUCTRL and PPUMASK the byte that was last
  -- written.
  pub readreg_no_sideeff-writereg :
      ((Registers.readreg_no_sideeff 0x2000 (Registers.writereg 0x2000 v s)).0 ≡ v)
      × ((Registers.readreg_no_sideeff 0x2001 (Registers.writereg 0x2001 v s)).0 ≡ v)
  unfolding Registers.readreg_no_sideeff Registers.writereg
  readreg_no_sideeff-writereg = (rw written_nt (joined_lem v h).0, (joined_lem v h).1)

-- `|` of a byte with the flags of PPUSTATUS, a second time without the vertical blank.
abbrev status_bits : Bool → Bool → Bool → ℕ
status_bits vblank hit overflow =
    bit_or (bit_or (bit vblank * 2 ^ 7) (bit hit * 2 ^ 6)) (bit overflow * 2 ^ 5)

sticky_table :
    (vblank hit overflow : Bool)
    → all_below
        (λ l.
          bit_or (bit_or l (status_bits vblank hit overflow)) (status_bits false hit overflow)
          == bit_or l (status_bits vblank hit overflow))
        256
      ≡ true
unfolding all_below
sticky_table true true true = refl
sticky_table true true false = refl
sticky_table true false true = refl
sticky_table true false false = refl
sticky_table false true true = refl
sticky_table false true false = refl
sticky_table false false true = refl
sticky_table false false false = refl

-- A bit that is 1 if the flag is set or the old bit is.
abbrev pub sticky : Bool → ℕ → ℕ
sticky flag old = if flag then 1 else old

-- The byte that a read of PPUSTATUS gives.
abbrev pub IsStatus : Io → ℕ → Type 0
IsStatus io v =
    (v / 128 ≡ sticky io.vblank (io.latch / 128))
    × (v / 64 % 2 ≡ sticky io.sp_zero_hit (io.latch / 64 % 2))
    × (v / 32 % 2 ≡ sticky io.sp_overflow (io.latch / 32 % 2))
    × (v % 32 ≡ io.latch % 32)

status_table :
    (vblank hit overflow : Bool)
    → all_below
        (λ l.
          let v = bit_or l (status_bits vblank hit overflow) in
          v / 128 == sticky vblank (l / 128)
          && v / 64 % 2 == sticky hit (l / 64 % 2)
          && v / 32 % 2 == sticky overflow (l / 32 % 2)
          && v % 32 == l % 32)
        256
      ≡ true
unfolding all_below
status_table true true true = refl
status_table true true false = refl
status_table true false true = refl
status_table true false false = refl
status_table false true true = refl
status_table false true false = refl
status_table false false true = refl
status_table false false false = refl

all_equal :
    (a b c d e f g h : ℕ)
    → (a == b && c == d && e == f && g == h) ≡ true
    → (a ≡ b) × (c ≡ d) × (e ≡ f) × (g ≡ h)
all_equal a b c d e f g h all = ground arith

module _ {W : Type 0} ⦃video : Video W⦄ (s : Chip W) (h : s.ppu.io.latch < 256) where
  -- Reading PPUSTATUS gives the flags of the vertical blank, the sprite hit and the sprite overflow in
  -- the bits 7, 6 and 5, or'd with what stood in these bits of the latch, which is a byte, and the
  -- low bits of the latch. It clears the flag of the vertical blank and the write latch, but a second
  -- read gives the same byte again.
  pub readreg-IsStatus :
      let t = Registers.readreg 0x2002 s in
      (t.1.ppu.io.vblank ≡ false)
      × (t.1.ppu.io.scroll_latch ≡ false)
      × IsStatus s.ppu.io t.0
      × ((Registers.readreg 0x2002 t.1).0 ≡ t.0)
  unfolding Registers.readreg
  readreg-IsStatus = (
    refl,
    refl,
    all_equal _ _ _ _ _ _ _ _ (
        all_below_sound _ 256 s.ppu.io.latch
          (status_table s.ppu.io.vblank s.ppu.io.sp_zero_hit s.ppu.io.sp_overflow) h),
    (==_iff _ _).0 (
        all_below_sound _ 256 s.ppu.io.latch
          (sticky_table s.ppu.io.vblank s.ppu.io.sp_zero_hit s.ppu.io.sp_overflow) h),
  )
