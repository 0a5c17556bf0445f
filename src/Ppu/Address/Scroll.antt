-- ===== src/Ppu/Address/Scroll.antt =====
-- emu/core/ppu.cpp: where the movements of the address lead, in dots of the two by two nametables.
use yanesemu.Prelude.{
  ℕ, ◌+◌, ◌*◌, ◌/◌, ◌%◌, ◌^◌, ◌<◌, ◌≤◌, ◌≡◌, ◌≢◌, refl, bit_and, bit_xor, arith, Bool, true, false,
  to_bool, bit, ◌==◌, ◌&&◌, all_below, all_below_sound,
}
use yanesemu.Prelude.Bits.{bit_and_mask, bit_and_bit}
use yanesemu.Util.Bits.{setbit, setbits, field}
use yanesemu.Util.Bits.Fields.{setbits_lem}
use yanesemu.Ppu.State.{Vram}
use yanesemu.Ppu.Address

-- The tile column of an address, 0 .. 63, and its nametable row and row of dots in the nametable.
abbrev pub column : ℕ → ℕ
column v = v % 32 + 32 * (v / 1024 % 2)

abbrev pub vertical : ℕ → ℕ
vertical v = v / 2048 % 2

abbrev pub row : ℕ → ℕ
row v = v / 4096 % 8 + 8 * (v / 32 % 32)

field_lem : (num b n : ℕ) → field num b n ≡ num / 2 ^ b % 2 ^ n
unfolding field
field_lem num b n = bit_and_mask n (num / 2 ^ b)

-- An assignment to each field, as arithmetic.
module _ (v d : ℕ) (h : v < 2 ^ 16) where
  assign_coarse_x : Address.assign v 0 5 d ≡ v / 32 * 32 + d % 32
  unfolding Address.assign
  assign_coarse_x = omega (arith, setbits_lem 0 5 59 v (d % 2 ^ 16) (omega arith) (omega arith))

  assign_coarse_y : Address.assign v 5 5 d ≡ v / 1024 * 1024 + d % 32 * 32 + v % 32
  unfolding Address.assign
  assign_coarse_y = omega (arith, setbits_lem 5 5 54 v (d % 2 ^ 16) (omega arith) (omega arith))

  assign_nt : Address.assign v 10 2 d ≡ v / 4096 * 4096 + d % 4 * 1024 + v % 1024
  unfolding Address.assign
  assign_nt = omega (arith, setbits_lem 10 2 52 v (d % 2 ^ 16) (omega arith) (omega arith))

  assign_fine_y : Address.assign v 12 3 d ≡ v / 32768 * 32768 + d % 8 * 4096 + v % 4096
  unfolding Address.assign
  assign_fine_y = omega (arith, setbits_lem 12 3 49 v (d % 2 ^ 16) (omega arith) (omega arith))

-- The reading of each field.
module _ (v : ℕ) where
  coarse_x_lem : Address.coarse_x v ≡ v % 32
  unfolding Address.coarse_x
  coarse_x_lem = omega (arith, field_lem v 0 5)

  coarse_y_lem : Address.coarse_y v ≡ v / 32 % 32
  unfolding Address.coarse_y
  coarse_y_lem = field_lem v 5 5

  nt_bits_lem : Address.nt_bits v ≡ v / 1024 % 4
  unfolding Address.nt_bits
  nt_bits_lem = field_lem v 10 2

  fine_y_lem : Address.fine_y v ≡ v / 4096 % 8
  unfolding Address.fine_y
  fine_y_lem = field_lem v 12 3

-- `^ 1` and `^ 2` of a number of two bits.
flips :
    all_below (λ n. (bit_xor n 1 == n / 2 * 2 + (n + 1) % 2) && (bit_xor n 2 == (n + 2) % 4)) 4
    ≡ true
unfolding all_below
flips = refl

flip_lem : (n : ℕ) → n < 4 → (bit_xor n 1 ≡ n / 2 * 2 + (n + 1) % 2) × (bit_xor n 2 ≡ (n + 2) % 4)
flip_lem n h = let fact = all_below_sound _ 4 n flips h in ground arith

-- `vert_next` in each of its cases, as arithmetic.
module _ (v : ℕ) (h : v < 2 ^ 16) where
  vert_within : v / 4096 % 8 < 7 → Address.vert_next v ≡ v + 4096
  unfolding Address.vert_next
  vert_within inside = ground (arith, fine_y_lem v, assign_fine_y v (Address.fine_y v + 1) h)

  vert_last : ℕ
  vert_last = Address.assign v 12 3 0

  vert_last-eq : v / 4096 % 8 ≡ 7 → vert_last + 28672 ≡ v
  unfolding vert_last
  vert_last-eq full = omega (arith, assign_fine_y v 0 h)

  vert_wrap :
      v / 4096 % 8 ≡ 7
      → v / 32 % 32 ≡ 29
      → Address.vert_next v ≡ v / 32768 * 32768 + (v / 1024 + 2) % 4 * 1024 + v % 32
  unfolding Address.vert_next vert_last
  vert_wrap full last =
      let w = vert_last in
      let flipped = bit_xor (Address.nt_bits w) 2 in
      let w2 = Address.assign w 10 2 flipped in
      let clear = vert_last-eq full in
      let bits = nt_bits_lem w in
      let flip = flip_lem (Address.nt_bits w) (omega arith) in
      let second = assign_nt w flipped (omega arith) in
      ground (arith, fine_y_lem v, coarse_y_lem w, assign_coarse_y w2 0 (omega arith))

  vert_step :
      v / 4096 % 8 ≡ 7
      → v / 32 % 32 ≢ 29
      → Address.vert_next v
        ≡ v / 32768 * 32768 + v / 1024 % 4 * 1024 + (v / 32 + 1) % 32 * 32 + v % 32
  unfolding Address.vert_next vert_last
  vert_step full inside =
      let w = vert_last in
      let clear = vert_last-eq full in
      ground (
        arith,
        fine_y_lem v,
        coarse_y_lem w,
        assign_coarse_y w 0 (omega arith),
        assign_coarse_y w (Address.coarse_y w + 1) (omega arith),
      )

module _ (v : Vram) (h : v.addr < 2 ^ 16) where
  -- Where the background is shown, `inc_v_horzpos` moves to the next of the 64 tile columns, around
  -- the edge, and keeps the row and the nametable row.
  pub inc_v_horzpos_lem :
      let w = (Address.inc_v_horzpos v true).addr in
      (column w ≡ (column v.addr + 1) % 64)
      × (row w ≡ row v.addr)
      × (vertical w ≡ vertical v.addr)
      × (w < 2 ^ 16)
  unfolding Address.inc_v_horzpos Address.horz_next
  inc_v_horzpos_lem =
      let w = Address.assign v.addr 0 5 0 in
      let first = assign_coarse_x v.addr 0 h in
      ground (
        arith,
        coarse_x_lem v.addr,
        assign_coarse_x v.addr (Address.coarse_x v.addr + 1) h,
        nt_bits_lem w,
        flip_lem (Address.nt_bits w),
        assign_nt w (bit_xor (Address.nt_bits w) 1) (omega arith),
      )

  -- Where the background is shown, `inc_v_vertpos` moves one row of dots down: through the 240 rows of
  -- a nametable into the nametable below, around the edge; from a row past the 240th, which only a
  -- write to the address can set, on to the row 255 and back to 0 in the same nametable. The column
  -- stays.
  pub inc_v_vertpos_lem :
      let w = (Address.inc_v_vertpos v true).addr in
      (row v.addr < 240 → row w + 240 * vertical w ≡ (row v.addr + 240 * vertical v.addr + 1) % 480)
      × (240 ≤ row v.addr → (row w ≡ (row v.addr + 1) % 256) × (vertical w ≡ vertical v.addr))
      × (column w ≡ column v.addr)
      × (w < 2 ^ 16)
  unfolding Address.inc_v_vertpos
  inc_v_vertpos_lem = ground (arith, vert_within v.addr h, vert_wrap v.addr h, vert_step v.addr h)

-- What a copy of a bit of the nametable gives.
setbit_low : (n : ℕ) (b : Bool) → n < 4 → setbit n 0 b ≡ n / 2 * 2 + bit b
unfolding setbit
setbit_low n true h = omega (arith, setbits_lem 0 1 63 n 1 (omega arith) (omega arith))
setbit_low n false h = omega (arith, setbits_lem 0 1 63 n 0 (omega arith) (omega arith))

setbit_high : (n : ℕ) (b : Bool) → n < 4 → setbit n 1 b ≡ 2 * bit b + n % 2
unfolding setbit
setbit_high n true h = omega (arith, setbits_lem 1 1 62 n 1 (omega arith) (omega arith))
setbit_high n false h = omega (arith, setbits_lem 1 1 62 n 0 (omega arith) (omega arith))

module _ (v : Vram) (h : v.addr < 2 ^ 16) (ht : v.tmp < 2 ^ 16) where
  -- Where the background is shown, `copy_v_horzpos` takes the tile column of `tmp` and keeps the
  -- row and the nametable row.
  pub copy_v_horzpos_lem :
      let w = (Address.copy_v_horzpos v true).addr in
      (column w ≡ column v.tmp) × (row w ≡ row v.addr) × (vertical w ≡ vertical v.addr)
  unfolding Address.copy_v_horzpos Address.assign_field
  copy_v_horzpos_lem =
      let w = setbits v.addr 0 5 v.tmp % 2 ^ 16 in
      let first = setbits_lem 0 5 59 v.addr v.tmp (omega arith) (omega arith) in
      let chosen = to_bool (bit_and (Address.nt_bits v.tmp) 1) in
      let flag = setbit_low (Address.nt_bits w) chosen (omega (arith, nt_bits_lem w)) in
      ground (
        arith,
        nt_bits_lem w,
        nt_bits_lem v.tmp,
        bit_and_bit 0 (Address.nt_bits v.tmp),
        assign_nt w (setbit (Address.nt_bits w) 0 chosen) (omega arith),
      )

  -- Where the background is shown, `copy_v_vertpos` takes the nametable row of `tmp` and keeps the
  -- column, but puts the low five bits of `tmp`, its coarse x, for coarse y, and their low three
  -- bits for fine y.
  pub copy_v_vertpos_lem :
      let w = (Address.copy_v_vertpos v true).addr in
      (row w ≡ v.tmp % 8 + 8 * (v.tmp % 32))
      × (vertical w ≡ vertical v.tmp)
      × (column w ≡ column v.addr)
  unfolding Address.copy_v_vertpos Address.assign_field
  copy_v_vertpos_lem =
      let w = setbits v.addr 5 5 v.tmp % 2 ^ 16 in
      let first = setbits_lem 5 5 54 v.addr v.tmp (omega arith) (omega arith) in
      let w2 = setbits w 12 3 v.tmp % 2 ^ 16 in
      let second = setbits_lem 12 3 49 w v.tmp (omega arith) (omega arith) in
      let chosen = to_bool (bit_and (Address.nt_bits v.tmp / 2) 1) in
      let flag = setbit_high (Address.nt_bits w2) chosen (omega (arith, nt_bits_lem w2)) in
      ground (
        arith,
        nt_bits_lem w2,
        nt_bits_lem v.tmp,
        bit_and_bit 0 (Address.nt_bits v.tmp / 2),
        assign_nt w2 (setbit (Address.nt_bits w2) 1 chosen) (omega arith),
      )
