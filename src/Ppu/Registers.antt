-- ===== src/Ppu/Registers.antt =====
-- emu/core/ppu.cpp: the registers that the CPU reads and writes.
pub mod Access
use yanesemu.Prelude.{
  ℕ, zero, suc, ◌+◌, ◌*◌, ◌/◌, ◌%◌, ◌^◌, bit_and, bit_or, Bool, true, false, not, to_bool, bit, ltb,
  ◌==◌, if◌then◌else◌,
}
use yanesemu.Util.Bits.{setbits, setbit}
use yanesemu.Ppu.State.{
  Io, Vram, Clock, Ppu, Memories, Video, Chip, read_bus, write_bus, set_io, set_vram, set_ppu,
}
use yanesemu.Ppu.Address.{assign, coarse_x, coarse_y, fine_y, nt_bits}

-- `1UL << 5*io.vram_inc`
abbrev pub increment : Io → ℕ
increment io = 2 ^ (5 * bit io.vram_inc)

abbrev pub advance : Ppu → Ppu
advance p = set_vram (record p.vram { addr = (p.vram.addr + increment p.io % 2 ^ 16) % 2 ^ 16 }) p

-- `case 0x2002` of `readreg`, up to its return.
unfoldable pub read_status : Io → Io
read_status io = record io {
  latch = bit_or io.latch (
      bit_or (bit_or (bit io.vblank * 2 ^ 7) (bit io.sp_zero_hit * 2 ^ 6))
        (bit io.sp_overflow * 2 ^ 5));
  vblank = false;
  scroll_latch = false;
}

module _ {W : Type 0} ⦃video : Video W⦄ where
  -- `case 0x2007` of `readreg`, up to its return.
  unfoldable pub read_data : Chip W → Chip W
  unfolding read_bus
  read_data s =
      if ltb s.ppu.vram.addr 0x3f00
      then (let t = set_ppu (set_io (record s.ppu.io { latch = s.ppu.io.data_buf }) s.ppu) s in
          let (v, u) = read_bus t.ppu.vram.addr t in
          set_ppu (advance (set_io (record u.ppu.io { data_buf = v }) u.ppu)) u)
      else (let (v, u) = read_bus s.ppu.vram.addr s in
          set_ppu (advance (set_io (record u.ppu.io { latch = v }) u.ppu)) u)

  -- The effect of `readreg`, which returns the latch.
  unfoldable pub read_effect : ℕ → Chip W → Chip W
  unfolding read_data read_status
  read_effect which s =
      if which == 0x2002
      then set_ppu (set_io (read_status s.ppu.io) s.ppu) s
      else if which == 0x2004
      then set_ppu (set_io (record s.ppu.io { latch = 0 }) s.ppu) s
      else if which == 0x2007
      then read_data s
      else s

  unfoldable pub readreg : ℕ → Chip W → ℕ × Chip W
  unfolding read_effect
  readreg which s = let t = read_effect which s in (t.ppu.io.latch, t)

-- PPUCTRL
unfoldable pub write_ctrl : ℕ → Ppu → Ppu
unfolding assign
write_ctrl v p = record p {
  vram = record p.vram { tmp = assign p.vram.tmp 10 2 (bit_and v 0x03) };
  io = record p.io {
    vram_inc = to_bool (bit_and v 0x04);
    sp_pt_addr = to_bool (bit_and v 0x08);
    bg_pt_addr = to_bool (bit_and v 0x10);
    sp_size = to_bool (bit_and v 0x20);
    ext_bus_dir = to_bool (bit_and v 0x40);
    nmi_enabled = to_bool (bit_and v 0x80);
  };
}

-- PPUMASK
unfoldable pub write_mask : ℕ → Io → Io
write_mask v io = record io {
  grey = to_bool (bit_and v 0x01);
  bg_show_left = to_bool (bit_and v 0x02);
  sp_show_left = to_bool (bit_and v 0x04);
  bg_show = to_bool (bit_and v 0x08);
  sp_show = to_bool (bit_and v 0x10);
  red = to_bool (bit_and v 0x20);
  green = to_bool (bit_and v 0x40);
  blue = to_bool (bit_and v 0x80);
}

-- PPUSCROLL
unfoldable pub write_scroll : ℕ → Ppu → Ppu
unfolding assign
write_scroll v p = record p {
  vram =
      if not p.io.scroll_latch
      then record p.vram {
        tmp = assign p.vram.tmp 0 5 (bit_and (v / 2 ^ 3) 0x1f);
        fine_x = bit_and v 0x7;
      }
      else record p.vram {
        tmp = assign (assign p.vram.tmp 5 5 (bit_and (v / 2 ^ 3) 0x1f)) 12 3 (bit_and v 0x7);
      };
  io = record p.io { scroll_latch = not p.io.scroll_latch };
}

-- PPUADDR
unfoldable pub write_addr : ℕ → Ppu → Ppu
unfolding setbits setbit
write_addr v p = record p {
  vram =
      if not p.io.scroll_latch
      then record p.vram {
        tmp = setbit (setbits p.vram.tmp 8 6 (bit_and v 0x3f) % 2 ^ 16) 14 false % 2 ^ 16;
      }
      else (let t = setbits p.vram.tmp 0 8 v % 2 ^ 16 in record p.vram { tmp = t; addr = t });
  io = record p.io { scroll_latch = not p.io.scroll_latch };
}

module _ {W : Type 0} ⦃video : Video W⦄ where
  -- PPUDATA
  unfoldable pub write_data : ℕ → Chip W → Chip W
  unfolding write_bus
  write_data v s = let t = write_bus s.ppu.vram.addr v s in set_ppu (advance t.ppu) t

  -- The `switch` of `writereg`, on the state whose latch is set.
  unfoldable pub write_case : ℕ → ℕ → Chip W → Chip W
  unfolding write_ctrl write_mask write_scroll write_addr write_data
  write_case which v s =
      if which == 0x2000
      then set_ppu (write_ctrl v s.ppu) s
      else if which == 0x2001
      then set_ppu (set_io (write_mask v s.ppu.io) s.ppu) s
      else if which == 0x2003
      then set_ppu (set_io (record s.ppu.io { oam_addr = v }) s.ppu) s
      else if which == 0x2004
      then set_ppu (set_io (record s.ppu.io { oam_addr = (s.ppu.io.oam_addr + 1) % 2 ^ 8 }) s.ppu) s
      else if which == 0x2005
      then set_ppu (write_scroll v s.ppu) s
      else if which == 0x2006
      then set_ppu (write_addr v s.ppu) s
      else if which == 0x2007
      then write_data v s
      else s

  unfoldable pub writereg : ℕ → ℕ → Chip W → Chip W
  unfolding write_case
  writereg which v s = write_case which v (set_ppu (set_io (record s.ppu.io { latch = v }) s.ppu) s)

-- The bytes that `readreg_no_sideeff` puts together.
unfoldable pub ctrl_byte : Ppu → ℕ
unfolding nt_bits
ctrl_byte p =
    bit_or
      (bit_or
        (bit_or
          (bit_or
            (bit_or (bit_or (nt_bits p.vram.tmp) (bit p.io.vram_inc * 2 ^ 2))
              (bit p.io.sp_pt_addr * 2 ^ 3))
            (bit p.io.bg_pt_addr * 2 ^ 4))
          (bit p.io.sp_size * 2 ^ 5))
        (bit p.io.ext_bus_dir * 2 ^ 6))
      (bit p.io.nmi_enabled * 2 ^ 7)
    % 2 ^ 8

unfoldable pub mask_byte : Io → ℕ
mask_byte io =
    bit_or
      (bit_or
        (bit_or
          (bit_or
            (bit_or
              (bit_or (bit_or (bit io.grey) (bit io.bg_show_left * 2 ^ 1))
                (bit io.sp_show_left * 2 ^ 2))
              (bit io.bg_show * 2 ^ 3))
            (bit io.sp_show * 2 ^ 4))
          (bit io.red * 2 ^ 5))
        (bit io.green * 2 ^ 6))
      (bit io.blue * 2 ^ 7)

module _ {W : Type 0} ⦃video : Video W⦄ where
  unfoldable pub readreg_no_sideeff : ℕ → Chip W → ℕ × Chip W
  unfolding ctrl_byte mask_byte coarse_x coarse_y fine_y read_bus
  readreg_no_sideeff which s =
      let io = s.ppu.io in
      let vram = s.ppu.vram in
      if which == 0x2000
      then (ctrl_byte s.ppu, s)
      else if which == 0x2001
      then (mask_byte io, s)
      else if which == 0x2002
      then (
        bit_or (bit_or (bit io.vblank * 2 ^ 7) (bit io.sp_zero_hit * 2 ^ 6))
            (bit io.sp_overflow * 2 ^ 5),
        s,
      )
      else if which == 0x2003
      then (io.oam_addr, s)
      else if which == 0x2004
      then (0, s)
      else if which == 0x2005
      then (
        (if not io.scroll_latch
              then bit_or (vram.fine_x * 2 ^ 5) (coarse_x vram.tmp)
              else bit_or (fine_y vram.tmp * 2 ^ 5) (coarse_y vram.tmp))
            % 2 ^ 8,
        s,
      )
      else if which == 0x2006
      then (
        if not io.scroll_latch then bit_and vram.tmp 0xff else bit_and (vram.tmp / 2 ^ 8) 0xff,
        s,
      )
      else if which == 0x2007
      then (if ltb vram.addr 0x3f00 then (io.data_buf, s) else read_bus vram.addr s)
      else (0xff, s)
