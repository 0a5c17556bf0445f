-- ===== src/Ppu/Power.antt =====
-- emu/core/ppu.cpp: `PPU::power` and `PPU::reset`.
use yanesemu.Prelude.{ℕ, zero, suc, ◌+◌, true, false, ◌==◌, if◌then◌else◌}
use yanesemu.Ppu.State.{Io, Clock, Chip}

abbrev pub store : ℕ → ℕ → (ℕ → ℕ) → ℕ → ℕ
store i v m j = if j == i then v else m j

-- `for (i = start; i < start + count; i++) cell[i] = 0;`
unfoldable pub clear : ℕ → ℕ → (ℕ → ℕ) → ℕ → ℕ
clear zero start m = m
clear (suc count) start m = clear count (start + 1) (store start 0 m)

-- What both `power` and `reset` do with PPUCTRL, PPUMASK, `scroll_latch` and `data_buf`.
abbrev pub clear_io : Io → Io
clear_io io = record io {
  vram_inc = false;
  sp_pt_addr = false;
  bg_pt_addr = false;
  sp_size = false;
  ext_bus_dir = false;
  nmi_enabled = false;
  grey = false;
  bg_show_left = false;
  sp_show_left = false;
  bg_show = false;
  sp_show = false;
  red = false;
  green = false;
  blue = false;
  scroll_latch = false;
  data_buf = 0;
}

abbrev pub clear_clock : Clock
clear_clock = record { cycles = 0; lines = 0; odd_frame = false }

unfoldable pub power : {W : Type 0} → Chip W → Chip W
unfolding clear
power s = record s {
  ppu = record s.ppu {
    io = record (clear_io s.ppu.io) {
      sp_overflow = true;
      sp_zero_hit = false;
      vblank = true;
      oam_addr = 0;
    };
    vram = record { addr = 0; tmp = 0; fine_x = 0 };
    clock = clear_clock;
  };
  mem = record {
    vrammem = clear 0x800 0 s.mem.vrammem;
    oammem = clear 0x100 0 s.mem.oammem;
    palmem = clear 0x20 0 s.mem.palmem;
  };
}

unfoldable pub reset : {W : Type 0} → Chip W → Chip W
unfolding clear
reset s = record s {
  ppu = record s.ppu {
    io = record (clear_io s.ppu.io) { sp_overflow = false; sp_zero_hit = false };
    vram = record s.ppu.vram { fine_x = 0 };
    clock = clear_clock;
  };
  mem = record s.mem { oammem = clear 0x100 0 s.mem.oammem };
}
