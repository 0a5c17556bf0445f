-- ===== src/Ppu/Examples.antt =====
-- The theorems on emu/core/ppu.cpp and ppumain.cpp at concrete states, on a bus of zeros that
-- ignores what is written; the world counts the NMIs.
use yanesemu.Prelude.{ℕ, ◌+◌, ◌*◌, ◌^◌, ◌<◌, ◌≤◌, ◌≡◌, refl, arith, true, false, none}
use yanesemu.Ppu.State.{Io, Vram, Clock, Video, Chip}
use yanesemu.Ppu.Address
use yanesemu.Ppu.Address.{Mirroring, decode}
use yanesemu.Ppu.Address.Scroll.{column, row, vertical, inc_v_vertpos_lem}
use yanesemu.Ppu.Power.{power}
use yanesemu.Ppu.Registers.{readreg, writereg}
use yanesemu.Ppu.Registers.Access.{IsStatus, readreg-IsStatus, writereg_addr}
use yanesemu.Ppu.Frame
use yanesemu.Ppu.Timing.Frames.{InFrame, distance, at_vblank, runs, runs_reach_vblank}
use yanesemu.Ppu.Timing.Reached.{Reached, Reached-InFrame}

abbrev counting : Video ℕ
counting = record {
  read = λ a m w. (0, w);
  write = λ a v m w. (m, w);
  drawpixel = none;
  nmi_callback = λ w. w + 1;
  shift_back = λ n. 0;
}

abbrev quiet_io : Io
quiet_io = record {
  latch = 0;
  vram_inc = false;
  sp_pt_addr = false;
  bg_pt_addr = false;
  sp_size = false;
  ext_bus_dir = false;
  nmi_enabled = false;
  grey = false;
  bg_show_left = false;
  sp_show_left = false;
  bg_show = true;
  sp_show = false;
  red = false;
  green = false;
  blue = false;
  sp_overflow = false;
  sp_zero_hit = false;
  vblank = true;
  oam_addr = 0;
  scroll_latch = false;
  data_buf = 0;
}

-- At the last tile of the last row of a nametable, and about to begin the vertical blank.
abbrev edge : Vram
edge = record { addr = 0x73bf; tmp = 0x0c05; fine_x = 0 }

abbrev before_vblank : Clock
before_vblank = record { cycles = 82182; lines = 241; odd_frame = false }

abbrev example : Chip ℕ
example = record {
  ppu = record {
    io = quiet_io;
    vram = edge;
    tile = record { nt = 0; attr = 0; low = 0; high = 0 };
    shift = record {
      tlow = 0;
      thigh = 0;
      alow = 0;
      ahigh = 0;
      feed_low = false;
      feed_high = false;
    };
    clock = before_vblank;
  };
  mem = record { vrammem = λ i. 0; oammem = λ i. 0; palmem = λ i. 0 };
  world = 0;
  failed = false;
}

before_vblank-InFrame : InFrame before_vblank
before_vblank-InFrame = record { lines = refl; cycles = omega arith; odd_frame = refl }

inc_v_vertpos_lem_example :
    let w = (Address.inc_v_vertpos edge true).addr in
    (239 < 240 → row w + 240 * vertical w ≡ 240)
    × (240 ≤ 239 → (row w ≡ 240) × (vertical w ≡ 0))
    × (column w ≡ 31)
    × (w < 2 ^ 16)
inc_v_vertpos_lem_example = inc_v_vertpos_lem edge (omega arith)

readreg-IsStatus_example :
    let t = readreg ⦃video = counting⦄ 0x2002 example in
    (t.1.ppu.io.vblank ≡ false)
    × (t.1.ppu.io.scroll_latch ≡ false)
    × IsStatus example.ppu.io t.0
    × ((readreg ⦃video = counting⦄ 0x2002 t.1).0 ≡ t.0)
readreg-IsStatus_example = readreg-IsStatus ⦃video = counting⦄ example (omega arith)

runs_reach_vblank_example :
    (0 < 89342)
    × (at_vblank (runs ⦃video = counting⦄ 0 example).ppu.clock ≡ true)
    × ((m : ℕ) → m < 0 → at_vblank (runs ⦃video = counting⦄ m example).ppu.clock ≡ false)
unfolding distance
runs_reach_vblank_example = runs_reach_vblank ⦃video = counting⦄ example before_vblank-InFrame

-- Power-up, a write to PPUMASK and two steps.
abbrev walked : Chip ℕ
walked =
    Frame.run ⦃video = counting⦄
      (Frame.run ⦃video = counting⦄ (writereg ⦃video = counting⦄ 0x2001 8 (power example)))

walked-Reached : Reached ⦃video = counting⦄ walked
walked-Reached =
    Reached.run_from (Reached.run_from (Reached.write_from 0x2001 8 (Reached.powered example refl)))

Reached-InFrame_example : InFrame walked.ppu.clock × (walked.failed ≡ false)
Reached-InFrame_example = Reached-InFrame ⦃video = counting⦄ walked walked-Reached

writereg_addr_example :
    let t =
      writereg ⦃video = counting⦄ 0x2006 0x08 (writereg ⦃video = counting⦄ 0x2006 0x7f example) in
    (t.ppu.vram.addr ≡ 0x3f08) × (t.ppu.vram.tmp ≡ 0x3f08) × (t.ppu.io.scroll_latch ≡ false)
writereg_addr_example =
    writereg_addr ⦃video = counting⦄ example 0x7f 0x08 (omega arith) (omega arith) (omega arith)
      refl
