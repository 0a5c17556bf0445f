-- ===== src/Emulator/Examples.antt =====
-- The theorems on emu/core/emulator.cpp at concrete states: a new emulator, with and without a ROM.
use yanesemu.Prelude.{
  ℕ, ◌+◌, ◌-◌, ◌<◌, ◌≤◌, ◌≡◌, ◌↔◌, refl, arith, Bool, true, false, none, some, [], ◌∷◌, get_elem?,
  length, inl,
}
use yanesemu.Cpu.State.{initial}
use yanesemu.Ppu.State.{Io}
use yanesemu.Ppu.World as Ppu
use yanesemu.Bus as B
use yanesemu.Bus.{Bus}
use yanesemu.Bus.Keeps.{Keeps}
use yanesemu.Cartridge.Examples.{zeros, length-zeros, header, rom, rom-IsImage}
use yanesemu.Cartridge as C
use yanesemu.Emulator as E
use yanesemu.Emulator.{Console, Board, Inner, Emulator, Setup}
use yanesemu.Emulator.Invariant.{HasBuses, new-HasBuses}
use yanesemu.Emulator.Catchup.{Behind, CatchesUp, cycle_diff_lem, run-CatchesUp}
use yanesemu.Emulator.Progress.{CallbackKeeps, Running}
use yanesemu.Emulator.Frame.{run_frame-ends}
use yanesemu.Emulator.Start.{Started, power-Running}
use yanesemu.Emulator.Insert.{fresh_emulator, insert_rom-reads}

-- No canvas, no debugger.
abbrev setup : Setup Bool
setup = record {
  drawpixel = none;
  fetch_callback = none;
  has_quit = λ quit. quit;
  shift_back = λ n. 0;
}

abbrev off : Io
off = record {
  latch = 0;
  vram_inc = false;
  sp_pt_addr = false;
  bg_pt_addr = false;
  sp_size = false;
  ext_bus_dir = false;
  nmi_enabled = false;
  grey = false;
  bg_show_left = false;
  sp_show_left = false;
  bg_show = false;
  sp_show = false;
  red = false;
  green = false;
  blue = false;
  sp_overflow = false;
  sp_zero_hit = false;
  vblank = false;
  oam_addr = 0;
  scroll_latch = false;
  data_buf = 0;
}

abbrev cells : ℕ → ℕ
cells i = 0

abbrev board : Board Bool
board = record {
  ppu = record {
    io = off;
    vram = record { addr = 0; tmp = 0; fine_x = 0 };
    tile = record { nt = 0; attr = 0; low = 0; high = 0 };
    shift = record {
      tlow = 0;
      thigh = 0;
      alow = 0;
      ahigh = 0;
      feed_low = false;
      feed_high = false;
    };
    clock = record { cycles = 0; lines = 0; odd_frame = false };
  };
  mem = record { vrammem = cells; oammem = cells; palmem = cells };
  world = record {
    cpu = initial;
    rammem = cells;
    cartridge = C.initial cells;
    nmi = false;
    rest = false;
  };
  failed = false;
}

-- A bus as it is before its first `map`.
abbrev empty : {W : Type 0} → Bus W
empty = record {
  size = 0;
  lookup = λ a. 0;
  readtab = λ i a w. (0, w);
  writetab = λ i a v w. w;
  assigned = λ i. false;
  overrun = false;
}

empty-Keeps : {W V : Type 0} (view : W → V) (size : ℕ) → Keeps view (B.reset size cells empty)
unfolding B.reset
empty-Keeps view size = record { readers = λ i a w. refl; writers = λ i a v w. refl }

abbrev new : Emulator Bool
new = fresh_emulator setup cells empty empty board

new_wired : HasBuses new
new_wired =
    new-HasBuses setup (B.reset 0x10000 cells empty) (B.reset 0x4000 cells empty) board
      (empty-Keeps (λ b. b.ppu.clock) 0x10000) (empty-Keeps (λ b. b.world.nmi) 0x10000)
      (empty-Keeps (λ i. i.1.nmi) 0x4000) (empty-Keeps (λ i. i.1.cpu.cycles) 0x4000)

new-Behind : Behind 0 new
unfolding E.new
new-Behind = record { fits = omega arith; cycles = refl }

silent : CallbackKeeps setup
silent = record { clock = λ f e. cc; nmi = λ f e. cc }

power-Running_example : Started (E.power setup new) × Started (E.reset setup new)
power-Running_example = power-Running setup new new_wired new-Behind

powered : Running (E.power setup new)
powered = (power-Running setup new new_wired new-Behind).0.running

run_frame-ends_example :
    let s = E.power setup new in
    (t : Emulator Bool) × (E.run_frame setup 29782 s ≡ some t)
    × Running t
    × (s.board.world.rest ≡ false → t.board.world.nmi ≡ false)
run_frame-ends_example = run_frame-ends setup silent (E.power setup new) powered

-- Around the cycle 2^31 the subtraction overflows.
cycle_diff_lem_example :
    (E.cycle_diff 0x80000002 0x7ffffffe ≡ 4)
    × (E.dots 4 ≡ 12)
    × (E.dots_overflow 4 ≡ false)
    × ((E.diff_overflows 0x80000002 0x7ffffffe ≡ true)
        ↔ ((0x7ffffffe < 0x80000000) × (0x80000000 ≤ 0x7ffffffe + 4)))
cycle_diff_lem_example = cycle_diff_lem 0x7ffffffe 4 (omega arith) (omega arith)

new_cycles : Ppu.KeepsView (E.video setup new) (λ c. c.cpu.cycles)
unfolding B.read
new_cycles = record {
  read = λ a m w. new_wired.vram_cycles.readers _ a (m, w);
  drawpixel = λ f e. cc;
}

run-CatchesUp_example : CatchesUp setup 0 new (E.run setup new)
run-CatchesUp_example = run-CatchesUp setup 0 new new_cycles new-Behind (omega arith)

insert_rom-reads_example :
    let r = E.insert_rom setup cells rom new in
    let t = r.1 in
    (r.0 ≡ true)
    × ((a v : ℕ)
        → 0x8000 ≤ a
        → a < 0x10000
        → 0x10000 ≤ a + length (zeros 16384)
        → get_elem? (zeros 16384) (a + length (zeros 16384) - 0x10000) ≡ some v
        → B.read (t.rambus t.vrambus) a t.board ≡ (v, t.board))
    × ((a v : ℕ) (i : Inner Bool)
        → a < 0x2000
        → get_elem? (zeros 8192) a ≡ some v
        → i.1.cartridge ≡ t.board.world.cartridge
        → B.read t.vrambus a i ≡ (v, i))
insert_rom-reads_example =
    insert_rom-reads setup cells cells empty empty board rom header [] (zeros 16384) (zeros 8192)
      (9 ∷ []) rom-IsImage refl refl refl (inl (length-zeros 16384)) (λ e. omega arith)
