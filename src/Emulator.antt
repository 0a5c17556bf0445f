-- ===== src/Emulator.antt =====
-- emu/core/emulator.hpp and emulator.cpp: the devices wired to the two buses, a step of the CPU
-- with its dots of the PPU, a frame, and the insertion of a ROM.
pub mod Wired
pub mod Invariant
pub mod Catchup
pub mod Progress
pub mod Frame
pub mod Start
pub mod Insert
mod Examples
use yanesemu.Prelude.{
  ℕ, zero, suc, ◌+◌, ◌-◌, ◌*◌, ◌%◌, ◌^◌, Bool, true, false, not, ltb, leb, ◌==◌, ◌&&◌, ◌||◌,
  if◌then◌else◌, Option, none, some,
}
use yanesemu.Util.File.{File}
use yanesemu.Cpu.State.{Cpu, Env, Machine, Status}
use yanesemu.Cpu.Execute as Cpu
use yanesemu.Ppu.State.{Memories, Video, Chip}
use yanesemu.Ppu.Address.{Mirroring}
use yanesemu.Ppu.Registers as Registers
use yanesemu.Ppu.Power as Power
use yanesemu.Ppu.Timing.Frames.{runs}
use yanesemu.Bus as B
use yanesemu.Bus.{Bus}
use yanesemu.Bus.Wiring as Wiring
use yanesemu.Bus.Wiring.{Devices}
use yanesemu.Cartridge as C
use yanesemu.Cartridge.{Cartridge}

-- What the emulator has besides the PPU: the CPU with its RAM, the cartridge, the flag of the NMI,
-- and the rest, such as the canvas and the debugger, as a type `V`.
pub record Console (V : Type 0) : Type 0 where
  pub cpu : Cpu
  pub rammem : ℕ → ℕ
  pub cartridge : Cartridge
  pub nmi : Bool
  pub rest : V

-- The PPU, with its memories, among the rest of the emulator.
abbrev pub Board : Type 0 → Type 0
Board V = Chip (Console V)

-- The memories of the PPU, which the closures on its bus reach, among the rest of the emulator.
abbrev pub Inner : Type 0 → Type 0
Inner V = Memories × Console V

-- The closures on the bus of the CPU reach the bus of the PPU through a pointer, so that `rambus`
-- depends on the state of the other bus. `cycle` is an `int`. `overflowed` tells that a computation
-- on `int` has overflowed, which C++ leaves undefined; the model goes on with the number that wraps
-- around.
pub record Emulator (V : Type 0) : Type 0 where
  pub board : Board V
  pub rambus : Bus (Inner V) → Bus (Board V)
  pub vrambus : Bus (Inner V)
  pub cycle : ℕ
  pub overflowed : Bool

-- What is set up outside: the canvas of `set_screen`, the callback that `enable_debugger` registers
-- in the CPU, whether the debugger has quit, and the shift by a negative number in the PPU.
pub record Setup (V : Type 0) : Type 0 where
  pub drawpixel : Option (ℕ → ℕ → ℕ → V → V)
  pub fetch_callback : Option (Status → ℕ → ℕ → Board V → Board V)
  pub has_quit : V → Bool
  pub shift_back : ℕ → ℕ

module _ {V : Type 0} where
  -- The callback that the constructor gives the PPU.
  unfoldable pub nmi_callback : Console V → Console V
  nmi_callback w = record w { nmi = true; cpu = record w.cpu { nmipending = true } }

  -- The closures that the devices map on the bus of the PPU. It has neither the RAM nor registers.
  abbrev pub inner_devices : Devices (Inner V)
  inner_devices = record {
    rammem = λ a w. 0;
    set_rammem = λ a v w. w;
    readreg = λ a w. (0, w);
    writereg = λ a v w. w;
    read_prgrom = λ a w. 0;
    read_chrrom = λ a w. C.read_chrrom w.1.cartridge a;
    vrammem = λ a w. w.0.vrammem a;
    set_vrammem = λ a v w. (record w.0 { vrammem = B.set_at a v w.0.vrammem }, w.1);
    palmem = λ a w. w.0.palmem a;
    set_palmem = λ a v w. (record w.0 { palmem = B.set_at a v w.0.palmem }, w.1);
  }

  abbrev pub set_cpu : Cpu → Board V → Board V
  set_cpu c b = record b { world = record b.world { cpu = c } }

  -- A member function of the CPU, called by the emulator. While it runs, the copy of the CPU in the
  -- world stands still; no closure and no callback looks at it.
  abbrev pub on_cpu : (Machine (Board V) → (Unit {0}) × Machine (Board V)) → Board V → Board V
  on_cpu f b = let (u, m) = f (record { cpu = b.world.cpu; world = b }) in set_cpu m.cpu m.world

module _ {V : Type 0} (setup : Setup V) where
  abbrev pub on_rest : (V → V) → Console V → Console V
  on_rest f w = record w { rest = f w.rest }

  -- What the PPU reaches, with its bus.
  abbrev pub video_of : Bus (Inner V) → Video (Console V)
  video_of bus = record {
    read = λ a m w. (let (v, i) = B.read bus a (m, w) in (v, i.1));
    write = λ a v m w. B.write bus a v (m, w);
    drawpixel = elim setup.drawpixel [ none ↦ none | some f ↦ some (λ x y c. on_rest (f x y c)) ];
    nmi_callback = nmi_callback;
    shift_back = setup.shift_back;
  }

  -- The closures that the devices map on the bus of the CPU.
  abbrev pub board_devices : Bus (Inner V) → Devices (Board V)
  board_devices bus = record {
    rammem = λ a s. s.world.rammem a;
    set_rammem =
        λ a v s. record s { world = record s.world { rammem = B.set_at a v s.world.rammem } };
    readreg = Registers.readreg ⦃video = video_of bus⦄;
    writereg = Registers.writereg ⦃video = video_of bus⦄;
    read_prgrom = λ a s. C.read_prgrom s.world.cartridge a;
    read_chrrom = λ a s. 0;
    vrammem = λ a s. 0;
    set_vrammem = λ a v s. s;
    palmem = λ a s. 0;
    set_palmem = λ a v s. s;
  }

  -- What the CPU reaches, with its bus.
  abbrev pub env_of : Bus (Board V) → Env (Board V)
  env_of bus = record {
    read = B.read bus;
    write = B.write bus;
    fetch_callback = setup.fetch_callback;
  }

  -- The constructor wires the CPU and the PPU to the two new buses.
  unfoldable pub wire_rambus : Bus (Board V) → Bus (Inner V) → Bus (Board V)
  unfolding Wiring.attach_cpu Wiring.attach_ppu
  wire_rambus b bus = let dev = board_devices bus in Wiring.attach_ppu dev (Wiring.attach_cpu dev b)

  unfoldable pub wire_vrambus : Bus (Inner V) → Bus (Inner V)
  unfolding Wiring.attach_ppu_vram
  wire_vrambus b = Wiring.attach_ppu_vram inner_devices b

-- `int cycle_diff = curr_cycle - cycle;` with its wrap-around, and whether it overflows: the operands
-- have different signs, and the result has not that of the first one.
unfoldable pub cycle_diff : ℕ → ℕ → ℕ
cycle_diff curr cycle = (curr + (2 ^ 32 - cycle)) % 2 ^ 32

unfoldable pub diff_overflows : ℕ → ℕ → Bool
unfolding cycle_diff
diff_overflows curr cycle =
    let diff = cycle_diff curr cycle in
    if ltb curr (2 ^ 31)
    then not (ltb cycle (2 ^ 31)) && not (ltb diff (2 ^ 31))
    else ltb cycle (2 ^ 31) && ltb diff (2 ^ 31)

-- `i < cycle_diff*3`: how often the loop runs, and whether the product overflows.
unfoldable pub dots : ℕ → ℕ
dots diff = if ltb diff (2 ^ 31) then diff * 3 else 0

unfoldable pub dots_overflow : ℕ → Bool
dots_overflow diff = leb 715827883 diff && leb diff (2 ^ 32 - 715827883)

module _ {V : Type 0} (setup : Setup V) where
  -- The constructor, from the two new buses and the members as they are initialised.
  unfoldable pub new : Bus (Board V) → Bus (Inner V) → Board V → Emulator V
  unfolding wire_rambus wire_vrambus
  new rambus vrambus board = record {
    board = board;
    rambus = wire_rambus setup rambus;
    vrambus = wire_vrambus setup vrambus;
    cycle = 0;
    overflowed = false;
  }

  abbrev pub video : Emulator V → Video (Console V)
  video s = video_of setup s.vrambus

  abbrev pub env : Emulator V → Env (Board V)
  env s = env_of setup (s.rambus s.vrambus)

  -- `run` once the CPU has run.
  unfoldable pub catch_up : Emulator V → Emulator V
  unfolding cycle_diff diff_overflows dots dots_overflow runs
  catch_up s =
      let curr = s.board.world.cpu.cycles % 2 ^ 32 in
      let diff = cycle_diff curr s.cycle in
      record s {
        board = runs ⦃video = video s⦄ (dots diff) s.board;
        cycle = curr;
        overflowed = s.overflowed || diff_overflows curr s.cycle || dots_overflow diff;
      }

  unfoldable pub run : Emulator V → Emulator V
  unfolding catch_up Cpu.run
  run s = catch_up (record s { board = on_cpu (Cpu.run ⦃env = env s⦄) s.board })

  -- `while (!nmi) run();`, with fuel.
  unfoldable pub run_until : ℕ → Emulator V → Option (Emulator V)
  unfolding run
  run_until zero s = none
  run_until (suc fuel) s =
      let rest = run_until fuel (run s) in if s.board.world.nmi then some s else rest

  abbrev pub clear_nmi : Emulator V → Emulator V
  clear_nmi s = record s { board = record s.board { world = record s.board.world { nmi = false } } }

  unfoldable pub run_frame : ℕ → Emulator V → Option (Emulator V)
  unfolding run_until
  run_frame fuel s =
      if setup.has_quit s.board.world.rest
      then some s
      else elim (run_until fuel s) [ none ↦ none | some t ↦ some (clear_nmi t) ]

  unfoldable pub power : Emulator V → Emulator V
  unfolding Cpu.power Power.power
  power s = record s { board = Power.power (on_cpu (Cpu.power ⦃env = env s⦄) s.board) }

  unfoldable pub reset : Emulator V → Emulator V
  unfolding Cpu.reset Power.reset
  reset s = record s { board = Power.reset (on_cpu (Cpu.reset ⦃env = env s⦄) s.board) }

  abbrev pub set_cartridge : Cartridge → Emulator V → Emulator V
  set_cartridge c s = record s {
    board = record s.board { world = record s.board.world { cartridge = c } };
  }

  -- `insert_rom` once the cartridge has been parsed.
  unfoldable pub connect : Emulator V → Emulator V
  unfolding Wiring.set_mirroring Wiring.attach_cartridge Wiring.attach_cartridge_vram
  connect s =
      let mirroring = s.board.world.cartridge.nt_mirroring in
      record s {
        vrambus =
            Wiring.attach_cartridge_vram inner_devices
              (Wiring.set_mirroring inner_devices mirroring s.vrambus);
        rambus = λ bus. Wiring.attach_cartridge (board_devices setup bus) (s.rambus bus);
      }

  -- `fresh` is what stands in a new array that is not initialised.
  unfoldable pub insert_rom : (fresh : ℕ → ℕ) → File → Emulator V → Bool × Emulator V × File
  unfolding C.parse connect
  insert_rom fresh romfile s =
      let (ok, cartridge, rest) = C.parse fresh romfile s.board.world.cartridge in
      let t = set_cartridge cartridge s in if ok then (true, connect t, rest) else (false, t, rest)
