-- ===== src/Lib.antt =====
-- yanesemu, a NES emulator. The program's core is in emu/core: the CPU (cpu.cpp, with the
-- instructions in instructions.cpp, included by it, and the tables of instrinfo.cpp) runs
-- instructions against a bus; the PPU (ppu.cpp, ppumain.cpp) draws a frame in steps of one dot
-- against a second bus and raises NMIs; the cartridge (cartridge.cpp) is parsed from a ROM file and
-- maps its ROMs on both buses (bus.cpp); the emulator (emulator.cpp) wires all of them and runs
-- three dots of the PPU for each cycle of the CPU, a frame at a time; the debugger (debugger.cpp)
-- watches the CPU through its callback, and the command line debugger (clidbg.cpp) drives it.
--
-- The files:
--   Prelude            tests, conditionals, lists and the laws of `&`, `|`, `^`; no code
--   Prelude/Texts      texts as lists of character codes; no code
--   Util/Bits          emu/util/bits.hpp: `getbits`, `setbits`, `BitField`
--   Util/HeapArray     emu/util/heaparray.hpp: `reset`, `operator=`, `operator==`, `clear`
--   Util/Strings       emu/util/stringops.hpp, stringops.cpp: `strsplit`, `strconv`
--   Util/Cmdline       emu/util/cmdline.hpp, cmdline.cpp: `parse`; Cmdline/Given and Cmdline/Written
--                      hold the theorem
--   Util/Settings      emu/util/settings.hpp, settings.cpp: `parse_conf`; Settings/Written,
--                      Settings/Checked, Settings/Values and Settings/Typed hold the theorem
--   Util/File          emu/util/file.hpp, file.cpp: `bread`, `getword`, `getline`, `getall`;
--                      File/Reading is on `getline`
--   Instr/Reg16        emu/core/instrinfo.hpp: `Reg16`
--   Instr/Status       emu/core/instrinfo.hpp: `ProcStatus`
--   Instr/Table        emu/core/instrinfo.cpp: `INSTR_MODE`
--   Instr/Decode       emu/core/instrinfo.hpp, instrinfo.cpp: `num_bytes`, `took_branch`, ...
--   Instr/Block        emu/core/instrinfo.hpp: `disassemble_block`
--   Cpu/State          emu/core/cpu.hpp: the members of `CPU`
--   Cpu/Exec           the member functions as actions on explicit state
--   Cpu/Access         emu/core/cpu.cpp: fetches, memory accesses, stack, polling
--   Cpu/Alu            emu/core/instructions.cpp: instruction functions on the registers alone
--   Cpu/Modes          emu/core/instructions.cpp: the addressing modes
--   Cpu/Control        emu/core/instructions.cpp: branches, jumps, stack; cpu.cpp: `interrupt`
--   Cpu/Dispatch       emu/core/cpu.cpp: the cases of `CPU::execute`
--   Cpu/Execute        emu/core/cpu.cpp: `run`, `execute`, `power`, `reset`, `nextaddr`
--   Cpu/Memory         the interface of a bus whose reads have no effects
--   Cpu/Agreement      the dispatch table against the table of addressing modes
--   Cpu/Timing, Cpu/Words, Cpu/Steps, Cpu/Next, Cpu/Stack, Cpu/Interrupt
--                      theorems; Cpu/Examples applies them at concrete machines
--   Cpu/World          what a run of the CPU leaves of the world, if the bus leaves it
--   Ppu/State          emu/core/ppu.hpp: the members of `PPU`
--   Ppu/Address        emu/core/ppu.hpp: `VRAMAddress`; ppu.cpp: `inc_v_horzpos`, ..., the
--                      mirroring; Address/Scroll and Address/Mirror hold the theorems
--   Ppu/Power          emu/core/ppu.cpp: `power`, `reset`
--   Ppu/Registers      emu/core/ppu.cpp: `readreg`, `writereg`, `readreg_no_sideeff`;
--                      Registers/Access holds the theorems
--   Ppu/Fetch          emu/core/ppu.cpp: tile fetches, shift registers, output of a dot
--   Ppu/Frame          emu/core/ppumain.cpp: the work of each dot, `run`
--   Ppu/Timing         theorems: the clock, the frames, the reached states; Ppu/Examples applies
--                      the theorems on the PPU at concrete states
--   Ppu/World, Ppu/Fires
--                      what steps of the PPU leave of the world, and when they raise the NMI
--   Bus                emu/core/bus.hpp, bus.cpp: `map`, `remap`, `read`, `write`
--   Bus/Ranges         theorems on `map` and `remap`
--   Bus/Wiring         `attach_bus` of emu/core/cpu.cpp, ppu.cpp and cartridge.cpp, `set_mirroring`,
--                      and the order of these calls in emulator.hpp and emulator.cpp, with the
--                      theorems on both wired buses; Bus/Examples applies the theorems
--   Bus/Keeps          what the accesses to a bus leave of the world, over `map` and `remap`
--   Cartridge          emu/core/cartridge.hpp, cartridge.cpp: `parse`, `read_prgrom`, `read_chrrom`;
--                      Cartridge/Parse and Cartridge/Load hold the theorems
--   Emulator           emu/core/emulator.hpp, emulator.cpp: the constructor, `run`, `run_frame`,
--                      `power`, `reset`, `insert_rom`; Emulator/Wired and Emulator/Invariant are on
--                      the two wired buses, Catchup on `run`, Progress and Frame on `run_frame`,
--                      Start on `power` and `reset`, Insert on `insert_rom`
--   Debugger           emu/core/debugger.hpp, debugger.cpp; Debugger/Breaks is on the breakpoints,
--                      Backtrace on `update_backtrace`, Stepping on `fetch_callback`
--   Clidbg             emu/core/clidbg.hpp, clidbg.cpp: the table of commands and `print_block`
--   Clidbg/Exec        emu/core/clidbg.cpp: `exec_command`; Clidbg/Blocks and Clidbg/Breaking hold
--                      theorems
--   Clidbg/Repl        emu/core/clidbg.cpp: `parse` and `repl`; Repl/Endless, Repl/Ends and
--                      Repl/Reading hold the theorems
--
-- State. A member function of `CPU` is an action `Exec W A`, a function from a machine to a result
-- and a machine; a machine is the members of `CPU` and a world `W` behind the bus. `Env W` has the
-- bus, whose reads may have effects, and the callback that may be registered. An instruction
-- function that touches the registers alone is a function on `Regs`. A member of the type `uint8`
-- or `uint16` is a number with its wrap-around written out where the code computes it; an `int` is
-- its 32-bit pattern, and `unsigned long` has 64 bits. The order of accesses is that of the code.
-- The `switch` of `execute` is a table whose rows are the cases, looked up once. The
-- clearing loops of `power` are by recursion on their count.
--
-- A member function of `PPU` is a function on `Chip W`: the registers, the three memories, a
-- world behind the bus, and a flag that an assertion has failed, with which the model goes on.
-- `Video W` has the bus, the canvas, the callback of the NMI, and the result of the one shift by a
-- negative count that C++ leaves undefined. The template arguments of `ccycle` and `lcycle` are
-- arguments, and the tables of their instances are functions of the index.
--
-- A `Bus W` holds readers and writers on a world `W` in tables by index. The search of `map` for a
-- free number runs on fuel 17, which is enough as the code looks at the numbers 0 to 16 at most. A
-- new table of the bus holds arbitrary numbers, as the code does not initialise it. In Bus/Wiring
-- the devices are a parameter, a record of what their closures call. A write of `map` past the end of
-- its arrays sets the flag `overrun`, and the model goes on; an address past the size of the table, to
-- which PPUDATA can count, is looked up in an arbitrary cell.
--
-- `Emulator V` is the whole machine, for a type `V` of what lies outside, such as the canvas: the
-- board, which is the `Chip` of the PPU whose world is the `Console` with the CPU, its RAM, the
-- cartridge and the flag of the NMI; the two buses, whose closures are actions on it; and `cycle`.
-- The bus of the CPU is a function of that of the PPU, as its closures reach that one through a
-- pointer. While a member function of the CPU runs, its members are in the machine of `Exec`, and the
-- copy in the console stands still, which no closure and no callback looks at. The callback of the
-- debugger and the canvas are in `Setup`. Of `run_frame` 29782 rounds are enough, since a round runs
-- at least three dots and a frame has at most 89342, and one more takes the flag.
--
-- A `Session W` is the debugger and the rest of the emulator; what the debugger reaches through `emu`
-- is `Emu W`. `btrace.back()` on an empty vector and `erase` past the end, which C++ leaves undefined,
-- set a flag. A text is a list of character codes, a file the bytes that are left in it, and what a
-- new array holds is arbitrary. What is printed is a list of `Reply`. The fuel of `repl` is the length
-- of the input and one more, that of `print_block` the length of its range and one more, that of
-- `disassemble_block` the length of its range and two more, and that of `strsplit` the length of the
-- text. Where the fuel is used up there is no result. This can only be so of `disassemble_block` up to
-- $FFFD or above, whose addresses may wrap around, for ever if the end is $FFFF; the model of `repl`
-- stops there, with `unfinished` set, since it follows the program no further.
-- An exception that the code throws gives none, too; the fuel for the lines of a settings file is
-- its length and one more.
--
-- Not modelled: the text of `disassemble`, `format_instr`, `format_flags`, `getinfo` and of what the
-- debuggers print, the opening and writing of files, random numbers, the OpenGL back end and the
-- debug output, which are input and output; the canvas of emu/video; the iterators of `HeapArray`;
-- the sprite unit, which the code does not have; and external/, which holds other projects.
pub mod Bus
pub mod Cartridge
pub mod Clidbg
pub mod Cpu
pub mod Debugger
pub mod Emulator
pub mod Instr
pub mod Ppu
pub mod Prelude
pub mod Util
