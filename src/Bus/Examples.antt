-- ===== src/Bus/Examples.antt =====
-- The theorems on emu/core/bus.cpp at a concrete bus, on a world that is a number.
use yanesemu.Prelude.{ℕ, ◌+◌, ◌%◌, ◌≡◌, arith, false, ◌==◌}
use yanesemu.Ppu.Address.{Mirroring}
use yanesemu.Ppu.Address.Mirror.{decode_lem}
use yanesemu.Bus as B
use yanesemu.Bus.{Bus, Reader, Writer}
use yanesemu.Bus.Wiring as Wiring
use yanesemu.Bus.Wiring.{Devices, rambus_lem, vrambus_lem}

abbrev answers : ℕ → Reader ℕ
answers v a w = (v, w)

abbrev stores : ℕ → Writer ℕ
stores k a v w = k + v

-- The range 0 is mapped, and everything belongs to it.
abbrev one_range : Bus ℕ
one_range = record {
  size = 0x100;
  lookup = λ a. 0;
  readtab = λ i. answers i;
  writetab = λ i. stores i;
  assigned = λ i. i == 0;
  overrun = false;
}

abbrev devices : Devices ℕ
devices = record {
  rammem = λ a w. a % 256;
  set_rammem = λ a v w. a + v;
  readreg = λ a w. (9, w + 1);
  writereg = λ a v w. w + a;
  read_prgrom = λ a w. 0xea;
  read_chrrom = λ a w. 3;
  vrammem = λ a w. w % 256;
  set_vrammem = λ a v w. v;
  palmem = λ a w. a;
  set_palmem = λ a v w. v;
}

-- A read of $3FFA, which is the register $2002 of the PPU.
rambus_lem_example :
    let b = Wiring.rambus devices (B.reset 0x10000 (λ a. 5) one_range) in
    (B.read b 0x3ffa 10 ≡ (9, 11)) × (B.write b 0x3ffa 7 10 ≡ 0x200c)
rambus_lem_example = rambus_lem devices (λ a. 5) one_range 0x3ffa 10 7 (omega arith)

vrambus_lem_example :
    let b = Wiring.vrambus devices Mirroring.vert (B.reset 0x4000 (λ a. 5) one_range) in
    (B.read b 0x2c05 10 ≡ (10, 10)) × (B.write b 0x2c05 7 10 ≡ devices.set_vrammem 0x405 7 10)
vrambus_lem_example =
    vrambus_lem devices (λ a. 5) one_range 0x2c05 10 7 Mirroring.vert 0x405 (omega arith)
      (λ e. omega arith) (decode_lem 0x2c05).0
