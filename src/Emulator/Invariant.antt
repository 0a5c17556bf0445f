-- ===== src/Emulator/Invariant.antt =====
-- emu/core/emulator.hpp and emulator.cpp: what holds of the buses of an emulator from its
-- construction on.
use yanesemu.Prelude.{ℕ, ◌≡◌, refl, Bool, true, false, if◌then◌else◌}
use yanesemu.Util.File.{File}
use yanesemu.Bus as B
use yanesemu.Bus.{Bus}
use yanesemu.Bus.Keeps.{Keeps}
use yanesemu.Cartridge as C
use yanesemu.Emulator as E
use yanesemu.Emulator.{Board, Inner, Emulator, Setup}
use yanesemu.Emulator.Wired.{
  DevicesKeep, attach_cpu-Keeps, attach_ppu-Keeps, attach_ppu_vram-Keeps, attach_cartridge-Keeps,
  attach_cartridge_vram-Keeps, set_mirroring-Keeps, readreg-clock, readreg-view, writereg-clock,
  writereg-view,
}

-- Neither bus changes the clock of the PPU, the flag of the NMI or the cycles of the CPU.
pub record HasBuses {V : Type 0} (s : Emulator V) : Type 0 where
  pub vram_nmi : Keeps (λ (i : Inner V). i.1.nmi) s.vrambus
  pub vram_cycles : Keeps (λ (i : Inner V). i.1.cpu.cycles) s.vrambus
  pub ram_clock :
      (bus : Bus (Inner V))
      → Keeps (λ (i : Inner V). i.1.nmi) bus
      → Keeps (λ (b : Board V). b.ppu.clock) (s.rambus bus)
  pub ram_nmi :
      (bus : Bus (Inner V))
      → Keeps (λ (i : Inner V). i.1.nmi) bus
      → Keeps (λ (b : Board V). b.world.nmi) (s.rambus bus)

module _ {V X : Type 0} (view : Inner V → X) where
  -- What the closures on the bus of the PPU keep is what does not depend on its memories.
  inner-DevicesKeep :
      ((i : Inner V) (a v : ℕ)
        → view (record i.0 { vrammem = B.set_at a v i.0.vrammem }, i.1) ≡ view i)
      → ((i : Inner V) (a v : ℕ)
          → view (record i.0 { palmem = B.set_at a v i.0.palmem }, i.1) ≡ view i)
      → DevicesKeep view E.inner_devices
  inner-DevicesKeep h1 h2 = record {
    set_rammem = λ a v w. refl;
    readreg = λ a w. refl;
    writereg = λ a v w. refl;
    set_vrammem = λ a v w. h1 w a v;
    set_palmem = λ a v w. h2 w a v;
  }

module _ {V : Type 0} (setup : Setup V) (bus : Bus (Inner V))
    (k : Keeps (λ (i : Inner V). i.1.nmi) bus) where
  board_clock : DevicesKeep (λ (b : Board V). b.ppu.clock) (E.board_devices setup bus)
  board_clock = record {
    set_rammem = λ a v w. refl;
    readreg = λ a w. readreg-clock ⦃video = E.video_of setup bus⦄ a w;
    writereg = λ a v w. writereg-clock ⦃video = E.video_of setup bus⦄ a v w;
    set_vrammem = λ a v w. refl;
    set_palmem = λ a v w. refl;
  }

  board_nmi : DevicesKeep (λ (b : Board V). b.world.nmi) (E.board_devices setup bus)
  unfolding B.read B.write
  board_nmi = record {
    set_rammem = λ a v w. refl;
    readreg = λ a w.
        readreg-view ⦃video = E.video_of setup bus⦄ (λ c. c.nmi) (λ x m c. k.readers _ x (m, c))
          (λ x v m c. k.writers _ x v (m, c)) a w;
    writereg = λ a v w.
        writereg-view ⦃video = E.video_of setup bus⦄ (λ c. c.nmi) (λ x m c. k.readers _ x (m, c))
          (λ x u m c. k.writers _ x u (m, c)) a v w;
    set_vrammem = λ a v w. refl;
    set_palmem = λ a v w. refl;
  }

module _ {V : Type 0} (setup : Setup V) where
  inner_nmi : DevicesKeep (λ (i : Inner V). i.1.nmi) (E.inner_devices)
  inner_nmi = inner-DevicesKeep (λ (i : Inner V). i.1.nmi) (λ i a v. refl) (λ i a v. refl)

  inner_cycles : DevicesKeep (λ (i : Inner V). i.1.cpu.cycles) (E.inner_devices)
  inner_cycles = inner-DevicesKeep (λ (i : Inner V). i.1.cpu.cycles) (λ i a v. refl) (λ i a v. refl)

  -- The buses that the constructor wires, from new ones that change neither.
  pub new-HasBuses :
      (rambus : Bus (Board V)) (vrambus : Bus (Inner V)) (board : Board V)
      → Keeps (λ (b : Board V). b.ppu.clock) rambus
      → Keeps (λ (b : Board V). b.world.nmi) rambus
      → Keeps (λ (i : Inner V). i.1.nmi) vrambus
      → Keeps (λ (i : Inner V). i.1.cpu.cycles) vrambus
      → HasBuses (E.new setup rambus vrambus board)
  unfolding E.new E.wire_rambus E.wire_vrambus
  new-HasBuses rambus vrambus board rc rn vn vc = record {
    vram_nmi = attach_ppu_vram-Keeps _ _ inner_nmi vrambus vn;
    vram_cycles = attach_ppu_vram-Keeps _ _ inner_cycles vrambus vc;
    ram_clock = λ bus k.
        let d = board_clock setup bus k in
        attach_ppu-Keeps _ _ d _ (attach_cpu-Keeps _ _ d rambus rc);
    ram_nmi = λ bus k.
        let d = board_nmi setup bus k in
        attach_ppu-Keeps _ _ d _ (attach_cpu-Keeps _ _ d rambus rn);
  }

  connect-HasBuses : (s : Emulator V) → HasBuses s → HasBuses (E.connect setup s)
  unfolding E.connect
  connect-HasBuses s h =
      let mirroring = s.board.world.cartridge.nt_mirroring in
      record {
        vram_nmi =
            attach_cartridge_vram-Keeps _ _ inner_nmi _
              (set_mirroring-Keeps _ _ inner_nmi mirroring s.vrambus h.vram_nmi);
        vram_cycles =
            attach_cartridge_vram-Keeps _ _ inner_cycles _
              (set_mirroring-Keeps _ _ inner_cycles mirroring s.vrambus h.vram_cycles);
        ram_clock =
            λ bus k. attach_cartridge-Keeps _ _ (board_clock setup bus k) _ (h.ram_clock bus k);
        ram_nmi = λ bus k. attach_cartridge-Keeps _ _ (board_nmi setup bus k) _ (h.ram_nmi bus k);
      }

  either :
      (ok : Bool) (t u : Emulator V) (f : File)
      → HasBuses t
      → HasBuses u
      → let r : Bool × Emulator V × File = if ok then (true, u, f) else (false, t, f) in
        HasBuses r.1
  either true t u f ht hu = hu
  either false t u f ht hu = ht

  -- Whether or not it accepts the ROM, `insert_rom` leaves buses that change neither.
  pub insert_rom-HasBuses :
      (fresh : ℕ → ℕ) (f : File) (s : Emulator V)
      → HasBuses s
      → HasBuses (E.insert_rom setup fresh f s).1
  unfolding E.insert_rom
  insert_rom-HasBuses fresh f s h =
      let parsed = C.parse fresh f s.board.world.cartridge in
      let t = E.set_cartridge setup parsed.1 s in
      let kept : HasBuses t = record {
        vram_nmi = h.vram_nmi;
        vram_cycles = h.vram_cycles;
        ram_clock = h.ram_clock;
        ram_nmi = h.ram_nmi;
      } in
      either parsed.0 t (E.connect setup t) parsed.2 kept (connect-HasBuses t kept)
