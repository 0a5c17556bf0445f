-- ===== src/Emulator/Insert.antt =====
-- emu/core/emulator.cpp: after `insert_rom`, the CPU and the PPU read the bytes of the file.
use yanesemu.Prelude.{
  ℕ, ◌+◌, ◌-◌, ◌%◌, ◌<◌, ◌≤◌, ◌≡◌, ◌≢◌, ◌∙◌, refl, ap, arith, Bool, true, false, ltb, ◌==◌, bit_and,
  if◌then◌else◌, some, List, ◌++◌, length, get_elem?,
}
use yanesemu.Util.File.{File}
use yanesemu.Ppu.Address.{Mirroring, decode}
use yanesemu.Bus as B
use yanesemu.Bus.{Bus}
use yanesemu.Bus.Wiring as Wiring
use yanesemu.Bus.Wiring.{rambus_lem, vrambus_lem}
use yanesemu.Cartridge as C
use yanesemu.Cartridge.{Cartridge}
use yanesemu.Cartridge.Parse.{IsBanked, read_prgrom_lem}
use yanesemu.Cartridge.Load.{header_bytes, IsImage, Inserted, parse_parts}
use yanesemu.Emulator as E
use yanesemu.Emulator.{Console, Board, Inner, Emulator, Setup}

-- A header names one of the two mirrorings, and both decode every address.
decoded :
    (b : Bool) (a : ℕ)
    → (i : ℕ) × (decode (if b then Mirroring.horz else Mirroring.vert) a ≡ some i)
unfolding decode
decoded true a = (_, refl)
decoded false a = (_, refl)

module _ {V : Type 0} (setup : Setup V) where
  -- Where the file is taken, the emulator is connected to the cartridge that was parsed.
  insert_rom_taken :
      (fresh : ℕ → ℕ) (f : File) (s : Emulator V)
      → let parsed = C.parse fresh f s.board.world.cartridge in
        parsed.0 ≡ true
        → E.insert_rom setup fresh f s
          ≡ (true, E.connect setup (E.set_cartridge setup parsed.1 s), parsed.2)
  unfolding E.insert_rom
  insert_rom_taken fresh f s ok =
      let parsed = C.parse fresh f s.board.world.cartridge in
      let t = E.set_cartridge setup parsed.1 s in
      ap
        (λ (b : Bool).
          let r : Bool × Emulator V × File =
            if b then (true, E.connect setup t, parsed.2) else (false, t, parsed.2) in
          r)
        ok

  -- A new emulator whose tables on the two buses hold arbitrary numbers.
  abbrev pub fresh_emulator : (ℕ → ℕ) → Bus (Board V) → Bus (Inner V) → Board V → Emulator V
  fresh_emulator cells ram vram board =
      E.new setup (B.reset 0x10000 cells ram) (B.reset 0x4000 cells vram) board

  above :
      {A : Type 0} (a : ℕ) (x1 x2 x3 x4 : A)
      → 0x8000 ≤ a
      → (if ltb a 0x2000 then x1 else if ltb a 0x4000 then x2 else if ltb a 0x8000 then x3 else x4)
        ≡ x4
  above a x1 x2 x3 x4 h = ground arith

  below : {A : Type 0} (a : ℕ) (x y : A) → a < 0x2000 → (if ltb a 0x2000 then x else y) ≡ x
  below a x y h = ground arith

  module _ (cells : ℕ → ℕ) (ram : Bus (Board V)) (vram : Bus (Inner V)) (board : Board V)
      (h : ℕ → ℕ) (trainer prg chr : List ℕ) (c : Cartridge)
      (parts : Inserted h trainer prg chr c) where
    abbrev inserted : Emulator V
    inserted = E.connect setup (E.set_cartridge setup c (fresh_emulator cells ram vram board))

    prg_byte :
        (a v : ℕ)
        → IsBanked (length prg)
        → 0x8000 ≤ a
        → a < 0x10000
        → 0x10000 ≤ a + length prg
        → get_elem? prg (a + length prg - 0x10000) ≡ some v
        → C.read_prgrom c a ≡ v
    prg_byte a v banked lo hi long e =
        let len = parts.prg_len in
        (read_prgrom_lem c a (rw len banked) lo hi).1 (omega (arith, len))
        ∙ ap (λ (n : ℕ). c.prgrom.data_at (a + n - 0x10000)) len
        ∙ parts.prg_bytes (a + length prg - 0x10000) v e

    cpu_reads :
        (a v : ℕ)
        → IsBanked (length prg)
        → 0x8000 ≤ a
        → a < 0x10000
        → 0x10000 ≤ a + length prg
        → get_elem? prg (a + length prg - 0x10000) ≡ some v
        → B.read (inserted.rambus inserted.vrambus) a inserted.board ≡ (v, inserted.board)
    unfolding E.new E.wire_rambus E.connect Wiring.rambus
    cpu_reads a v banked lo hi long e =
        let dev = E.board_devices setup inserted.vrambus in
        let w = inserted.board in
        (rambus_lem dev cells ram a w 0 hi).0
        ∙ above a (dev.rammem (a % 2048) w, w) (dev.readreg (0x2000 + a % 8) w) (0, w)
            (dev.read_prgrom a w, w) lo
        ∙ ap (λ (n : ℕ). (n, w)) (prg_byte a v banked lo hi long e)

    ppu_reads :
        (a v : ℕ) (i : Inner V)
        → cells 0x1fff ≢ 1
        → a < 0x2000
        → get_elem? chr a ≡ some v
        → i.1.cartridge ≡ c
        → B.read inserted.vrambus a i ≡ (v, i)
    unfolding E.new E.wire_vrambus E.connect Wiring.vrambus C.read_chrrom
    ppu_reads a v i clean lo e same =
        let known = decoded (bit_and (h 6) 1 == 0) a in
        (vrambus_lem E.inner_devices cells vram a i 0 c.nt_mirroring known.0 (omega arith) clean
          (rw parts.nt_mirroring known.1)).0
        ∙ below a (C.read_chrrom i.1.cartridge a, i) _ lo
        ∙ ap (λ (n : ℕ). (n, i))
            (ap (λ (d : Cartridge). d.chrrom.data_at a) same ∙ parts.chr_bytes a v e)

  -- A ROM file with as many banks as its header says, in an emulator that has just been constructed:
  -- `insert_rom` succeeds; the CPU then reads the bytes of the program of 16, 32 or 64 KiB, such
  -- that $FFFF is its last byte, at every address from $8000 for which it is long enough; and the
  -- PPU reads the bytes of the characters below $2000, if the number that stood uninitialised in
  -- its table at $1FFF is not 1.
  pub insert_rom-reads :
      (fresh cells : ℕ → ℕ) (ram : Bus (Board V)) (vram : Bus (Inner V)) (board : Board V)
      (f : File) (h : ℕ → ℕ) (trainer prg chr more : List ℕ)
      → IsImage h trainer prg chr
      → board.world.cartridge.has.chrram ≡ false
      → f.is_open ≡ true
      → f.input ≡ header_bytes h ++ (trainer ++ (prg ++ (chr ++ more)))
      → IsBanked (length prg)
      → cells 0x1fff ≢ 1
      → let r = E.insert_rom setup fresh f (fresh_emulator cells ram vram board) in
        let t = r.1 in
        (r.0 ≡ true)
        × ((a v : ℕ)
            → 0x8000 ≤ a
            → a < 0x10000
            → 0x10000 ≤ a + length prg
            → get_elem? prg (a + length prg - 0x10000) ≡ some v
            → B.read (t.rambus t.vrambus) a t.board ≡ (v, t.board))
        × ((a v : ℕ) (i : Inner V)
            → a < 0x2000
            → get_elem? chr a ≡ some v
            → i.1.cartridge ≡ t.board.world.cartridge
            → B.read t.vrambus a i ≡ (v, i))
  unfolding E.new E.connect
  insert_rom-reads fresh cells ram vram board f h trainer prg chr more image hc is_open input banked
        clean =
      let s = fresh_emulator cells ram vram board in
      let parts =
        parse_parts fresh h trainer prg chr more board.world.cartridge f image hc is_open input in
      let c = (C.parse fresh f board.world.cartridge).1 in
      rw (insert_rom_taken fresh f s parts.0) (
        refl,
        λ a v lo hi long e.
            cpu_reads cells ram vram board h trainer prg chr c parts.1 a v banked lo hi long e,
        λ a v i lo e same.
            ppu_reads cells ram vram board h trainer prg chr c parts.1 a v i clean lo e same,
      )
