-- ===== src/Cartridge.antt =====
-- emu/core/cartridge.hpp and cartridge.cpp: parsing a ROM file, and the reads of the two ROMs.
pub mod Parse
pub mod Load
pub mod Examples
use yanesemu.Prelude.{
  ℕ, zero, suc, ◌+◌, ◌-◌, ◌*◌, ◌/◌, ◌%◌, ◌^◌, bit_and, bit_or, Bool, true, false, not, to_bool,
  ◌==◌, ◌&&◌, if◌then◌else◌, List, [], ◌∷◌,
}
use yanesemu.Util.File.{File, bread}
use yanesemu.Util.HeapArray.{HeapArray, reset}
use yanesemu.Ppu.Address.{Mirroring}

pub record Has : Type 0 where
  pub prgram : Bool
  pub chrram : Bool
  pub battery : Bool
  pub trainer : Bool

pub record Cartridge : Type 0 where
  pub name : List ℕ
  pub format : List ℕ
  pub prgrom : HeapArray
  pub chrrom : HeapArray
  pub header : ℕ → ℕ
  pub trainer : ℕ → ℕ
  pub mapper : ℕ
  pub submapper : ℕ
  pub prgram_size : ℕ
  pub chrram_size : ℕ
  pub nt_mirroring : Mirroring
  pub has : Has

abbrev pub header_len : ℕ
header_len = 16

abbrev pub trainer_len : ℕ
trainer_len = 512

-- The default member initialisers. The two arrays of the header and the trainer are not
-- initialised: `fresh` is what stands in them.
abbrev pub initial : (fresh : ℕ → ℕ) → Cartridge
initial fresh = record {
  name = [];
  format = [];
  prgrom = record { len = 0; data_at = fresh };
  chrrom = record { len = 0; data_at = fresh };
  header = fresh;
  trainer = fresh;
  mapper = 0;
  submapper = 0;
  prgram_size = 0;
  chrram_size = 0;
  nt_mirroring = Mirroring.vert;
  has = record { prgram = false; chrram = false; battery = false; trainer = false };
}

-- The test of the first four bytes.
unfoldable pub is_ines : (ℕ → ℕ) → Bool
is_ines header = header 0 == b'N' && header 1 == b'E' && header 2 == b'S' && header 3 == 0x1a

unfoldable pub is_nes20 : (ℕ → ℕ) → Bool
is_nes20 header = bit_and (header 7) 0xc == 0x8

unfoldable pub parse_common : Cartridge → Cartridge
parse_common c = record c {
  nt_mirroring = if bit_and (c.header 6) 1 == 0 then Mirroring.horz else Mirroring.vert;
  has = record c.has {
    battery = to_bool (bit_and (c.header 6) 2);
    trainer = to_bool (bit_and (c.header 6) 4);
  };
  mapper = bit_or (bit_and (c.header 6) 0xf0 / 2 ^ 4) (bit_and (c.header 7) 0xf0);
}

-- Nothing sets `has.chrram` to false.
unfoldable pub parse_ines : Cartridge → Cartridge
parse_ines c = record c {
  prgram_size = c.header 8;
  has = record c.has {
    chrram = if c.header 5 == 0 then true else c.has.chrram;
    prgram = to_bool (bit_and (c.header 10) 0x10);
  };
}

unfoldable pub load_trainer : Cartridge → File → Cartridge × File
load_trainer c f =
    let (bytes, rest) = bread trainer_len c.trainer f in
    if c.has.trainer then (record c { trainer = bytes }, rest) else (c, f)

-- `rom.reset(size); romfile.bread(rom.data(), rom.size());`
unfoldable pub load_rom : (fresh : ℕ → ℕ) → ℕ → File → HeapArray × File
load_rom fresh size f =
    let rom = reset fresh size in
    let (bytes, rest) = bread rom.len rom.data_at f in (record rom { data_at = bytes }, rest)

unfoldable pub load_prgrom : (fresh : ℕ → ℕ) → Cartridge → File → Cartridge × File
load_prgrom fresh c f =
    let (rom, rest) = load_rom fresh (c.header 4 * 16384) f in
    if not c.has.prgram then (record c { prgrom = rom }, rest) else (c, f)

unfoldable pub load_chrrom : (fresh : ℕ → ℕ) → Cartridge → File → Cartridge × File
load_chrrom fresh c f =
    let (rom, rest) = load_rom fresh (c.header 5 * 8192) f in
    if not c.has.chrram then (record c { chrrom = rom }, rest) else (c, f)

-- What `parse` does once it has recognised the format.
unfoldable pub load : (fresh : ℕ → ℕ) → Cartridge → File → Cartridge × File
load fresh c f =
    let (c1, f1) = load_trainer c f in
    let (c2, f2) = load_prgrom fresh c1 f1 in load_chrrom fresh c2 f2

-- `format = "iNES"`
unfoldable pub recognised : Cartridge → Cartridge
recognised c = record c { format = b'i' ∷ b'N' ∷ b'E' ∷ b'S' ∷ [] }

unfoldable pub parse : (fresh : ℕ → ℕ) → File → Cartridge → Bool × Cartridge × File
parse fresh romfile c =
    let (header, rest) = bread header_len c.header romfile in
    let named = record c { name = romfile.filename; header = header } in
    let (loaded, left) = load fresh (parse_ines (parse_common (recognised named))) rest in
    if not romfile.is_open
    then (false, c, romfile)
    else if is_ines header
    then (if is_nes20 header then (false, named, rest) else (true, loaded, left))
    else (false, named, rest)

-- `eff_addr` of `read_prgrom`, with each of its three `uint16`.
unfoldable pub eff_addr : Cartridge → ℕ → ℕ
eff_addr c addr =
    let offset = (addr + (2 ^ 16 - 0x8000)) % 2 ^ 16 in
    let start = (c.prgrom.len + (2 ^ 64 - 0x8000)) % 2 ^ 64 % 2 ^ 16 in (start + offset) % 2 ^ 16

-- The two reads do not look at the length.
unfoldable pub read_prgrom : Cartridge → ℕ → ℕ
unfolding eff_addr
read_prgrom c addr = c.prgrom.data_at (eff_addr c addr)

unfoldable pub read_chrrom : Cartridge → ℕ → ℕ
read_chrrom c addr = c.chrrom.data_at addr
