-- ===== src/Cartridge/Examples.antt =====
-- The theorems on emu/core/cartridge.cpp at a concrete file and cartridge.
use yanesemu.Prelude.{
  ◌≢◌, ◌/◌, ◌%◌, ℕ, zero, suc, ◌+◌, ◌-◌, ◌<◌, ◌≤◌, ◌≡◌, ◌↔◌, refl, arith, true, false, ◌==◌, inl,
  if◌then◌else◌, List, [], ◌∷◌, ◌++◌, length,
}
use yanesemu.Util.File.{File, bread}
use yanesemu.Cartridge as C
use yanesemu.Cartridge.{Cartridge, initial}
use yanesemu.Cartridge.Parse.{header_read, parse_fails, read_prgrom_lem}
use yanesemu.Cartridge.Load.{header_bytes, IsImage, Inserted, parse_parts}

abbrev pub zeros : ℕ → List ℕ
zeros zero = []
zeros (suc n) = 0 ∷ zeros n

pub length-zeros : (n : ℕ) → length (zeros n) ≡ n
length-zeros zero = refl
length-zeros (suc n) = omega (arith, length-zeros n)

-- One bank of 16 KiB, one of 8 KiB, vertical mirroring.
abbrev pub header : ℕ → ℕ
header i =
    if i == 0
    then b'N'
    else if i == 1
    then b'E'
    else if i == 2
    then b'S'
    else if i == 3
    then 0x1a
    else if i == 4
    then 1
    else if i == 5
    then 1
    else if i == 6
    then 1
    else 0

abbrev pub rom : File
rom = record {
  is_open = true;
  filename = b'a' ∷ [];
  input = header_bytes header ++ ([] ++ (zeros 16384 ++ (zeros 8192 ++ 9 ∷ [])));
}

abbrev pub fresh : ℕ → ℕ
fresh i = 7

pub rom-IsImage : IsImage header [] (zeros 16384) (zeros 8192)
unfolding C.is_ines C.is_nes20
rom-IsImage = record {
  ines = refl;
  nes20 = refl;
  prgram = refl;
  chr_banks = refl;
  trainer_size = refl;
  prg_size = length-zeros 16384;
  chr_size = length-zeros 8192;
}

parse_parts_example :
    let r = C.parse fresh rom (initial fresh) in
    (r.0 ≡ true) × Inserted header [] (zeros 16384) (zeros 8192) r.1 × (r.2.input ≡ 9 ∷ [])
parse_parts_example =
    parse_parts fresh header [] (zeros 16384) (zeros 8192) (9 ∷ []) (initial fresh) rom rom-IsImage
      refl refl refl

-- A file that has three bytes of the format only.
abbrev short : File
short = record { is_open = true; filename = []; input = b'N' ∷ b'E' ∷ b'S' ∷ [] }

parse_fails_example :
    let c = initial fresh in
    let r = C.parse fresh short c in
    let h = header_read short c in
    ((r.0 ≡ true) ↔ (
      (true ≡ true)
      × (h 0 ≡ 0x4e)
      × (h 1 ≡ 0x45)
      × (h 2 ≡ 0x53)
      × (h 3 ≡ 0x1a)
      × (h 7 / 4 % 4 ≢ 2)))
    × (r.0 ≡ false
        → (r.1.prgrom ≡ c.prgrom)
          × (r.1.chrrom ≡ c.chrrom)
          × (r.1.nt_mirroring ≡ c.nt_mirroring)
          × (r.1.mapper ≡ c.mapper)
          × (r.1.has ≡ c.has))
    × (true ≡ false → (r.1 ≡ c) × (r.2 ≡ short))
unfolding bread
parse_fails_example = parse_fails fresh short (initial fresh) (omega arith)

-- A ROM of 16 KiB.
abbrev bank : Cartridge
bank = record (initial fresh) { prgrom = record { len = 0x4000; data_at = λ i. i } }

read_prgrom_lem_example :
    ((C.eff_addr bank 0xc005 < 0x4000) ↔ (0x10000 ≤ 0xc005 + 0x4000))
    × (0x10000 ≤ 0xc005 + 0x4000 → C.read_prgrom bank 0xc005 ≡ 0xc005 + 0x4000 - 0x10000)
read_prgrom_lem_example = read_prgrom_lem bank 0xc005 (inl refl) (omega arith) (omega arith)
