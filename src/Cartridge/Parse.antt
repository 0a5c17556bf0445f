-- ===== src/Cartridge/Parse.antt =====
-- emu/core/cartridge.cpp: which files `parse` takes, and the addresses of the two ROMs.
use yanesemu.Prelude.{
  ℕ, ◌+◌, ◌*◌, ◌-◌, ◌/◌, ◌%◌, ◌==◌, all_below, all_below_sound, ==_iff, bit_and, ◌≢◌, refl, ◌<◌,
  ◌≤◌, ◌≡◌, ◌↔◌, ◌⊎◌, ap, arith, true, false, inl, inr,
}
use yanesemu.Util.File.{File, bread}
use yanesemu.Cartridge as C
use yanesemu.Cartridge.{Cartridge}

-- The header that `parse` reads.
abbrev pub header_read : File → Cartridge → ℕ → ℕ
header_read f c = (bread C.header_len c.header f).0

-- The mask of the bits 2 and 3, for every byte.
middle_table : all_below (λ b. bit_and b 0xc == b / 4 % 4 * 4) 256 ≡ true
unfolding all_below
middle_table = refl

middle_bits : (b : ℕ) → b < 256 → bit_and b 0xc ≡ b / 4 % 4 * 4
middle_bits b h = (==_iff _ _).0 (all_below_sound _ 256 b middle_table h)

module _ (fresh : ℕ → ℕ) (f : File) (c : Cartridge) where
  -- `parse` succeeds exactly on an open file whose header begins with the bytes 4E 45 53 1A, "NES" and
  -- the end-of-file character, and has not the number 2 in the bits 2 and 3 of its byte 7, as one of
  -- NES 2.0 has; the condition is that the byte 7 is below 256. Where it fails, the two ROMs, the
  -- mirroring, the mapper and the flags are those from before, and a file that is not open is not read.
  pub parse_fails :
      header_read f c 7 < 256
      → let r = C.parse fresh f c in
        let h = header_read f c in
        ((r.0 ≡ true) ↔ (
          (f.is_open ≡ true)
          × (h 0 ≡ 0x4e)
          × (h 1 ≡ 0x45)
          × (h 2 ≡ 0x53)
          × (h 3 ≡ 0x1a)
          × (h 7 / 4 % 4 ≢ 2)))
        × (r.0 ≡ false
            → (r.1.prgrom ≡ c.prgrom)
              × (r.1.chrrom ≡ c.chrrom)
              × (r.1.nt_mirroring ≡ c.nt_mirroring)
              × (r.1.mapper ≡ c.mapper)
              × (r.1.has ≡ c.has))
        × (f.is_open ≡ false → (r.1 ≡ c) × (r.2 ≡ f))
  unfolding C.parse C.is_ines C.is_nes20
  parse_fails fits = let bits = middle_bits (header_read f c 7) fits in ground arith

-- The lengths that a ROM may have for a CPU without a mapper: 16 KiB, 32 KiB, and as many whole
-- banks of 64 KiB.
abbrev pub IsBanked : ℕ → Type 0
IsBanked len = (len ≡ 0x4000) ⊎ ((len ≡ 0x8000) ⊎ (len ≡ 0x10000))

-- A read of $8000 to $FFFF takes a byte from the end of a program ROM of 16, 32 or 64 KiB, such that
-- $FFFF is its last byte. It stays within the ROM exactly where the ROM is long enough for the
-- address, which excludes the addresses below $C000 for 16 KiB.
pub read_prgrom_lem :
    (c : Cartridge) (a : ℕ)
    → IsBanked c.prgrom.len
    → 0x8000 ≤ a
    → a < 0x10000
    → ((C.eff_addr c a < c.prgrom.len) ↔ (0x10000 ≤ a + c.prgrom.len))
      × (0x10000 ≤ a + c.prgrom.len
          → C.read_prgrom c a ≡ c.prgrom.data_at (a + c.prgrom.len - 0x10000))
unfolding C.eff_addr C.read_prgrom
read_prgrom_lem c a (inl e) lo hi = rw e (ground arith, λ h. ap c.prgrom.data_at (omega arith))
read_prgrom_lem c a (inr (inl e)) lo hi =
    rw e (ground arith, λ h. ap c.prgrom.data_at (omega arith))
read_prgrom_lem c a (inr (inr e)) lo hi =
    rw e (ground arith, λ h. ap c.prgrom.data_at (omega arith))
