-- ===== src/Ppu/Address/Mirror.antt =====
-- emu/core/ppu.cpp: which cell of the video memory a nametable address means.
use yanesemu.Prelude.{ℕ, ◌+◌, ◌*◌, ◌/◌, ◌%◌, ◌^◌, ◌<◌, ◌≡◌, bit_and, arith, some, ap}
use yanesemu.Prelude.Bits.{bit_and_mask, bit_and_bit}
use yanesemu.Util.Bits.{setbits, getbits}
use yanesemu.Util.Bits.Fields.{setbits_lem}
use yanesemu.Ppu.Address.{Mirroring, decode}

-- Vertical mirroring takes an address modulo 2 KiB; horizontal mirroring keeps the offset in the
-- nametable and takes the upper of the two bits that choose one. Either way the cell is one of the
-- 2 KiB of video memory.
pub decode_lem :
    (addr : ℕ)
    → let upper = addr % 1024 + 1024 * (addr / 2048 % 2) in
      (decode Mirroring.vert addr ≡ some (addr % 2048))
      × (decode Mirroring.horz addr ≡ some upper)
      × (upper < 2048)
unfolding decode getbits
decode_lem addr = (ap some (bit_and_mask 11 addr), ap some horizontal, omega arith)
  where
    low12 : bit_and addr 0xfff ≡ addr % 4096
    low12 = bit_and_mask 12 addr

    horizontal :
        setbits (bit_and addr 0xfff) 10 2 (bit_and (bit_and addr 0xfff / 2 ^ 10) 2 / 2) % 2 ^ 16
        ≡ addr % 1024 + 1024 * (addr / 2048 % 2)
    horizontal = omega (
      arith,
      low12,
      bit_and_bit 1 (bit_and addr 0xfff / 2 ^ 10),
      setbits_lem 10 2 52 (bit_and addr 0xfff) (bit_and (bit_and addr 0xfff / 2 ^ 10) 2 / 2)
          (omega arith) (omega (arith, low12)),
    )
