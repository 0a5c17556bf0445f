-- ===== src/Ppu/Address.antt =====
-- emu/core/ppu.hpp: `VRAMAddress`; emu/core/ppu.cpp: the movements of the address while a frame is
-- drawn, and the mirroring of the nametables.
pub mod Scroll
pub mod Mirror
use yanesemu.Prelude.{
  ℕ, ◌+◌, ◌/◌, ◌%◌, ◌^◌, bit_and, bit_xor, Bool, to_bool, ltb, ◌==◌, if◌then◌else◌, Option, none,
  some,
}
use yanesemu.Util.Bits.{getbits, setbits, setbit, field}
use yanesemu.Ppu.State.{Vram, Ppu}

-- The four bit fields.
unfoldable pub fine_y : ℕ → ℕ
unfolding field
fine_y v = field v 12 3

unfoldable pub nt_bits : ℕ → ℕ
unfolding field
nt_bits v = field v 10 2

unfoldable pub coarse_y : ℕ → ℕ
unfolding field
coarse_y v = field v 5 5

unfoldable pub coarse_x : ℕ → ℕ
unfolding field
coarse_x v = field v 0 5

-- `BitField::operator=(const T val)`
unfoldable pub assign : ℕ → ℕ → ℕ → ℕ → ℕ
unfolding setbits
assign value bitno nbits val = setbits value bitno nbits (val % 2 ^ 16) % 2 ^ 16

-- `BitField::operator=(const BitField &oth)`, which is chosen where the right-hand side is a field
-- of the same type. It takes `oth.data` and not the field.
unfoldable pub assign_field : ℕ → ℕ → ℕ → ℕ → ℕ
unfolding setbits
assign_field value bitno nbits oth_data = setbits value bitno nbits oth_data % 2 ^ 16

unfoldable pub horz_next : ℕ → ℕ
unfolding assign coarse_x nt_bits
horz_next v =
    if coarse_x v == 31
    then (let w = assign v 0 5 0 in assign w 10 2 (bit_xor (nt_bits w) 1))
    else assign v 0 5 (coarse_x v + 1)

unfoldable pub inc_v_horzpos : Vram → Bool → Vram
unfolding horz_next
inc_v_horzpos v bg_show = if bg_show then record v { addr = horz_next v.addr } else v

unfoldable pub vert_next : ℕ → ℕ
unfolding assign fine_y coarse_y nt_bits
vert_next v =
    if ltb (fine_y v) 7
    then assign v 12 3 (fine_y v + 1)
    else (let w = assign v 12 3 0 in
        let y = coarse_y w in
        if y == 29
        then (let w2 = assign w 10 2 (bit_xor (nt_bits w) 2) in assign w2 5 5 0)
        else if y == 31
        then assign w 5 5 0
        else assign w 5 5 (y + 1))

unfoldable pub inc_v_vertpos : Vram → Bool → Vram
unfolding vert_next
inc_v_vertpos v bg_show = if bg_show then record v { addr = vert_next v.addr } else v

unfoldable pub copy_v_horzpos : Vram → Bool → Vram
unfolding assign assign_field nt_bits setbit
copy_v_horzpos v bg_show =
    if bg_show
    then (let w = assign_field v.addr 0 5 v.tmp in
        record v {
          addr = assign w 10 2 (setbit (nt_bits w) 0 (to_bool (bit_and (nt_bits v.tmp) 1)));
        })
    else v

unfoldable pub copy_v_vertpos : Vram → Bool → Vram
unfolding assign assign_field nt_bits setbit
copy_v_vertpos v bg_show =
    if bg_show
    then (let w = assign_field v.addr 5 5 v.tmp in
        let w2 = assign_field w 12 3 v.tmp in
        record v {
          addr = assign w2 10 2 (setbit (nt_bits w2) 1 (to_bool (bit_and (nt_bits v.tmp / 2) 1)));
        })
    else v

-- The `enum class Mirroring`.
pub data Mirroring : Type 0 where
  vert horz other : Mirroring

-- `decode` of `set_mirroring`; the code asserts that the mirroring is one of the two.
unfoldable pub decode : Mirroring → ℕ → Option ℕ
unfolding getbits setbits
decode Mirroring.horz addr =
    let tmp = bit_and addr 0xfff in
    let bits = getbits tmp 10 2 / 2 in some (setbits tmp 10 2 bits % 2 ^ 16)
decode Mirroring.vert addr = some (bit_and addr 0x7ff)
decode Mirroring.other addr = none
