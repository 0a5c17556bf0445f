-- ===== src/Util/Bits.antt =====
-- emu/util/bits.hpp: reading and replacing bit fields of a 64-bit number.
pub mod Fields
use yanesemu.Prelude.{ℕ, ◌+◌, ◌-◌, ◌*◌, ◌/◌, ◌%◌, ◌^◌, bit_and, bit_or, Bool, bit}

-- `~n` of a `uint64_t`.
abbrev pub not64 : ℕ → ℕ
not64 n = 2 ^ 64 - 1 - n

-- The parameter `nbits` is a mask in this function, as in the source.
unfoldable pub getbits : ℕ → ℕ → ℕ → ℕ
getbits num bitno nbits = bit_and (num / 2 ^ bitno) nbits

unfoldable pub getbit : ℕ → ℕ → ℕ
unfolding getbits
getbit num bitno = getbits num bitno 1

unfoldable pub get_mask_nbits : ℕ → ℕ
get_mask_nbits nbits = 2 ^ nbits - 1

unfoldable pub setbits : ℕ → ℕ → ℕ → ℕ → ℕ
unfolding get_mask_nbits
setbits num bitno nbits val =
    let mask = get_mask_nbits nbits in
    bit_or (bit_and num (not64 (mask * 2 ^ bitno % 2 ^ 64))) (bit_and val mask * 2 ^ bitno % 2 ^ 64)

unfoldable pub setbit : ℕ → ℕ → Bool → ℕ
unfolding setbits
setbit num bitno val = setbits num bitno 1 (bit val)

-- `operator uint64_t` of a `BitField` on `data`.
unfoldable pub field : ℕ → ℕ → ℕ → ℕ
unfolding get_mask_nbits
field num bitno nbits = bit_and (num / 2 ^ bitno) (get_mask_nbits nbits)
