-- ===== src/Instr/Block.antt =====
-- emu/core/instrinfo.hpp: `disassemble_block`, as the instructions that it gives to its callback.
use yanesemu.Prelude.{
  ℕ, zero, suc, ◌+◌, ◌%◌, ◌^◌, ◌<◌, ◌≤◌, ◌≡◌, ◌∙◌, refl, ap, arith, Bool, true, leb, if◌then◌else◌,
  Option, none, some, List, [], ◌∷◌, lookup, inl, inr, Bool-cases,
}
use Prim.Native.String.{String}
use yanesemu.Instr.Table.{Mode, instr_mode}
use yanesemu.Instr.Decode.{num_bytes, mode_bytes}

-- The address and the three bytes of an instruction.
pub record Line : Type 0 where
  pub address : ℕ
  pub id : ℕ
  pub low : ℕ
  pub high : ℕ

module _ {S : Type 0} (readval : ℕ → S → ℕ × S) where
  -- The reads of one round of the loop.
  unfoldable pub read_line : ℕ → S → Line × S
  read_line start s =
      let (id, s1) = readval start s in
      let (low, s2) = readval ((start + 1) % 2 ^ 16) s1 in
      let (high, s3) = readval ((start + 2) % 2 ^ 16) s2 in
      (record { address = start; id = id; low = low; high = high }, s3)

  -- The loop, with fuel: none where it has not ended.
  unfoldable pub disassemble_block : ℕ → ℕ → ℕ → S → Option (List Line × S)
  unfolding read_line
  disassemble_block zero start end s = none
  disassemble_block (suc fuel) start end s =
      let (line, s1) = read_line start s in
      let rest = disassemble_block fuel ((start + num_bytes line.id) % 2 ^ 16) end s1 in
      if leb start end
      then elim rest [ none ↦ none | some r ↦ some (line ∷ r.0, r.1) ]
      else some ([], s)

mode_bytes-range : (m : Mode) → (1 ≤ mode_bytes m) × (mode_bytes m ≤ 3)
mode_bytes-range Mode.impld = (omega arith, omega arith)
mode_bytes-range _ = (omega arith, omega arith)

num_bytes-range : (id : ℕ) → (1 ≤ num_bytes id) × (num_bytes id ≤ 3)
unfolding num_bytes
num_bytes-range id = of_row (lookup id instr_mode)
  where
    of_row :
        (o : Option (String × Mode))
        → let n : ℕ = elim o [ none ↦ 1 | some row ↦ mode_bytes row.1 ] in (1 ≤ n) × (n ≤ 3)
    of_row none = (omega arith, omega arith)
    of_row (some row) = mode_bytes-range row.1

module _ {S : Type 0} (readval : ℕ → S → ℕ × S) where
  -- A listing from `start` to `end`, read from the state `s` and leaving `t`: each line has the bytes
  -- that were read at its address and at the two behind it, in this order, each instruction stands
  -- behind the one before it, and the last one reaches past `end`.
  abbrev pub IsListing : ℕ → ℕ → S → List Line → S → Type 0
  IsListing start end s [] t = (end < start) × (t ≡ s)
  IsListing start end s (line ∷ lines) t =
      let (id, s1) = readval start s in
      let (low, s2) = readval (start + 1) s1 in
      let (high, s3) = readval (start + 2) s2 in
      (line ≡ record { address = start; id = id; low = low; high = high })
      × (start ≤ end)
      × IsListing (start + num_bytes id) end s3 lines t

  -- What the loop gives, if it has ended.
  abbrev Listed : ℕ → ℕ → S → Option (List Line × S) → Type 0
  Listed start end s o = (r : List Line × S) × (o ≡ some r) × IsListing start end s r.0 r.1

  Listed-more :
      (start end : ℕ) (s : S) (o : Option (List Line × S))
      → start + 2 < 2 ^ 16
      → start ≤ end
      → let (line, s1) = read_line readval start s in
        Listed (start + num_bytes line.id) end s1 o
        → let all : Option (List Line × S) =
            if leb start end
            then elim o [ none ↦ none | some r ↦ some (line ∷ r.0, r.1) ]
            else some ([], s) in
          Listed start end s all
  unfolding read_line
  Listed-more start end s o fits within (r, e, listing) =
      let inside : leb start end ≡ true = ground arith in
      let second : (start + 1) % 2 ^ 16 ≡ start + 1 = omega arith in
      let third : (start + 2) % 2 ^ 16 ≡ start + 2 = omega arith in
      rw (e, inside)
        (
          ((read_line readval start s).0 ∷ r.0, r.1),
          refl,
          (rw (second, third) refl, within, rw (second, third) at listing),
        )

  -- Below $FFFD a block is listed to its end, with as much fuel as it has bytes and one more: the
  -- lines are those of the instructions that are read from `start` on, one behind the other.
  pub disassemble_block-ends :
      (fuel start end : ℕ) (s : S)
      → end < 0xfffd
      → 1 ≤ fuel
      → end + 2 ≤ fuel + start
      → (r : List Line × S) × (disassemble_block readval fuel start end s ≡ some r)
        × IsListing start end s r.0 r.1
  unfolding disassemble_block
  disassemble_block-ends zero start end s low some_fuel enough = absurd (omega arith)
  disassemble_block-ends (suc fuel) start end s low some_fuel enough =
      elim (Bool-cases (leb start end)) [
        | inr done ↦ rw done (([], s), refl, (ground arith, refl))
        | inl more ↦
            let line = (read_line readval start s).0 in
            let s1 = (read_line readval start s).1 in
            let range = num_bytes-range line.id in
            let no_wrap : (start + num_bytes line.id) % 2 ^ 16 ≡ start + num_bytes line.id =
              ground arith in
            Listed-more start end s _ (ground arith) (ground arith) (
              rw no_wrap (
                disassemble_block-ends fuel (start + num_bytes line.id) end s1 low (ground arith)
                  (ground arith)))
      ]

  -- A block that ends at $FFFF is never left: the address wraps around.
  pub disassemble_block-never :
      (fuel start : ℕ) (s : S)
      → start < 2 ^ 16
      → disassemble_block readval fuel start 0xffff s ≡ none
  unfolding disassemble_block
  disassemble_block-never zero start s fits = refl
  disassemble_block-never (suc fuel) start s fits =
      let inside : leb start 0xffff ≡ true = ground arith in
      let (line, s1) = read_line readval start s in
      let next = (start + num_bytes line.id) % 2 ^ 16 in
      let rest = disassemble_block-never fuel next s1 (omega arith) in
      ap
        (λ (b : Bool).
          if b
          then elim (disassemble_block readval fuel next 0xffff s1) [
            | none ↦ none
            | some r ↦ some (line ∷ r.0, r.1)
          ]
          else some ([], s))
        inside
      ∙ ap
          (λ (o : Option (List Line × S)).
            let r : Option (List Line × S) = elim o [
              | none ↦ none
              | some r ↦ some (line ∷ r.0, r.1)
            ] in
            r)
          rest
