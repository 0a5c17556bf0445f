-- ===== src/Cartridge/Load.antt =====
-- emu/core/cartridge.cpp: a file that is written part by part is read back as its parts, up to what
-- the CPU then sees through the bus.
use yanesemu.Prelude.{
  ℕ, zero, suc, ◌*◌, ◌<◌, ◌≡◌, refl, ap, arith, Bool, true, false, to_bool, bit_and, ◌==◌,
  if◌then◌else◌, some, List, [], ◌∷◌, ◌++◌, length, get_elem?, ◌∙◌,
}
use yanesemu.Util.File.{File, bread, drop, stored}
use yanesemu.Util.HeapArray.{reset}
use yanesemu.Ppu.Address.{Mirroring}
use yanesemu.Cartridge as C
use yanesemu.Cartridge.{Cartridge}

-- Reading as many bytes as a part has gives that part, and leaves what comes after it.
drop_part : (xs ys : List ℕ) → drop (length xs) (xs ++ ys) ≡ ys
drop_part [] ys = refl
drop_part (x ∷ xs) ys = drop_part xs ys

get_part :
    (xs ys : List ℕ) (i : ℕ) (v : ℕ) → get_elem? xs i ≡ some v → get_elem? (xs ++ ys) i ≡ some v
get_part [] ys i v e = cc
get_part (x ∷ xs) ys zero v e = e
get_part (x ∷ xs) ys (suc i) v e = get_part xs ys i v e

in_range : (xs : List ℕ) (i v : ℕ) → get_elem? xs i ≡ some v → i < length xs
in_range [] i v e = cc
in_range (x ∷ xs) zero v e = omega arith
in_range (x ∷ xs) (suc i) v e = omega (arith, in_range xs i v e)

stored_part :
    (xs ys : List ℕ) (buf : ℕ → ℕ) (i v : ℕ)
    → get_elem? xs i ≡ some v
    → stored (length xs) (xs ++ ys) buf i ≡ v
stored_part xs ys buf i v e = rw (get_part xs ys i v e) (ground (arith, in_range xs i v e))

-- An array holds the bytes of a part.
abbrev pub Holds : List ℕ → (ℕ → ℕ) → Type 0
Holds xs a = (i v : ℕ) → get_elem? xs i ≡ some v → a i ≡ v

bread_part :
    (n : ℕ) (xs ys : List ℕ) (buf : ℕ → ℕ) (f : File)
    → f.input ≡ xs ++ ys
    → length xs ≡ n
    → Holds xs (bread n buf f).0 × ((bread n buf f).1.input ≡ ys)
unfolding bread
bread_part n xs ys buf f e l = rw (e, ← l) (λ i v h. stored_part xs ys buf i v h, drop_part xs ys)

no_bytes : (xs : List ℕ) → length xs ≡ 0 → xs ≡ []
no_bytes [] e = refl
no_bytes (x ∷ xs) e = absurd (omega arith)

-- From `c` to `d` only the trainer and the ROMs are loaded.
pub record Loads (c d : Cartridge) : Type 0 where
  pub header : d.header ≡ c.header
  pub has : d.has ≡ c.has
  pub nt_mirroring : d.nt_mirroring ≡ c.nt_mirroring
  pub mapper : d.mapper ≡ c.mapper

load_trainer_lem :
    (c : Cartridge) (f : File) (xs ys : List ℕ) (b : Bool)
    → c.has.trainer ≡ b
    → f.input ≡ xs ++ ys
    → length xs ≡ (if b then 512 else 0)
    → let r = C.load_trainer c f in Loads c r.0 × Holds xs r.0.trainer × (r.1.input ≡ ys)
unfolding C.load_trainer
load_trainer_lem c f xs ys true t e l =
    let part = bread_part 512 xs ys c.trainer f e l in
    rw t (record { header = refl; has = refl; nt_mirroring = refl; mapper = refl }, part.0, part.1)
load_trainer_lem c f xs ys false t e l =
    let empty = no_bytes xs l in
    rw t (
      record { header = refl; has = refl; nt_mirroring = refl; mapper = refl },
      rw empty (λ i v h. cc),
      rw empty at e,
    )

load_rom_lem :
    (fresh : ℕ → ℕ) (n : ℕ) (f : File) (xs ys : List ℕ)
    → f.input ≡ xs ++ ys
    → length xs ≡ n
    → let r = C.load_rom fresh n f in Holds xs r.0.data_at × (r.0.len ≡ n) × (r.1.input ≡ ys)
unfolding C.load_rom reset
load_rom_lem fresh n f xs ys e l =
    let part = bread_part n xs ys fresh f e l in (part.0, refl, part.1)

-- The bytes of a file in the format: a header of 16 bytes, a trainer, the program, the characters.
abbrev pub header_bytes : (ℕ → ℕ) → List ℕ
header_bytes h =
    h 0
    ∷ h 1
    ∷ h 2
    ∷ h 3
    ∷ h 4
    ∷ h 5
    ∷ h 6
    ∷ h 7
    ∷ h 8
    ∷ h 9
    ∷ h 10
    ∷ h 11
    ∷ h 12
    ∷ h 13
    ∷ h 14
    ∷ h 15
    ∷ []

-- The parts agree with the header, which names no memory in place of a ROM.
pub record IsImage (h : ℕ → ℕ) (trainer prg chr : List ℕ) : Type 0 where
  pub ines : C.is_ines h ≡ true
  pub nes20 : C.is_nes20 h ≡ false
  pub prgram : to_bool (bit_and (h 10) 0x10) ≡ false
  pub chr_banks : (h 5 == 0) ≡ false
  pub trainer_size : length trainer ≡ (if to_bool (bit_and (h 6) 4) then 512 else 0)
  pub prg_size : length prg ≡ h 4 * 16384
  pub chr_size : length chr ≡ h 5 * 8192

-- What a cartridge holds that was read from such parts.
pub record Inserted (h : ℕ → ℕ) (trainer prg chr : List ℕ) (c : Cartridge) : Type 0 where
  pub trainer_bytes : Holds trainer c.trainer
  pub prg_bytes : Holds prg c.prgrom.data_at
  pub prg_len : c.prgrom.len ≡ length prg
  pub chr_bytes : Holds chr c.chrrom.data_at
  pub chr_len : c.chrrom.len ≡ length chr
  pub nt_mirroring :
      c.nt_mirroring ≡ (if bit_and (h 6) 1 == 0 then Mirroring.horz else Mirroring.vert)

module _ (fresh : ℕ → ℕ) (h : ℕ → ℕ) (trainer prg chr more : List ℕ) where
  load_roms_lem :
      (c : Cartridge) (f : File)
      → IsImage h trainer prg chr
      → c.header 4 ≡ h 4
      → c.header 5 ≡ h 5
      → c.has.prgram ≡ false
      → c.has.chrram ≡ false
      → Holds trainer c.trainer
      → c.nt_mirroring ≡ (if bit_and (h 6) 1 == 0 then Mirroring.horz else Mirroring.vert)
      → f.input ≡ prg ++ (chr ++ more)
      → let r = (let (d, g) = C.load_prgrom fresh c f in C.load_chrrom fresh d g) in
        Inserted h trainer prg chr r.0 × (r.1.input ≡ more)
  unfolding C.load_prgrom C.load_chrrom
  load_roms_lem c f image h4 h5 hp hc ht hm e =
      let first =
        load_rom_lem fresh (c.header 4 * 16384) f prg (chr ++ more) e (rw h4 image.prg_size) in
      let g = (C.load_rom fresh (c.header 4 * 16384) f).1 in
      let second =
        load_rom_lem fresh (c.header 5 * 8192) g chr more first.2 (rw h5 image.chr_size) in
      rw (hp, hc)
        (
          record {
            trainer_bytes = ht;
            prg_bytes = first.0;
            prg_len = first.1 ∙ omega (arith, ap (λ (n : ℕ). n * 16384) h4, image.prg_size);
            chr_bytes = second.0;
            chr_len = second.1 ∙ omega (arith, ap (λ (n : ℕ). n * 8192) h5, image.chr_size);
            nt_mirroring = hm;
          },
          second.2,
        )

  load_lem :
      (c : Cartridge) (f : File)
      → IsImage h trainer prg chr
      → c.header 4 ≡ h 4
      → c.header 5 ≡ h 5
      → c.has.trainer ≡ to_bool (bit_and (h 6) 4)
      → c.has.prgram ≡ false
      → c.has.chrram ≡ false
      → c.nt_mirroring ≡ (if bit_and (h 6) 1 == 0 then Mirroring.horz else Mirroring.vert)
      → f.input ≡ trainer ++ (prg ++ (chr ++ more))
      → let r = C.load fresh c f in Inserted h trainer prg chr r.0 × (r.1.input ≡ more)
  unfolding C.load
  load_lem c f image h4 h5 ht hp hc hm e =
      let one = load_trainer_lem c f trainer (prg ++ (chr ++ more)) _ ht e image.trainer_size in
      let d = (C.load_trainer c f).0 in
      load_roms_lem d (C.load_trainer c f).1 image (ap (λ (a : ℕ → ℕ). a 4) one.0.header ∙ h4)
        (ap (λ (a : ℕ → ℕ). a 5) one.0.header ∙ h5) (ap (λ (x : C.Has). x.prgram) one.0.has ∙ hp)
        (ap (λ (x : C.Has). x.chrram) one.0.has ∙ hc) one.1 (one.0.nt_mirroring ∙ hm) one.2

  module _ (c : Cartridge) (f : File) where
    abbrev read_header : ℕ → ℕ
    read_header = stored C.header_len f.input c.header

    -- The cartridge that `parse` begins to load.
    abbrev described : Cartridge
    described =
        C.parse_ines
          (C.parse_common (C.recognised (record c { name = f.filename; header = read_header })))

    parse_accepts :
        f.is_open ≡ true
        → C.is_ines read_header ≡ true
        → C.is_nes20 read_header ≡ false
        → let r = C.parse fresh f c in
          let l = C.load fresh described (record f { input = drop C.header_len f.input }) in
          (r.0 ≡ true) × (r.1 ≡ l.0) × (r.2 ≡ l.1)
    unfolding C.parse bread
    parse_accepts o i n = rw (o, i, n) (refl, refl, refl)

  -- A cartridge that has not been loaded yet, parsing a file that is a header of 16 bytes, a trainer
  -- if the header says so, and the program and characters of as many banks as the header says,
  -- holds each of these parts afterwards, and the bytes behind them are left in the file.
  pub parse_parts :
      (c : Cartridge) (f : File)
      → IsImage h trainer prg chr
      → c.has.chrram ≡ false
      → f.is_open ≡ true
      → f.input ≡ header_bytes h ++ (trainer ++ (prg ++ (chr ++ more)))
      → let r = C.parse fresh f c in
        (r.0 ≡ true) × Inserted h trainer prg chr r.1 × (r.2.input ≡ more)
  unfolding C.is_ines C.is_nes20 C.parse_ines C.parse_common C.recognised
  parse_parts c f image hc is_open e =
      let ok = parse_accepts c f is_open (rw e image.ines) (rw e image.nes20) in
      let g : File = record f { input = drop C.header_len f.input } in
      let l =
        load_lem (described c f) g image (rw e refl) (rw e refl) (rw e refl) (rw e image.prgram)
          (rw (e, image.chr_banks) hc) (rw e refl) (rw e refl) in
      rw (ok.1, ok.2) (ok.0, l.0, l.1)
