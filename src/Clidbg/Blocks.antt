-- ===== src/Clidbg/Blocks.antt =====
-- emu/core/clidbg.cpp: `print_block` reads each address of its range once, in order.
use yanesemu.Prelude.{
  ℕ, zero, suc, ◌+◌, ◌-◌, ◌%◌, ◌^◌, ◌<◌, ◌≤◌, ◌≡◌, refl, ap, arith, true, false, ltb, leb,
  Bool-cases, inl, inr, Option, none, some, List, [], ◌∷◌, ◌++◌,
}
use yanesemu.Clidbg.{Reply, print_line, print_block}

module _ {S : Type 0} (readvalue : ℕ → S → ℕ × S) where
  -- The reads of `count` addresses from `a` on.
  unfoldable pub read_range : ℕ → ℕ → S → List ℕ × S
  read_range zero a s = ([], s)
  read_range (suc count) a s =
      let (v, s1) = readvalue a s in let (vs, s2) = read_range count (a + 1) s1 in (v ∷ vs, s2)

  -- A line has `count` bytes, where that many are left and no more than the rounds.
  print_line-reads :
      (j count start end i : ℕ) (s : S)
      → end < 2 ^ 16
      → i + start + count ≤ end
      → count ≤ j
      → (count < j → i + start + count ≡ end)
      → let r = print_line readvalue j start end i s in
        let q = read_range count (i + start) s in (r.0 ≡ q.0) × (r.1 ≡ i + count) × (r.2 ≡ q.1)
  unfolding print_line read_range
  print_line-reads zero zero start end i s small fits most full = (refl, omega arith, refl)
  print_line-reads zero (suc count) start end i s small fits most full = absurd (omega arith)
  print_line-reads (suc j) zero start end i s small fits most full =
      let over : ltb (i + start) end ≡ false = ground arith in rw over (refl, omega arith, refl)
  print_line-reads (suc j) (suc count) start end i s small fits most full =
      let s1 = (readvalue (i + start) s).1 in
      let inside : ltb (i + start) end ≡ true = ground arith in
      let address : (i + start) % 2 ^ 16 ≡ i + start = omega arith in
      let index : (i + 1) % 2 ^ 16 ≡ i + 1 = omega arith in
      let after : i + start + 1 ≡ i + 1 + start = omega arith in
      let later =
        print_line-reads j count start end (i + 1) s1 small (omega arith) (omega arith)
          (λ less. omega (arith, full (omega arith))) in
      rw (inside, address, index, after)
        (
          ap (λ (l : List ℕ). (readvalue (i + start) s).0 ∷ l) later.0,
          omega (arith, later.1),
          later.2,
        )

  -- The reads of a range, in two parts.
  read_range-append :
      (m n a : ℕ) (s : S)
      → let p = read_range m a s in
        let q = read_range n (a + m) p.1 in
        let r = read_range (m + n) a s in (r.0 ≡ p.0 ++ q.0) × (r.1 ≡ q.1)
  unfolding read_range
  read_range-append zero n a s =
      let same : a + 0 ≡ a = omega arith in
      let sum : 0 + n ≡ n = omega arith in rw (same, sum) (refl, refl)
  read_range-append (suc m) n a s =
      let (v, s1) = readvalue a s in
      let later = read_range-append m n (a + 1) s1 in
      let sum : suc m + n ≡ suc (m + n) = omega arith in
      let start : a + suc m ≡ a + 1 + m = omega arith in
      rw (sum, start) (ap (λ (l : List ℕ). v ∷ l) later.0, later.1)

-- The bytes of the lines that are printed.
abbrev pub bytes_of : List Reply → List ℕ
bytes_of [] = []
bytes_of (Reply.block_line a bytes ∷ rs) = bytes ++ bytes_of rs
bytes_of (r ∷ rs) = bytes_of rs

module _ {S : Type 0} (readvalue : ℕ → S → ℕ × S) where
  -- What `print_block` gives for `count` bytes from `a` on.
  abbrev pub Printed : ℕ → ℕ → S → Option (List Reply × S) → Type 0
  Printed count a s o =
      let q = read_range readvalue count a s in
      (r : List Reply × S) × (o ≡ some r) × (bytes_of r.0 ≡ q.0) × (r.1 ≡ q.1)

  printed_line :
      (m n a : ℕ) (s s1 : S) (bytes : List ℕ) (o : Option (List Reply × S))
      → bytes ≡ (read_range readvalue m a s).0
      → s1 ≡ (read_range readvalue m a s).1
      → Printed n (a + m) s1 o
      → Printed
          (m + n)
          a
          s
          (elim o [ none ↦ none | some r ↦ some (Reply.block_line a bytes ∷ r.0, r.1) ])
  printed_line m n a s s1 bytes o eb es (r, e, rb, rs) =
      let split = read_range-append readvalue m n a s in
      rw (e, split.0, split.1, ← es, ← eb)
        ((Reply.block_line a bytes ∷ r.0, r.1), refl, ap (λ (l : List ℕ). bytes ++ l) rb, rs)

  module _ (start end : ℕ) (small : end < 2 ^ 16) where
    block_line :
        (fuel i m n : ℕ) (s : S)
        → 1 ≤ m
        → m ≤ 16
        → (m < 16 → n ≡ 0)
        → i + start + (m + n) ≡ end
        → ((s1 : S)
            → Printed n (i + m + start) s1 (print_block readvalue fuel start end (i + m) s1))
        → Printed (m + n) (i + start) s (print_block readvalue (suc fuel) start end i s)
    unfolding print_block
    block_line fuel i m n s some_bytes most full all rest =
        let line =
          print_line-reads readvalue 16 m start end i s small (omega arith) most
            (λ less. omega (arith, full less)) in
        let inside : ltb i (end - start) ≡ true = ground arith in
        let place : i + m + start ≡ i + start + m = omega arith in
        let out = print_line readvalue 16 start end i s in
        let tail = rw place at (rest out.2) in
        rw (inside, line.1)
          (printed_line m n (i + start) s out.2 out.0
            (print_block readvalue fuel start end (i + m) out.2) line.0 line.2 tail)

    blocks :
        (fuel i n : ℕ) (s : S)
        → i + start + n ≡ end
        → n < fuel
        → Printed n (i + start) s (print_block readvalue fuel start end i s)
    unfolding print_block read_range
    blocks zero i n s all enough = absurd (omega arith)
    blocks (suc fuel) i zero s all enough =
        let over : ltb i (end - start) ≡ false = ground arith in rw over (([], s), refl, refl, refl)
    blocks (suc fuel) i (suc n) s all enough = elim (Bool-cases (leb 16 (suc n))) [
      | inl many ↦
          let sum : 16 + (suc n - 16) ≡ suc n = ground arith in
          rw sum at (
            block_line fuel i 16 (suc n - 16) s (omega arith) (omega arith) (λ less. omega arith)
              (ground arith)
              (λ s1. blocks fuel (i + 16) (suc n - 16) s1 (ground arith) (ground arith)))
      | inr few ↦
          let sum : suc n + 0 ≡ suc n = omega arith in
          rw sum at (
            block_line fuel i (suc n) 0 s (omega arith) (ground arith) (λ less. refl) (omega arith)
              (λ s1. blocks fuel (i + suc n) 0 s1 (omega arith) (omega arith)))
    ]

  -- `print_block` ends, with as much fuel as its range has addresses and one more. It has then read
  -- each address from `start` up to `end` once, in order, and printed what was read.
  pub print_block-reads :
      (start end : ℕ) (s : S)
      → start ≤ end
      → end < 2 ^ 16
      → Printed (end - start) start s (print_block readvalue (end - start + 1) start end 0 s)
  print_block-reads start end s order small =
      let here : 0 + start ≡ start = omega arith in
      rw here at
        (blocks start end small (end - start + 1) 0 (end - start) s (omega arith) (omega arith))
