-- ===== src/Bus/Ranges.antt =====
-- emu/core/bus.cpp: what a range answers after it is mapped, and what the others do.
use yanesemu.Prelude.{
  ℕ, zero, suc, ◌+◌, ◌-◌, ◌<◌, ◌≤◌, ◌≡◌, refl, arith, Bool, true, false, ltb, ◌==◌, ◌&&◌,
  if◌then◌else◌, Option, none, some, Bool-cases, ◌⊎◌, inl, inr,
}
use yanesemu.Bus as B
use yanesemu.Bus.{Bus, Reader, Writer}

-- A number is found from `id` on exactly as the first free one up to 16; enough fuel is 17 - id.
abbrev pub Finds : (ℕ → Bool) → ℕ → Option ℕ → Type 0
Finds assigned from none = (i : ℕ) → from ≤ i → i < 17 → assigned i ≡ true
Finds assigned from (some id) =
    (assigned id ≡ false)
    × (from ≤ id)
    × (id < 17)
    × ((i : ℕ) → from ≤ i → i < id → assigned i ≡ true)

order_cases : (a b : ℕ) → (a < b) ⊎ (a ≡ b) ⊎ (b < a)
order_cases a b = ground arith

taken_from :
    (assigned : ℕ → Bool) (id i : ℕ)
    → assigned id ≡ true
    → id ≤ i
    → (id + 1 ≤ i → assigned i ≡ true)
    → assigned i ≡ true
taken_from assigned id i taken lo later = elim (order_cases id i) [
  | inl below ↦ later (omega arith)
  | inr (inl same) ↦ rw (← same) taken
  | inr (inr above) ↦ absurd (omega arith)
]

widen :
    (o : Option ℕ) (assigned : ℕ → Bool) (id : ℕ)
    → assigned id ≡ true
    → Finds assigned (id + 1) o
    → Finds assigned id o
widen none assigned id taken found =
    λ i lo hi. taken_from assigned id i taken lo (λ h. found i h hi)
widen (some k) assigned id taken found = (
  found.0,
  omega (arith, found.1),
  found.2,
  λ i lo hi. taken_from assigned id i taken lo (λ h. found.3 i h hi),
)

continued :
    (fuel : ℕ) (assigned : ℕ → Bool) (id : ℕ) (rest : Option ℕ)
    → id < 17
    → assigned id ≡ true
    → (id + 1 < 17 → Finds assigned (id + 1) rest)
    → Finds assigned id (if ltb B.tabsiz (id + 1) then none else rest)
continued fuel assigned id rest h taken later = elim (Bool-cases (ltb B.tabsiz (id + 1))) [
  | inl over ↦ rw over (λ i lo hi. taken_from assigned id i taken lo (λ far. absurd (ground arith)))
  | inr within ↦ rw within (widen rest assigned id taken (later (ground arith)))
]

find_from :
    (fuel : ℕ) (assigned : ℕ → Bool) (id : ℕ)
    → id + fuel ≡ 17
    → id < 17
    → Finds assigned id (B.find_id fuel assigned id)
unfolding B.find_id
find_from zero assigned id e h = absurd (omega arith)
find_from (suc fuel) assigned id e h = elim (Bool-cases (assigned id)) [
  | inr free ↦ rw free (free, omega arith, h, λ i lo hi. absurd (omega arith))
  | inl taken ↦ rw taken (
      continued fuel assigned id _ h taken
        (λ more. find_from fuel assigned (id + 1) (omega arith) more))
]

-- The search of `map` ends. It gives the first free number; without one the numbers 0 to 16 are all
-- assigned, one more than the tables hold.
pub find_id_lem : (assigned : ℕ → Bool) → Finds assigned 0 (B.find_id 17 assigned 0)
find_id_lem assigned = find_from 17 assigned 0 (omega arith) (omega arith)

-- `remap` of what it takes for a whole range.
remap_accepts :
    {W : Type 0} (c : Bus W) (start end : ℕ) (reader : Reader W) (writer : Writer W) (id : ℕ)
    → c.lookup start ≡ id
    → c.lookup (end - 1) ≡ id
    → ((start == 0) ≡ true) ⊎ ((c.lookup (start - 1) == id) ≡ false)
    → B.remap start end reader writer c ≡ record c {
      readtab = B.set_at id reader c.readtab;
      writetab = B.set_at id writer c.writetab;
    }
unfolding B.remap
remap_accepts c start end reader writer id first last edge =
    rw (first, last, ==-self id) (elim edge [ inl e ↦ rw e refl | inr e ↦ rw e (and-false _ _ _) ])
  where
    ==-self : (n : ℕ) → (n == n) ≡ true
    ==-self n = ground arith

    and-false : {A : Type 0} (q : Bool) (x y : A) → (if q && false then x else y) ≡ y
    and-false true x y = refl
    and-false false x y = refl

module _ {W : Type 0} (b : Bus W) (start end : ℕ) (reader : Reader W) (writer : Writer W) where
  abbrev mapped : Bus W
  mapped = B.map start end reader writer b

  found_free : (o : Option ℕ) (id : ℕ) → o ≡ some id → Finds b.assigned 0 o → b.assigned id ≡ false
  found_free none id e f = cc
  found_free (some k) id e f = ground (arith, f.0)

  -- `remap` of the range that `map` has just given out exchanges the reader and the writer, as if the
  -- new ones had been mapped, if the address before the range belongs to another one.
  pub remap-map :
      (id : ℕ) (reader2 : Reader W) (writer2 : Writer W)
      → start < end
      → B.find_id 17 b.assigned 0 ≡ some id
      → ((start ≡ 0) ⊎ (b.assigned (b.lookup (start - 1)) ≡ true))
      → let c = B.remap start end reader2 writer2 mapped in
        let d = B.map start end reader2 writer2 b in
        (a : ℕ) → (B.read c a ≡ B.read d a) × (B.write c a ≡ B.write d a)
  unfolding B.remap B.map B.read B.write
  remap-map id reader2 writer2 h found edge =
      let free = found_free (B.find_id 17 b.assigned 0) id found (find_id_lem b.assigned) in
      let c = B.map_with (some id) start end reader writer b in
      rw
        (
          found,
          remap_accepts c start end reader2 writer2 id (ground arith) (ground arith) (ground arith),
        )
        (λ a. ground arith)
