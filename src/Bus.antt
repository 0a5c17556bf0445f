-- ===== src/Bus.antt =====
-- emu/core/bus.hpp and bus.cpp: a bus of up to 16 address ranges, each with a reader and a writer
-- that work on the world behind the bus.
pub mod Ranges
pub mod Wiring
pub mod Keeps
mod Examples
use yanesemu.Prelude.{
  ℕ, zero, suc, ◌+◌, ◌-◌, Bool, true, false, not, ltb, leb, ◌==◌, ◌&&◌, ◌||◌, if◌then◌else◌, Option,
  none, some,
}

abbrev pub tabsiz : ℕ
tabsiz = 16

abbrev pub Reader : Type 0 → Type 0
Reader W = ℕ → W → ℕ × W

abbrev pub Writer : Type 0 → Type 0
Writer W = ℕ → ℕ → W → W

-- The arrays by index. `lookup` holds `size` numbers, and the three others hold `tabsiz` each. The
-- search of `map` looks at `assigned[16]` too, and takes that number if it finds false there: then it
-- writes past the end of all three. `overrun` remembers such a write, and one past the end of
-- `lookup`; from there on the C++ program has no defined behaviour, while the model goes on with
-- cells of its own. A read past `size` gives an arbitrary cell of `lookup`.
pub record Bus (W : Type 0) : Type 0 where
  pub size : ℕ
  pub lookup : ℕ → ℕ
  pub readtab : ℕ → Reader W
  pub writetab : ℕ → Writer W
  pub assigned : ℕ → Bool
  pub overrun : Bool

-- `array[i] = v`
abbrev pub set_at : {A : Type 0} → ℕ → A → (ℕ → A) → ℕ → A
set_at i v f j = if j == i then v else f j

module _ {W : Type 0} where
  -- `reset`. The new `lookup` is not initialised: `fresh` is what stands in it.
  unfoldable pub reset : ℕ → (ℕ → ℕ) → Bus W → Bus W
  reset newsize fresh b = record b {
    size = newsize;
    lookup = fresh;
    assigned = λ i. if ltb i tabsiz then false else b.assigned i;
  }

  unfoldable pub read : Bus W → Reader W
  read b addr = b.readtab (b.lookup addr) addr

  unfoldable pub write : Bus W → Writer W
  write b addr v = b.writetab (b.lookup addr) addr v

-- `std::fill` from `start` up to `end`.
abbrev pub fill : ℕ → ℕ → ℕ → (ℕ → ℕ) → ℕ → ℕ
fill start end id f a = if leb start a && ltb a end then id else f a

-- `while (assigned[id]) { if (++id > TABSIZ) … }`, with fuel.
unfoldable pub find_id : ℕ → (ℕ → Bool) → ℕ → Option ℕ
find_id zero assigned id = none
find_id (suc fuel) assigned id =
    let rest = find_id fuel assigned (id + 1) in
    if not (assigned id) then some id else if ltb tabsiz (id + 1) then none else rest

module _ {W : Type 0} where
  -- `map` once the search is over; without a free number it changes nothing.
  unfoldable pub map_with : Option ℕ → ℕ → ℕ → Reader W → Writer W → Bus W → Bus W
  map_with none start end reader writer b = b
  map_with (some id) start end reader writer b = record b {
    assigned = set_at id true b.assigned;
    readtab = set_at id reader b.readtab;
    writetab = set_at id writer b.writetab;
    lookup = fill start end id b.lookup;
    overrun = b.overrun || leb tabsiz id || ltb b.size end;
  }

  unfoldable pub map : ℕ → ℕ → Reader W → Writer W → Bus W → Bus W
  unfolding map_with find_id
  map start end reader writer b = map_with (find_id 17 b.assigned 0) start end reader writer b

  unfoldable pub remap : ℕ → ℕ → Reader W → Writer W → Bus W → Bus W
  remap start end reader writer b =
      let id = b.lookup start in
      if not (start == 0) && b.lookup (start - 1) == id
      then b
      else if not (b.lookup (end - 1) == id)
      then b
      else record b { readtab = set_at id reader b.readtab; writetab = set_at id writer b.writetab }
