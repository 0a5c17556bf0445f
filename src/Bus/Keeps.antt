-- ===== src/Bus/Keeps.antt =====
-- emu/core/bus.cpp: what every reader and writer of a bus keeps of the world, the bus keeps.
use yanesemu.Prelude.{
  ℕ, ◌-◌, ◌≡◌, Bool, true, false, not, ◌==◌, ◌&&◌, if◌then◌else◌, Option, none, some,
}
use yanesemu.Bus as B
use yanesemu.Bus.{Bus, Reader, Writer}

-- A view of the world that no reader and no writer in the tables changes.
pub record Keeps {W V : Type 0} (view : W → V) (b : Bus W) : Type 0 where
  pub readers : (i a : ℕ) (w : W) → view (b.readtab i a w).1 ≡ view w
  pub writers : (i a v : ℕ) (w : W) → view (b.writetab i a v w) ≡ view w

module _ {W V : Type 0} (view : W → V) (reader : Reader W) (writer : Writer W)
    (r : (a : ℕ) (w : W) → view (reader a w).1 ≡ view w)
    (q : (a v : ℕ) (w : W) → view (writer a v w) ≡ view w) where
  read_either :
      (c : Bool) (old : Reader W) (a : ℕ) (w : W)
      → view (old a w).1 ≡ view w
      → view ((if c then reader else old) a w).1 ≡ view w
  read_either true old a w e = r a w
  read_either false old a w e = e

  write_either :
      (c : Bool) (old : Writer W) (a v : ℕ) (w : W)
      → view (old a v w) ≡ view w
      → view ((if c then writer else old) a v w) ≡ view w
  write_either true old a v w e = q a v w
  write_either false old a v w e = e

  map_with-Keeps :
      (o : Option ℕ) (start end : ℕ) (b : Bus W)
      → Keeps view b
      → Keeps view (B.map_with o start end reader writer b)
  unfolding B.map_with
  map_with-Keeps none start end b k = k
  map_with-Keeps (some id) start end b k = record {
    readers = λ i a w. read_either (i == id) (b.readtab i) a w (k.readers i a w);
    writers = λ i a v w. write_either (i == id) (b.writetab i) a v w (k.writers i a v w);
  }

  pub map-Keeps :
      (start end : ℕ) (b : Bus W) → Keeps view b → Keeps view (B.map start end reader writer b)
  unfolding B.map
  map-Keeps start end b k = map_with-Keeps _ start end b k

  choose : (c : Bool) {b d : Bus W} → Keeps view b → Keeps view d → Keeps view (if c then b else d)
  choose true p q = p
  choose false p q = q

  pub remap-Keeps :
      (start end : ℕ) (b : Bus W) → Keeps view b → Keeps view (B.remap start end reader writer b)
  unfolding B.remap
  remap-Keeps start end b k =
      let id = b.lookup start in
      choose (not (start == 0) && b.lookup (start - 1) == id) k (
        choose (not (b.lookup (end - 1) == id)) k (record {
          readers = λ i a w. read_either (i == id) (b.readtab i) a w (k.readers i a w);
          writers = λ i a v w. write_either (i == id) (b.writetab i) a v w (k.writers i a v w);
        }))
