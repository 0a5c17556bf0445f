-- ===== src/Util/File.antt =====
-- emu/util/file.hpp and file.cpp: a file that is read, as the bytes that are left in it.
pub mod Reading
use yanesemu.Prelude.{
  ℕ, zero, suc, Bool, true, false, not, ltb, ◌==◌, ◌||◌, if◌then◌else◌, none, some, List, [], ◌∷◌,
  get_elem?, ◌++◌, Text,
}

-- `is_open` is `filbuf != nullptr`, and `input` is what `filbuf` still gives.
pub record File : Type 0 where
  pub is_open : Bool
  pub filename : Text
  pub input : Text

abbrev pub drop {ℓ} : {A : Type ℓ} → ℕ → List A → List A
drop zero xs = xs
drop (suc n) [] = []
drop (suc n) (x ∷ xs) = drop n xs

-- The array `buf` once the first `nb` bytes of `bytes`, or as many as there are, are stored in it.
abbrev pub stored : ℕ → List ℕ → (ℕ → ℕ) → ℕ → ℕ
stored nb bytes buf i =
    if ltb i nb then elim (get_elem? bytes i) [ none ↦ buf i | some v ↦ v ] else buf i

-- `bread(buf, nb)`; no caller looks at the count that it returns.
unfoldable pub bread : ℕ → (ℕ → ℕ) → File → (ℕ → ℕ) × File
bread nb buf f = (stored nb f.input buf, record f { input = drop nb f.input })

unfoldable pub is_space : ℕ → Bool
is_space c = c == b' ' || c == 9

unfoldable pub is_word_end : ℕ → Bool
is_word_end c = c == 10 || c == b' ' || c == 9

-- The first loop of `getword` and of `getline`, and the `ungetc` behind it.
unfoldable pub skip_space : Text → Text
unfolding is_space
skip_space [] = []
skip_space (c ∷ s) = let rest = skip_space s in if is_space c then rest else c ∷ s

-- The second loop: the characters up to one that stops it, and the input from that one on. The input
-- is empty where the loop has come to the end of the file.
unfoldable pub read_until : (ℕ → Bool) → Text → Text × Text
read_until stops [] = ([], [])
read_until stops (c ∷ s) =
    let (str, rest) = read_until stops s in if stops c then ([], c ∷ s) else (c ∷ str, rest)

abbrev pub is_empty : Text → Bool
is_empty [] = true
is_empty (c ∷ s) = false

-- Whether it has not come to the end of the file, the word, and the file; the character behind the
-- word is put back.
unfoldable pub getword : File → Bool × Text × File
unfolding skip_space read_until is_word_end
getword f =
    let (str, rest) = read_until is_word_end (skip_space f.input) in
    (not (is_empty rest), str, record f { input = rest })

-- The same for a line, whose delimiter is not put back.
unfoldable pub getline : ℕ → File → Bool × Text × File
unfolding skip_space read_until
getline delim f =
    let (str, rest) = read_until (λ c. c == delim) (skip_space f.input) in
    (not (is_empty rest), str, record f { input = drop 1 rest })

-- `getall`, with fuel.
unfoldable pub getall : ℕ → File → Text × File
unfolding getline
getall zero f = ([], f)
getall (suc fuel) f =
    let (more, line, g) = getline 10 f in
    let (str, h) = getall fuel g in if more then (line ++ (10 ∷ str), h) else ([], g)
