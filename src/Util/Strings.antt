-- ===== src/Util/Strings.antt =====
-- emu/util/stringops.hpp and stringops.cpp: splitting a text, and reading a number in base 16.
use yanesemu.Prelude.{
  ℕ, zero, suc, ◌+◌, ◌-◌, ◌*◌, ◌^◌, ◌≤◌, ◌≡◌, ◌∙◌, refl, ap, arith, Bool, true, false, not, ltb,
  leb, ◌==◌, ◌&&◌, if◌then◌else◌, Option, none, some, List, [], ◌∷◌, ◌++◌, length, length-append,
  map, Text, all_of,
}
use mathlib.Core.List.{append_assoc}

-- `find` with the two substrings that are taken at its result: what stands before the delimiter,
-- and what stands behind it.
unfoldable pub find_delim : ℕ → Text → Option (Text × Text)
find_delim delim [] = none
find_delim delim (c ∷ s) =
    let rest = find_delim delim s in
    if c == delim then some ([], s) else elim rest [ none ↦ none | some p ↦ some (c ∷ p.0, p.1) ]

-- The loop of `strsplit` on the characters from `i` on, with fuel.
unfoldable pub split_loop : ℕ → ℕ → Text → List Text
unfolding find_delim
split_loop zero delim s = []
split_loop (suc fuel) delim [] = []
split_loop (suc fuel) delim (c ∷ s) = elim (find_delim delim (c ∷ s)) [
  | none ↦ (c ∷ s) ∷ []
  | some p ↦ p.0 ∷ split_loop fuel delim p.1
]

unfoldable pub strsplit : Text → ℕ → List Text
unfolding split_loop
strsplit s delim = split_loop (length s) delim s

-- `std::from_chars` in base 16 takes as many digits as there are, at least one and no sign.
unfoldable pub hex_digit : ℕ → Option ℕ
hex_digit c =
    if leb b'0' c && leb c b'9'
    then some (c - b'0')
    else if leb b'a' c && leb c b'f'
    then some (c - b'a' + 10)
    else if leb b'A' c && leb c b'F'
    then some (c - b'A' + 10)
    else none

unfoldable pub scan_hex : ℕ → Text → ℕ
unfolding hex_digit
scan_hex value [] = value
scan_hex value (c ∷ s) = elim (hex_digit c) [ none ↦ value | some d ↦ scan_hex (value * 16 + d) s ]

-- `strconv<T>(str, 16)` for a `T` of `bits` bits; it does not look at what is left of the text.
unfoldable pub strconv : ℕ → Text → Option ℕ
unfolding scan_hex
strconv bits [] = none
strconv bits (c ∷ s) = elim (hex_digit c) [
  | none ↦ none
  | some d ↦ let value = scan_hex d s in if ltb value (2 ^ bits) then some value else none
]

-- Every word is followed by the delimiter.
abbrev pub terminate : ℕ → List Text → Text
terminate delim [] = []
terminate delim (w ∷ ws) = w ++ (delim ∷ terminate delim ws)

abbrev pub lacks : ℕ → Text → Bool
lacks delim = all_of (λ c. not (c == delim))

abbrev pub all_lack : ℕ → List Text → Bool
all_lack delim [] = true
all_lack delim (w ∷ ws) = lacks delim w && all_lack delim ws

-- What is left behind the last delimiter makes a word unless it is empty.
abbrev pub last_word : Text → List Text
last_word [] = []
last_word (c ∷ s) = (c ∷ s) ∷ []

module _ (delim : ℕ) where
  find_delim-word :
      (w rest : Text)
      → lacks delim w ≡ true
      → find_delim delim (w ++ (delim ∷ rest)) ≡ some (w, rest)
  unfolding find_delim
  find_delim-word [] rest h = ground arith
  find_delim-word (c ∷ w) rest h =
      let later = find_delim-word w rest (ground arith) in
      let here : (c == delim) ≡ false = ground arith in rw (here, later) refl

  find_delim-last : (w : Text) → lacks delim w ≡ true → find_delim delim w ≡ none
  unfolding find_delim
  find_delim-last [] h = refl
  find_delim-last (c ∷ w) h =
      let later = find_delim-last w (ground arith) in
      let here : (c == delim) ≡ false = ground arith in rw (here, later) refl

  split_found :
      (fuel c : ℕ) (s : Text) (o : Option (Text × Text))
      → find_delim delim (c ∷ s) ≡ o
      → split_loop (suc fuel) delim (c ∷ s)
        ≡ elim o [ none ↦ (c ∷ s) ∷ [] | some p ↦ p.0 ∷ split_loop fuel delim p.1 ]
  unfolding split_loop
  split_found fuel c s o e =
      ap
        (λ (q : Option (Text × Text)).
          let r : List Text = elim q [
            | none ↦ (c ∷ s) ∷ []
            | some p ↦ p.0 ∷ split_loop fuel delim p.1
          ] in
          r)
        e

  split_step :
      (fuel : ℕ) (w rest : Text)
      → lacks delim w ≡ true
      → split_loop (suc fuel) delim (w ++ (delim ∷ rest)) ≡ w ∷ split_loop fuel delim rest
  split_step fuel [] rest h = split_found fuel delim rest _ (find_delim-word [] rest h)
  split_step fuel (c ∷ w) rest h =
      split_found fuel c (w ++ (delim ∷ rest)) _ (find_delim-word (c ∷ w) rest h)

  split_end :
      (fuel : ℕ) (w : Text)
      → lacks delim w ≡ true
      → length w ≤ fuel
      → split_loop fuel delim w ≡ last_word w
  unfolding split_loop
  split_end zero [] h enough = refl
  split_end zero (c ∷ w) h enough = absurd (omega arith)
  split_end (suc fuel) [] h enough = refl
  split_end (suc fuel) (c ∷ w) h enough = split_found fuel c w _ (find_delim-last (c ∷ w) h)

  split_words :
      (fuel : ℕ) (ws : List Text) (w : Text)
      → all_lack delim ws ≡ true
      → lacks delim w ≡ true
      → length (terminate delim ws ++ w) ≤ fuel
      → split_loop fuel delim (terminate delim ws ++ w) ≡ ws ++ last_word w
  split_words fuel [] w h hw enough = split_end fuel w hw enough
  split_words zero (v ∷ ws) w h hw enough =
      let same = append_assoc v (delim ∷ terminate delim ws) w in
      absurd (omega (arith, ap length same, length-append v (delim ∷ (terminate delim ws ++ w))))
  split_words (suc fuel) (v ∷ ws) w h hw enough =
      let same = append_assoc v (delim ∷ terminate delim ws) w in
      let rest = terminate delim ws ++ w in
      ap (split_loop (suc fuel) delim) same
      ∙ split_step fuel v rest (ground arith)
      ∙ ap (λ (l : List Text). v ∷ l)
          (split_words fuel ws w (ground arith) hw
            (omega (arith, ap length same, length-append v (delim ∷ rest))))

-- `strsplit` gives back the words, without the delimiter in them, that a text is put together from by
-- writing the delimiter behind each, empty words included; what is left behind the last delimiter
-- is a word unless it is empty.
pub strsplit-terminate :
    (delim : ℕ) (ws : List Text) (w : Text)
    → all_lack delim ws ≡ true
    → lacks delim w ≡ true
    → strsplit (terminate delim ws ++ w) delim ≡ ws ++ last_word w
unfolding strsplit
strsplit-terminate delim ws w h hw = split_words delim _ ws w h hw (omega arith)

-- A digit as a character, in capital letters, and the number that digits stand for.
abbrev pub hex_char : ℕ → ℕ
hex_char d = if ltb d 10 then b'0' + d else b'A' + (d - 10)

abbrev pub value_of : ℕ → List ℕ → ℕ
value_of value [] = value
value_of value (d ∷ ds) = value_of (value * 16 + d) ds

abbrev pub are_digits : List ℕ → Bool
are_digits [] = true
are_digits (d ∷ ds) = ltb d 16 && are_digits ds

hex_digit-char : (d : ℕ) → ltb d 16 ≡ true → hex_digit (hex_char d) ≡ some d
unfolding hex_digit
hex_digit-char d h = ground arith

scan_hex-chars :
    (value : ℕ) (ds : List ℕ)
    → are_digits ds ≡ true
    → scan_hex value (map hex_char ds) ≡ value_of value ds
unfolding scan_hex
scan_hex-chars value [] h = refl
scan_hex-chars value (d ∷ ds) h =
    ap
      (λ (o : Option ℕ).
        let r : ℕ = elim o [
          | none ↦ value
          | some e ↦ scan_hex (value * 16 + e) (map hex_char ds)
        ] in
        r)
      (hex_digit-char d (ground arith))
    ∙ scan_hex-chars (value * 16 + d) ds (ground arith)

-- `strconv` reads the number that hexadecimal digits stand for, if it fits in the type, and nothing
-- if it does not.
pub strconv-digits :
    (bits d : ℕ) (ds : List ℕ)
    → are_digits (d ∷ ds) ≡ true
    → let value = value_of d ds in
      strconv bits (map hex_char (d ∷ ds)) ≡ (if ltb value (2 ^ bits) then some value else none)
unfolding strconv
strconv-digits bits d ds h =
    ap
      (λ (o : Option ℕ).
        let r : Option ℕ = elim o [
          | none ↦ none
          | some e ↦
              let value = scan_hex e (map hex_char ds) in
              if ltb value (2 ^ bits) then some value else none
        ] in
        r)
      (hex_digit-char d (ground arith))
    ∙ ap (λ (v : ℕ). if ltb v (2 ^ bits) then some v else none) (scan_hex-chars d ds (ground arith))
