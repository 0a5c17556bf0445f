-- ===== src/Util/Settings/Values.antt =====
-- emu/util/settings.cpp: `parse_value` on the values somebody writes into a file.
use yanesemu.Prelude.{
  ℕ, ◌+◌, ◌-◌, ◌*◌, ◌^◌, ◌≡◌, ◌∙◌, refl, ap, arith, Bool, true, false, not, ltb, ◌==◌, ◌&&◌, ◌||◌,
  Option, none, some, List, [], ◌∷◌, map, Text, codes, if◌then◌else◌, if_true, if_false, same_text,
  all_of,
}
use yanesemu.Util.Settings.{
  Setting, is_digit, is_sign, is_number, is_int, scan_digits, stoi, parse_value,
}

-- What somebody writes: a truth value, a number with or without a minus sign by its decimal digits,
-- or words.
pub data Value : Type 0 where
  truth : (b : Bool) → Value
  number : (negative : Bool) (d : ℕ) (ds : List ℕ) → Value
  words : (s : Text) → Value

abbrev pub digit_char : ℕ → ℕ
digit_char d = b'0' + d

abbrev pub text_of : Value → Text
text_of (Value.truth true) = codes "true"
text_of (Value.truth false) = codes "false"
text_of (Value.number true d ds) = b'-' ∷ map digit_char (d ∷ ds)
text_of (Value.number false d ds) = map digit_char (d ∷ ds)
text_of (Value.words s) = s

abbrev pub decimal : ℕ → List ℕ → ℕ
decimal value [] = value
decimal value (d ∷ ds) = decimal (value * 10 + d) ds

abbrev pub are_decimal : List ℕ → Bool
are_decimal [] = true
are_decimal (d ∷ ds) = ltb d 10 && are_decimal ds

-- A number below 2^31 whose first digit is not 0, and words that begin neither with a digit nor with a
-- sign and are no truth value.
abbrev pub is_value : Value → Bool
is_value (Value.truth b) = true
is_value (Value.number negative d ds) =
    not (d == 0) && ltb d 10 && are_decimal ds && ltb (decimal d ds) (2 ^ 31)
is_value (Value.words []) = false
is_value (Value.words (c ∷ s)) =
    not (is_digit c || is_sign c)
    && not (same_text (c ∷ s) (codes "true"))
    && not (same_text (c ∷ s) (codes "false"))

digits_all : (ds : List ℕ) → are_decimal ds ≡ true → all_of is_digit (map digit_char ds) ≡ true
digits_all [] h = refl
digits_all (d ∷ ds) h = ground (arith, digits_all ds)

scan_digits-chars :
    (value : ℕ) (ds : List ℕ)
    → are_decimal ds ≡ true
    → scan_digits value (map digit_char ds) ≡ decimal value ds
unfolding scan_digits
scan_digits-chars value [] h = refl
scan_digits-chars value (d ∷ ds) h =
    if_true (is_digit (digit_char d)) _ _ (ground arith)
    ∙ ap (λ (v : ℕ). scan_digits v (map digit_char ds)) (ground arith)
    ∙ scan_digits-chars (value * 10 + d) ds (ground arith)

-- The setting of a value, whatever its type.
abbrev pub setting_of : Value → Setting
setting_of (Value.truth b) = Setting.bool_value b
setting_of (Value.number true d ds) = Setting.number_value (2 ^ 32 - decimal d ds)
setting_of (Value.number false d ds) = Setting.number_value (decimal d ds)
setting_of (Value.words s) = Setting.string_value s

decimal-positive :
    (value : ℕ) (ds : List ℕ) → (value == 0) ≡ false → (decimal value ds == 0) ≡ false
decimal-positive value [] h = h
decimal-positive value (d ∷ ds) h = decimal-positive (value * 10 + d) ds (ground arith)

scan_digits-number :
    (d : ℕ) (ds : List ℕ)
    → ltb d 10 ≡ true
    → are_decimal ds ≡ true
    → scan_digits 0 (map digit_char (d ∷ ds)) ≡ decimal d ds
scan_digits-number d ds small h =
    scan_digits-chars 0 (d ∷ ds) (ground arith) ∙ ap (λ (v : ℕ). decimal v ds) (ground arith)

is_number-chars :
    (d : ℕ) (ds : List ℕ)
    → (d == 0) ≡ false
    → ltb d 10 ≡ true
    → are_decimal ds ≡ true
    → is_number (map digit_char (d ∷ ds)) ≡ true
unfolding is_number
is_number-chars d ds positive small h =
    if_false (digit_char d == b'0') _ _ (ground arith) ∙ digits_all (d ∷ ds) (ground arith)

-- A text that is read as a number.
as_number :
    (s : Text) (n : ℕ)
    → same_text s (codes "true") ≡ false
    → same_text s (codes "false") ≡ false
    → is_int s ≡ true
    → stoi s ≡ some n
    → parse_value s ≡ some (Setting.number_value n)
unfolding parse_value
as_number s n no_true no_false int read = rw (no_true, no_false, int, read) refl

stoi-negative :
    (d : ℕ) (ds : List ℕ)
    → is_value (Value.number true d ds) ≡ true
    → stoi (text_of (Value.number true d ds)) ≡ some (2 ^ 32 - decimal d ds)
unfolding stoi
stoi-negative d ds h =
    let positive = decimal-positive d ds (ground arith) in
    rw (scan_digits-number d ds (ground arith) (ground arith), positive) (ground arith)

stoi-positive :
    (d : ℕ) (ds : List ℕ)
    → is_value (Value.number false d ds) ≡ true
    → stoi (text_of (Value.number false d ds)) ≡ some (decimal d ds)
unfolding stoi
stoi-positive d ds h =
    if_false (digit_char d == b'-') _ _ (ground arith)
    ∙ ap (λ (n : ℕ). let r : Option ℕ = if ltb n (2 ^ 31) then some n else none in r)
        (if_false (digit_char d == b'+') _ _ (ground arith)
          ∙ scan_digits-number d ds (ground arith) (ground arith))
    ∙ if_true (ltb (decimal d ds) (2 ^ 31)) _ _ (ground arith)

both_false : (a b : Bool) → a ≡ false → (a && b) ≡ false
both_false a b e = rw e refl

as_words : (c : ℕ) (s : Text) → is_value (Value.words (c ∷ s)) ≡ true → is_int (c ∷ s) ≡ false
unfolding is_int is_number
as_words c s h =
    if_false (is_sign c) _ _ (ground arith)
    ∙ if_false (c == b'0') _ _ (ground arith)
    ∙ both_false (is_digit c) (all_of is_digit s) (ground arith)

pub parse_value-text_of :
    (v : Value) → is_value v ≡ true → parse_value (text_of v) ≡ some (setting_of v)
unfolding parse_value is_int
parse_value-text_of (Value.truth true) h = refl
parse_value-text_of (Value.truth false) h = refl
parse_value-text_of (Value.number true d ds) h =
    as_number (text_of (Value.number true d ds)) (2 ^ 32 - decimal d ds) refl refl
      (is_number-chars d ds (ground arith) (ground arith) (ground arith)) (stoi-negative d ds h)
parse_value-text_of (Value.number false d ds) h =
    as_number (text_of (Value.number false d ds)) (decimal d ds) (ground arith) (ground arith)
      (if_false (is_sign (digit_char d)) _ _ (ground arith)
        ∙ is_number-chars d ds (ground arith) (ground arith) (ground arith))
      (stoi-positive d ds h)
parse_value-text_of (Value.words []) h = cc
parse_value-text_of (Value.words (c ∷ s)) h =
    if_false (same_text (c ∷ s) (codes "true")) _ _ (ground arith)
    ∙ if_false (same_text (c ∷ s) (codes "false")) _ _ (ground arith)
    ∙ if_false (is_int (c ∷ s)) _ _ (as_words c s h)
