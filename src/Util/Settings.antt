-- ===== src/Util/Settings.antt =====
-- emu/util/settings.hpp and settings.cpp: a settings file of lines `key=value`.
pub mod Written
pub mod Checked
pub mod Values
pub mod Typed
use yanesemu.Prelude.{
  ℕ, zero, suc, ◌+◌, ◌-◌, ◌*◌, ◌^◌, Bool, true, false, not, ltb, leb, ◌==◌, ◌&&◌, ◌||◌,
  if◌then◌else◌, Option, none, some, List, [], ◌∷◌, ◌++◌, length, Text, codes, same_text, all_of,
}
use yanesemu.Util.File.{File, is_empty, getline}
use yanesemu.Util.Strings.{strsplit, hex_digit}

-- An `int` is its 32-bit pattern.
pub data Setting : Type 0 where
  bool_value : (b : Bool) → Setting
  string_value : (s : Text) → Setting
  number_value : (n : ℕ) → Setting

pub data SettingType : Type 0 where
  bool_type string_type number_type : SettingType

pub record ValidSetting : Type 0 where
  pub key : Text
  pub setting_type : SettingType
  pub def : Setting

-- What `parse_conf` prints while it goes on.
pub data Notice : Type 0 where
  not_a_pair not_found invalid_type : (text : Text) → Notice

-- `value.index() == setting.type`
unfoldable pub has_type : Setting → SettingType → Bool
has_type (Setting.bool_value b) SettingType.bool_type = true
has_type (Setting.string_value s) SettingType.string_type = true
has_type (Setting.number_value n) SettingType.number_type = true
has_type _ _ = false

abbrev pub is_digit : ℕ → Bool
is_digit c = leb b'0' c && leb c b'9'

abbrev pub is_octal : ℕ → Bool
is_octal c = leb b'0' c && leb c b'7'

abbrev pub is_hex : ℕ → Bool
is_hex c = elim (hex_digit c) [ none ↦ false | some d ↦ true ]

abbrev pub is_sign : ℕ → Bool
is_sign c = c == b'+' || c == b'-'

-- Whether `strtol` in base 0 takes all of a text without a sign: in base 16 behind `0x`, in base 8
-- behind `0`, and in base 10 else.
unfoldable pub behind_zero : Text → Bool
behind_zero [] = true
behind_zero (c ∷ s) =
    if (c == b'x' || c == b'X') && not (is_empty s)
    then all_of is_hex s
    else all_of is_octal (c ∷ s)

unfoldable pub is_number : Text → Bool
unfolding behind_zero
is_number [] = false
is_number (c ∷ s) = if c == b'0' then behind_zero s else all_of is_digit (c ∷ s)

-- A text from a file, which holds no character 0.
unfoldable pub is_int : Text → Bool
unfolding is_number
is_int [] = false
is_int (c ∷ s) = if is_sign c then is_number s else is_number (c ∷ s)

-- The digits that `stoi` takes, in base 10.
unfoldable pub scan_digits : ℕ → Text → ℕ
scan_digits value [] = value
scan_digits value (c ∷ s) =
    let rest = scan_digits (value * 10 + (c - b'0')) s in if is_digit c then rest else value

-- `stoi`, where it does not throw `out_of_range`.
unfoldable pub stoi : Text → Option ℕ
unfolding scan_digits
stoi [] = none
stoi (c ∷ s) =
    if c == b'-'
    then (let n = scan_digits 0 s in
        if n == 0 then some 0 else if leb n (2 ^ 31) then some (2 ^ 32 - n) else none)
    else (let n = if c == b'+' then scan_digits 0 s else scan_digits 0 (c ∷ s) in
        if ltb n (2 ^ 31) then some n else none)

-- None where `stoi` throws.
unfoldable pub parse_value : Text → Option Setting
unfolding is_int stoi
parse_value s =
    if same_text s (codes "true")
    then some (Setting.bool_value true)
    else if same_text s (codes "false")
    then some (Setting.bool_value false)
    else if is_int s
    then elim (stoi s) [ none ↦ none | some n ↦ some (Setting.number_value n) ]
    else some (Setting.string_value s)

-- A map by its list of keys and values, the newest one first.
abbrev pub find_key {ℓ} : {A : Type ℓ} → Text → List (Text × A) → Option A
find_key key [] = none
find_key key (kv ∷ map) = if same_text kv.0 key then some kv.1 else find_key key map

-- What a line that has been split stores.
unfoldable pub store_pair : Text → List Text → List (Text × Text) → List (Text × Text) × List Notice
store_pair line (key ∷ value ∷ []) kvmap = ((key, value) ∷ kvmap, [])
store_pair line _ kvmap = (kvmap, Notice.not_a_pair line ∷ [])

abbrev pub is_comment : Text → Bool
is_comment [] = true
is_comment (c ∷ s) = c == b'#'

unfoldable pub read_line : Text → List (Text × Text) → List (Text × Text) × List Notice
unfolding strsplit store_pair
read_line line kvmap =
    if is_comment line then (kvmap, []) else store_pair line (strsplit line b'=') kvmap

-- The loop over the lines, with fuel. The last line is left out if no newline ends it.
unfoldable pub read_lines : ℕ → File → List (Text × Text) → List (Text × Text) × List Notice
unfolding getline read_line
read_lines zero f kvmap = (kvmap, [])
read_lines (suc fuel) f kvmap =
    let (more, line, g) = getline 10 f in
    let (stored, said) = read_line line kvmap in
    let (map, notices) = read_lines fuel g stored in
    if more then (map, said ++ notices) else (kvmap, [])

-- The value of a valid setting and what is printed; none where an exception is thrown.
unfoldable pub check_setting : ValidSetting → Option Text → Option (Setting × List Notice)
unfolding parse_value has_type
check_setting setting none = some (setting.def, Notice.not_found setting.key ∷ [])
check_setting setting (some text) = elim (parse_value text) [
  | none ↦ none
  | some value ↦ some (
      if has_type value setting.setting_type
      then (value, [])
      else (setting.def, Notice.invalid_type setting.key ∷ []))
]

unfoldable pub check_settings :
    List ValidSetting
    → List (Text × Text)
    → List (Text × Setting)
    → Option (List (Text × Setting) × List Notice)
unfolding check_setting
check_settings [] kvmap smap = some (smap, [])
check_settings (setting ∷ settings) kvmap smap =
    elim (check_setting setting (find_key setting.key kvmap)) [
      | none ↦ none
      | some r ↦ elim (check_settings settings kvmap ((setting.key, r.0) ∷ smap)) [
        | none ↦ none
        | some q ↦ some (q.0, r.1 ++ q.1)
      ]
    ]

unfoldable pub parse_conf : File → List ValidSetting → Option (List (Text × Setting) × List Notice)
unfolding read_lines check_settings
parse_conf f valid_settings =
    let (kvmap, said) = read_lines (length f.input + 1) f [] in
    elim (check_settings valid_settings kvmap []) [ none ↦ none | some r ↦ some (r.0, said ++ r.1) ]
