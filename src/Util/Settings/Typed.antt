-- ===== src/Util/Settings/Typed.antt =====
-- emu/util/settings.cpp: the settings that come of the values somebody writes into a file.
use yanesemu.Prelude.{
  ◌-◌, ◌^◌, ◌≡◌, ◌∙◌, refl, ap, arith, Bool, true, false, ◌&&◌, Option, none, some, List, [], ◌∷◌,
  Text, if◌then◌else◌, same_text, Bool-cases, inl, inr,
}
use yanesemu.Util.File.{File}
use yanesemu.Util.Settings.{
  ValidSetting, Setting, SettingType, Notice, find_key, has_type, parse_conf,
}
use yanesemu.Util.Settings.Written.{conf_text, are_pairs, newest_first}
use yanesemu.Util.Settings.Checked.{
  is_readable, all_readable, chosen, are_distinct, AreChosen, parse_conf-chosen,
}
use yanesemu.Util.Settings.Values.{
  Value, text_of, decimal, is_value, setting_of, parse_value-text_of,
}

-- The setting that a value is meant as, where it has the type of the setting.
abbrev pub wanted : SettingType → Setting → Value → Setting
wanted SettingType.bool_type def (Value.truth b) = Setting.bool_value b
wanted SettingType.number_type def (Value.number true d ds) =
    Setting.number_value (2 ^ 32 - decimal d ds)
wanted SettingType.number_type def (Value.number false d ds) = Setting.number_value (decimal d ds)
wanted SettingType.string_type def (Value.words s) = Setting.string_value s
wanted _ def _ = def

-- The lines as texts.
abbrev pub as_texts : List (Text × Value) → List (Text × Text)
as_texts [] = []
as_texts ((key, value) ∷ lines) = (key, text_of value) ∷ as_texts lines

abbrev pub are_values : List (Text × Value) → Bool
are_values [] = true
are_values (kv ∷ lines) = is_value kv.1 && are_values lines

-- The first of two, if there is one.
abbrev pub first_of : Option Value → Option Value → Option Value
first_of none o = o
first_of (some value) o = some value

-- The value of the last line of a key.
abbrev pub last_value : Text → List (Text × Value) → Option Value
last_value key [] = none
last_value key (kv ∷ lines) =
    first_of (last_value key lines) (if same_text kv.0 key then some kv.1 else none)

abbrev pub wanted_last : ValidSetting → Option Value → Setting
wanted_last s none = s.def
wanted_last s (some value) = wanted s.setting_type s.def value

-- Each of the settings is what its last line asks for.
abbrev pub AreSet : List ValidSetting → List (Text × Value) → List (Text × Setting) → Type 0
AreSet [] lines smap = Unit {0}
AreSet (s ∷ settings) lines smap =
    (find_key s.key smap ≡ some (wanted_last s (last_value s.key lines)))
    × AreSet settings lines smap

last_value-is_value :
    (key : Text) (lines : List (Text × Value)) (v : Value)
    → are_values lines ≡ true
    → last_value key lines ≡ some v
    → is_value v ≡ true
last_value-is_value key [] v h e = cc
last_value-is_value key (kv ∷ lines) v h e =
    later (last_value key lines) (λ w. last_value-is_value key lines w (ground arith)) e
  where
    later :
        (o : Option Value)
        → ((w : Value) → o ≡ some w → is_value w ≡ true)
        → first_of o (if same_text kv.0 key then some kv.1 else none) ≡ some v
        → is_value v ≡ true
    later none each same = ground arith
    later (some w) each same = each v same

-- The text that is found of a key is that of its last line.
find_key-newest_first :
    (key : Text) (lines : List (Text × Value)) (kvmap : List (Text × Text))
    → find_key key (newest_first (as_texts lines) kvmap)
      ≡ elim (last_value key lines) [ some v ↦ some (text_of v) | none ↦ find_key key kvmap ]
find_key-newest_first key [] kvmap = refl
find_key-newest_first key ((k, v) ∷ lines) kvmap =
    find_key-newest_first key lines ((k, text_of v) ∷ kvmap) ∙ over (last_value key lines)
  where
    over :
        (o : Option Value)
        → elim o [ some w ↦ some (text_of w) | none ↦ find_key key ((k, text_of v) ∷ kvmap) ]
          ≡ elim (first_of o (if same_text k key then some v else none)) [
            | some w ↦ some (text_of w)
            | none ↦ find_key key kvmap
          ]
    over (some w) = refl
    over none = elim (Bool-cases (same_text k key)) [ inl e ↦ rw e refl | inr e ↦ rw e refl ]

as_texts-readable :
    (lines : List (Text × Value)) → are_values lines ≡ true → all_readable (as_texts lines) ≡ true
as_texts-readable [] h = refl
as_texts-readable ((k, v) ∷ lines) h =
    rw (parse_value-text_of v (ground arith), is_readable) (as_texts-readable lines (ground arith))

-- What is chosen for the text of a value is what the value asks for.
chosen-text_of :
    (s : ValidSetting) (v : Value)
    → is_value v ≡ true
    → chosen s (some (text_of v)) ≡ wanted s.setting_type s.def v
unfolding has_type
chosen-text_of s v h = rw (parse_value-text_of v h, chosen) (by_type s.setting_type v)
  where
    by_type :
        (t : SettingType) (w : Value)
        → (if has_type (setting_of w) t then setting_of w else s.def) ≡ wanted t s.def w
    by_type SettingType.bool_type (Value.truth b) = refl
    by_type SettingType.bool_type (Value.number true d ds) = refl
    by_type SettingType.bool_type (Value.number false d ds) = refl
    by_type SettingType.bool_type (Value.words t) = refl
    by_type SettingType.number_type (Value.truth b) = refl
    by_type SettingType.number_type (Value.number true d ds) = refl
    by_type SettingType.number_type (Value.number false d ds) = refl
    by_type SettingType.number_type (Value.words t) = refl
    by_type SettingType.string_type (Value.truth b) = refl
    by_type SettingType.string_type (Value.number true d ds) = refl
    by_type SettingType.string_type (Value.number false d ds) = refl
    by_type SettingType.string_type (Value.words t) = refl

chosen-last :
    (s : ValidSetting) (lines : List (Text × Value))
    → are_values lines ≡ true
    → chosen s (find_key s.key (newest_first (as_texts lines) []))
      ≡ wanted_last s (last_value s.key lines)
chosen-last s lines h =
    ap (chosen s) (find_key-newest_first s.key lines [])
    ∙ of_last (last_value s.key lines) (λ v. last_value-is_value s.key lines v h)
  where
    of_last :
        (o : Option Value)
        → ((v : Value) → o ≡ some v → is_value v ≡ true)
        → chosen s (elim o [ some v ↦ some (text_of v) | none ↦ none ]) ≡ wanted_last s o
    of_last none each = refl
    of_last (some v) each = chosen-text_of s v (each v refl)

AreChosen-AreSet :
    (settings : List ValidSetting) (lines : List (Text × Value)) (smap : List (Text × Setting))
    → are_values lines ≡ true
    → AreChosen settings (newest_first (as_texts lines) []) smap
    → AreSet settings lines smap
AreChosen-AreSet [] lines smap h all = tt
AreChosen-AreSet (s ∷ settings) lines smap h (one, all) =
    (one ∙ ap some (chosen-last s lines h), AreChosen-AreSet settings lines smap h all)

-- A file of lines `key=value`, whose keys begin neither with a blank nor with a `#`, in which no key
-- or value is empty or holds a `=` or a newline, and the values are written as truth values, as
-- numbers below 2^31 in decimal digits of which the first is not 0, with or without a minus sign, or
-- as words that begin neither with a digit nor with a sign: `parse_conf` returns. Each of the valid
-- settings, whose keys are different, is then the truth value, the number (as the 32-bit pattern of an
-- `int`) or the words of the key's last line, if these are of the type of the setting, and its
-- default if not or if there is no line.
pub parse_conf-written :
    (f : File) (settings : List ValidSetting) (lines : List (Text × Value))
    → f.input ≡ conf_text (as_texts lines)
    → are_pairs (as_texts lines) ≡ true
    → are_values lines ≡ true
    → are_distinct settings ≡ true
    → (r : List (Text × Setting) × List Notice) × (parse_conf f settings ≡ some r)
      × AreSet settings lines r.0
parse_conf-written f settings lines e ok values distinct =
    let (r, returned, all) =
      parse_conf-chosen f settings (as_texts lines) e ok (as_texts-readable lines values)
        distinct in
    (r, returned, AreChosen-AreSet settings lines r.0 values all)
