-- ===== src/Util/Settings/Checked.antt =====
-- emu/util/settings.cpp: the settings that `parse_conf` makes of a file of keys and values.
use yanesemu.Prelude.{
  ◌+◌, ◌≡◌, ◌∙◌, refl, ap, arith, Bool, true, false, not, ◌&&◌, ◌||◌, Option, none, some, List, [],
  ◌∷◌, ◌++◌, length, Text, if◌then◌else◌, if_true, if_false, same_text, Bool-cases, inl, inr,
}
use yanesemu.Util.File.{File}
use yanesemu.Util.Settings.{
  ValidSetting, Setting, Notice, find_key, parse_value, has_type, check_setting, check_settings,
  parse_conf,
}
use yanesemu.Util.Settings.Written.{conf_text, are_pairs, newest_first, read_pairs}

-- Whether a text is not a number too large for an `int`.
abbrev pub is_readable : Text → Bool
is_readable text = elim (parse_value text) [ none ↦ false | some value ↦ true ]

abbrev pub all_readable : List (Text × Text) → Bool
all_readable [] = true
all_readable (kv ∷ pairs) = is_readable kv.1 && all_readable pairs

-- The value of a setting whose key has this text: that of the text, if it has the type.
abbrev pub chosen : ValidSetting → Option Text → Setting
chosen setting none = setting.def
chosen setting (some text) = elim (parse_value text) [
  | none ↦ setting.def
  | some value ↦ if has_type value setting.setting_type then value else setting.def
]

abbrev pub is_key : Text → List ValidSetting → Bool
is_key key [] = false
is_key key (s ∷ settings) = same_text s.key key || is_key key settings

abbrev pub are_distinct : List ValidSetting → Bool
are_distinct [] = true
are_distinct (s ∷ settings) = not (is_key s.key settings) && are_distinct settings

-- Each of the settings has its value.
abbrev pub AreChosen : List ValidSetting → List (Text × Text) → List (Text × Setting) → Type 0
AreChosen [] kvmap smap = Unit {0}
AreChosen (s ∷ settings) kvmap smap =
    (find_key s.key smap ≡ some (chosen s (find_key s.key kvmap))) × AreChosen settings kvmap smap

both_true : (a b : Bool) → (a && b) ≡ true → (a ≡ true) × (b ≡ true)
both_true true b e = (refl, e)
both_true false b e = cc

newest_first-readable :
    (pairs kvmap : List (Text × Text))
    → all_readable pairs ≡ true
    → all_readable kvmap ≡ true
    → all_readable (newest_first pairs kvmap) ≡ true
newest_first-readable [] kvmap h hk = hk
newest_first-readable (kv ∷ pairs) kvmap h hk =
    newest_first-readable pairs (kv ∷ kvmap) (ground arith) (ground arith)

same_text_refl : (s : Text) → same_text s s ≡ true
same_text_refl [] = refl
same_text_refl (c ∷ s) = ground (arith, same_text_refl s)

text_chosen :
    (setting : ValidSetting) (text : Text)
    → is_readable text ≡ true
    → (n : List Notice) × (check_setting setting (some text) ≡ some (chosen setting (some text), n))
unfolding check_setting
text_chosen setting text h = of_value (parse_value text) h
  where
    of_value :
        (o : Option Setting)
        → elim o [ none ↦ false | some value ↦ true ] ≡ true
        → let checked : Option (Setting × List Notice) = elim o [
          | none ↦ none
          | some value ↦ some (
              if has_type value setting.setting_type
              then (value, [])
              else (setting.def, Notice.invalid_type setting.key ∷ []))
        ] in
          let wanted : Setting = elim o [
            | none ↦ setting.def
            | some value ↦ if has_type value setting.setting_type then value else setting.def
          ] in
          (n : List Notice) × (checked ≡ some (wanted, n))
    of_value none e = cc
    of_value (some value) e = elim (Bool-cases (has_type value setting.setting_type)) [
      | inl typed ↦ ([], rw typed refl)
      | inr untyped ↦ (Notice.invalid_type setting.key ∷ [], rw untyped refl)
    ]

check_chosen :
    (setting : ValidSetting) (key : Text) (kvmap : List (Text × Text))
    → all_readable kvmap ≡ true
    → (n : List Notice) × (check_setting setting (find_key key kvmap)
        ≡ some (chosen setting (find_key key kvmap), n))
unfolding check_setting
check_chosen setting key [] h = (Notice.not_found setting.key ∷ [], refl)
check_chosen setting key (kv ∷ kvmap) h =
    let (here, rest) = both_true (is_readable kv.1) (all_readable kvmap) h in
    elim (Bool-cases (same_text kv.0 key)) [
      | inl same ↦ rw same (text_chosen setting kv.1 here)
      | inr other ↦ rw other (check_chosen setting key kvmap rest)
    ]

check_all :
    (settings : List ValidSetting) (kvmap : List (Text × Text)) (smap : List (Text × Setting))
    → all_readable kvmap ≡ true
    → are_distinct settings ≡ true
    → (r : List (Text × Setting) × List Notice) × (check_settings settings kvmap smap ≡ some r)
      × AreChosen settings kvmap r.0
      × ((key : Text) → is_key key settings ≡ false → find_key key r.0 ≡ find_key key smap)
unfolding check_settings
check_all [] kvmap smap h distinct = ((smap, []), refl, tt, λ key other. refl)
check_all (s ∷ settings) kvmap smap h distinct =
    let value = chosen s (find_key s.key kvmap) in
    let (said, one) = check_chosen s s.key kvmap h in
    let (r, e, set, kept) = check_all settings kvmap ((s.key, value) ∷ smap) h (ground arith) in
    (
      (r.0, said ++ r.1),
      ap
            (λ (o : Option (Setting × List Notice)).
              let t : Option (List (Text × Setting) × List Notice) = elim o [
                | none ↦ none
                | some p ↦ elim (check_settings settings kvmap ((s.key, p.0) ∷ smap)) [
                  | none ↦ none
                  | some q ↦ some (q.0, p.1 ++ q.1)
                ]
              ] in
              t)
            one
          ∙ ap
              (λ (o : Option (List (Text × Setting) × List Notice)).
                let t : Option (List (Text × Setting) × List Notice) = elim o [
                  | none ↦ none
                  | some q ↦ some (q.0, said ++ q.1)
                ] in
                t)
              e,
      (kept s.key (ground arith) ∙ if_true (same_text s.key s.key) _ _ (same_text_refl s.key), set),
      λ key other. kept key (ground arith) ∙ if_false (same_text s.key key) _ _ (ground arith),
    )

-- A file of lines `key=value`, whose keys begin neither with a blank nor with a `#`, in which no key
-- or value is empty or holds a `=` or a newline, and no value is a number too large for an `int`:
-- `parse_conf` returns, and each of the valid settings, whose keys are different, then has the value
-- of its last line, if that has the type of the setting, and its default if not or if it has no line.
pub parse_conf-chosen :
    (f : File) (settings : List ValidSetting) (pairs : List (Text × Text))
    → f.input ≡ conf_text pairs
    → are_pairs pairs ≡ true
    → all_readable pairs ≡ true
    → are_distinct settings ≡ true
    → (r : List (Text × Setting) × List Notice) × (parse_conf f settings ≡ some r)
      × AreChosen settings (newest_first pairs []) r.0
unfolding parse_conf
parse_conf-chosen f settings pairs e ok readable distinct =
    let kvmap = newest_first pairs [] in
    let (r, checked, set, kept) =
      check_all settings kvmap [] (newest_first-readable pairs [] readable refl) distinct in
    (
      r,
      ap
            (λ (m : List (Text × Text) × List Notice).
              let t : Option (List (Text × Setting) × List Notice) =
                elim (check_settings settings m.0 []) [
                  | none ↦ none
                  | some q ↦ some (q.0, m.1 ++ q.1)
                ] in
              t)
            (read_pairs (length f.input + 1) pairs f [] ok e (omega (arith, ap length e)))
          ∙ ap
              (λ (o : Option (List (Text × Setting) × List Notice)).
                let t : Option (List (Text × Setting) × List Notice) = elim o [
                  | none ↦ none
                  | some q ↦ some (q.0, [] ++ q.1)
                ] in
                t)
              checked,
      set,
    )
