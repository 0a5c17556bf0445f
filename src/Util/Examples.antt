-- ===== src/Util/Examples.antt =====
-- The theorems on emu/util at concrete values.
use yanesemu.Prelude.{ℕ, ◌≡◌, refl, true, false, none, some, List, [], ◌∷◌, Text, codes}
use yanesemu.Util.Cmdline.{Argument, ParamType, find_arg, parse}
use yanesemu.Util.Cmdline.Given.{Given, is_given, param_of}
use yanesemu.Util.Cmdline.Written.{parse-written}
use yanesemu.Util.File.{File, is_space}
use yanesemu.Util.Settings.{Setting, SettingType, ValidSetting, Notice, parse_conf}
use yanesemu.Util.Settings.Values.{Value}
use yanesemu.Util.Settings.Typed.{AreSet, parse_conf-written}
use yanesemu.Util.Strings.{strsplit, strsplit-terminate, strconv, strconv-digits}

-- An empty word stands between two blanks.
strsplit-terminate_example : strsplit (codes "x  80") b' ' ≡ codes "x" ∷ [] ∷ codes "80" ∷ []
strsplit-terminate_example = strsplit-terminate b' ' (codes "x" ∷ [] ∷ []) (codes "80") refl refl

strconv-digits_example : strconv 16 (codes "20A7") ≡ some 0x20a7
strconv-digits_example = strconv-digits 16 2 (0 ∷ 10 ∷ 7 ∷ []) refl

abbrev log_file : Argument
log_file = record {
  short_opt = b'f';
  long_opt = codes "log-file";
  desc = [];
  paramt = ParamType.must_have;
  validator = λ t. true;
}

abbrev break : Argument
break = record {
  short_opt = b'b';
  long_opt = codes "break";
  desc = [];
  paramt = ParamType.no_param;
  validator = λ t. true;
}

abbrev options : List Given
options =
    (record { arg = log_file; param = some (codes "out.txt") })
    ∷ (record { arg = break; param = none })
    ∷ []

parse-written_example :
    let argv = codes "-f" ∷ codes "out.txt" ∷ codes "-b" ∷ codes "game.nes" ∷ [] in
    let r = parse (λ t. 0) (break ∷ log_file ∷ []) argv in
    ((c : ℕ) → (r.has c ≡ is_given c options) × (r.params c ≡ param_of c options))
    × (r.items ≡ codes "game.nes" ∷ [])
    × (r.warnings ≡ [])
unfolding find_arg
parse-written_example =
    parse-written (λ t. 0) (break ∷ log_file ∷ []) options (codes "game.nes" ∷ [])
      (refl, refl, refl, (refl, refl, refl, tt)) refl refl

abbrev foo : ValidSetting
foo = record {
  key = codes "foo";
  setting_type = SettingType.number_type;
  def = Setting.number_value 0;
}

abbrev baz : ValidSetting
baz = record {
  key = codes "baz";
  setting_type = SettingType.bool_type;
  def = Setting.bool_value true;
}

abbrev lines : List (Text × Value)
lines =
    (codes "foo", Value.number false 1 (2 ∷ []))
    ∷ (codes "baz", Value.words (codes "x"))
    ∷ (codes "foo", Value.number true 1 [])
    ∷ []

abbrev conf : File
conf = record { is_open = true; filename = codes "conf"; input = codes "foo=12\nbaz=x\nfoo=-1\n" }

-- The last line of a key counts, and words are no truth value.
parse_conf-written_example :
    (r : List (Text × Setting) × List Notice) × (parse_conf conf (foo ∷ baz ∷ []) ≡ some r)
    × AreSet (foo ∷ baz ∷ []) lines r.0
unfolding is_space
parse_conf-written_example = parse_conf-written conf (foo ∷ baz ∷ []) lines refl refl refl refl
