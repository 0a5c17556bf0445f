-- ===== src/Util/Cmdline.antt =====
-- emu/util/cmdline.hpp and cmdline.cpp: the parsing of command line arguments.
pub mod Given
pub mod Written
use yanesemu.Prelude.{
  ℕ, zero, suc, Bool, true, false, not, ◌==◌, ◌&&◌, if◌then◌else◌, Option, none, some, List, [],
  ◌∷◌, ◌++◌, length, Text,
}

pub data ParamType : Type 0 where
  no_param optional must_have : ParamType

pub record Argument : Type 0 where
  pub short_opt : ℕ
  pub long_opt : Text
  pub desc : Text
  pub paramt : ParamType
  pub validator : Text → Bool

-- What `parse` prints while it goes on.
pub data Warning : Type 0 where
  not_valid must_have_param multiple_times : (arg : Text) → Warning
  not_valid_param : (arg param : Text) → Warning

-- A key that is not in a map reads as false or as an empty text. `warnings` is what has been printed.
pub record ArgResult : Type 0 where
  pub has : ℕ → Bool
  pub params : ℕ → Text
  pub items : List Text
  pub warnings : List Warning

-- The result once the first loop has run over the valid arguments.
abbrev pub initial : ArgResult
initial = record { has = λ c. false; params = λ c. []; items = []; warnings = [] }

-- `map[c] = v`
abbrev pub put : {A : Type 0} → ℕ → A → (ℕ → A) → ℕ → A
put c v map d = if d == c then v else map d

abbrev pub warn : Warning → ArgResult → ArgResult
warn w r = record r { warnings = r.warnings ++ (w ∷ []) }

-- A character of an argument, which ends with a 0; `past` is what stands behind that.
unfoldable pub char_at : (past : ℕ) → ℕ → Text → ℕ
char_at past zero [] = 0
char_at past (suc i) [] = past
char_at past zero (c ∷ s) = c
char_at past (suc i) (c ∷ s) = char_at past i s

-- `is_valid` for a character.
unfoldable pub find_arg : ℕ → List Argument → Option Argument
find_arg c [] = none
find_arg c (a ∷ args) = let rest = find_arg c args in if a.short_opt == c then some a else rest

-- The character by which an argument is looked up: of `--name` it is the first one of the name.
unfoldable pub option_char : (past : ℕ) → Text → ℕ
unfolding char_at
option_char past curr =
    if not (char_at past 1 curr == b'-') && length curr == 2
    then char_at past 1 curr
    else char_at past 2 curr

abbrev pub takes_none : ParamType → Bool
takes_none ParamType.no_param = true
takes_none _ = false

abbrev pub needs_one : ParamType → Bool
needs_one ParamType.must_have = true
needs_one _ = false

-- Whether an argument does not begin with a dash.
abbrev pub is_plain : Text → Bool
is_plain [] = true
is_plain (c ∷ s) = not (c == b'-')

-- `nextarg && nextarg[0] != '-'`
abbrev pub has_next : Option Text → Bool
has_next none = false
has_next (some next) = is_plain next

module _ (past : Text → ℕ) (valid_args : List Argument) where
  -- The collection of the parameter: whether the loop moves past it, and the result.
  unfoldable pub take_param : Argument → Text → Option Text → ArgResult → Bool × ArgResult
  take_param arg curr none r = (false, r)
  take_param arg curr (some next) r =
      if not (takes_none arg.paramt) && is_plain next
      then (if arg.validator next
          then (true, record r { params = put arg.short_opt next r.params })
          else (false, warn (Warning.not_valid_param curr next) r))
      else (false, r)

  unfoldable pub take_option : Argument → Text → Option Text → ArgResult → Bool × ArgResult
  unfolding take_param
  take_option arg curr next r =
      let found : ArgResult = record r { has = put arg.short_opt true r.has } in
      if needs_one arg.paramt && not (has_next next)
      then (false, warn (Warning.must_have_param curr) r)
      else if r.has arg.short_opt
      then (false, warn (Warning.multiple_times curr) r)
      else take_param arg curr next found

  -- A round of the loop.
  unfoldable pub take_arg : Text → Option Text → ArgResult → Bool × ArgResult
  unfolding option_char find_arg take_option
  take_arg curr next r =
      if is_plain curr
      then (false, record r { items = r.items ++ (curr ∷ []) })
      else elim (find_arg (option_char (past curr) curr) valid_args) [
        | none ↦ (false, warn (Warning.not_valid curr) r)
        | some arg ↦ take_option arg curr next r
      ]

  abbrev pub first : List Text → Option Text
  first [] = none
  first (t ∷ ts) = some t

  -- The loop; the flag tells that the next argument has been taken as a parameter.
  unfoldable pub parse_from : Bool → ArgResult → List Text → ArgResult
  unfolding take_arg
  parse_from taken r [] = r
  parse_from true r (curr ∷ rest) = parse_from false r rest
  parse_from false r (curr ∷ rest) =
      let (taken, s) = take_arg curr (first rest) r in parse_from taken s rest

  -- `argv` is given without the name of the program.
  unfoldable pub parse : List Text → ArgResult
  unfolding parse_from
  parse argv = parse_from false initial argv
