-- ===== src/Util/Cmdline/Written.antt =====
-- emu/util/cmdline.cpp: `parse` on a command line that is written from its result.
use yanesemu.Prelude.{
  if_true, sym, ℕ, ◌≡◌, ◌∙◌, refl, ap, arith, Bool, true, false, Bool-cases, inl, inr, ◌==◌, Option,
  none, some, List, [], ◌∷◌, ◌++◌, Text,
}
use yanesemu.Util.Cmdline.Given.{
  Given, tokens, written, is_given, param_of, are_distinct, fits, all_plain, AreValid, with_param,
  add_all, with_param-has, add_all-has, add_all-params, add_all-items, given_once,
}
use mathlib.Core.Bool.{or-false}
use mathlib.Core.List.{append-nil, append_assoc}
use yanesemu.Util.Cmdline.{
  Argument, ArgResult, ParamType, Warning, warn, initial, find_arg, is_plain, takes_none, needs_one,
  option_char, char_at, take_param, take_option, take_arg, first, parse_from, parse,
}

needs_one-takes_none : (t : ParamType) → takes_none t ≡ true → needs_one t ≡ false
needs_one-takes_none ParamType.no_param e = refl
needs_one-takes_none ParamType.optional e = refl
needs_one-takes_none ParamType.must_have e = cc

module _ (past : Text → ℕ) (valid_args : List Argument) where
  -- The round of an option.
  option_taken :
      (arg : Argument) (next : Option Text) (r : ArgResult)
      → find_arg arg.short_opt valid_args ≡ some arg
      → (arg.short_opt == b'-') ≡ false
      → take_arg past valid_args (b'-' ∷ arg.short_opt ∷ []) next r
        ≡ take_option past valid_args arg (b'-' ∷ arg.short_opt ∷ []) next r
  unfolding take_arg option_char char_at
  option_taken arg next r found plain =
      let curr : Text = b'-' ∷ arg.short_opt ∷ [] in
      let looked_up : option_char (past curr) curr ≡ arg.short_opt = rw plain refl in
      ap
        (λ (o : Option Argument).
          let q : Bool × ArgResult = elim o [
            | none ↦ (false, warn (Warning.not_valid curr) r)
            | some a ↦ take_option past valid_args a curr next r
          ] in
          q)
        (ap (λ c. find_arg c valid_args) looked_up ∙ found)

  without_param :
      (arg : Argument) (curr : Text) (next : Option Text) (r : ArgResult)
      → takes_none arg.paramt ≡ true
      → r.has arg.short_opt ≡ false
      → take_option past valid_args arg curr next r ≡ (false, with_param arg none r)
  unfolding take_option take_param
  without_param arg curr none r no_param unset =
      rw (needs_one-takes_none arg.paramt no_param, unset) refl
  without_param arg curr (some t) r no_param unset =
      rw (needs_one-takes_none arg.paramt no_param, unset, no_param) refl

  with_next :
      (arg : Argument) (curr p : Text) (r : ArgResult)
      → fits arg (some p) ≡ true
      → r.has arg.short_opt ≡ false
      → take_option past valid_args arg curr (some p) r ≡ (true, with_param arg (some p) r)
  unfolding take_option take_param
  with_next arg curr p r ok unset =
      let takes : takes_none arg.paramt ≡ false = ground arith in
      let plain : is_plain p ≡ true = ground arith in
      let valid : arg.validator p ≡ true = ground arith in
      elim (Bool-cases (needs_one arg.paramt)) [
        | inl e ↦ rw (e, plain, unset, takes, valid) refl
        | inr e ↦ rw (e, plain, unset, takes, valid) refl
      ]

  take_given :
      (arg : Argument) (param : Option Text) (rest : List Text) (r : ArgResult)
      → find_arg arg.short_opt valid_args ≡ some arg
      → (arg.short_opt == b'-') ≡ false
      → fits arg param ≡ true
      → r.has arg.short_opt ≡ false
      → parse_from past valid_args false r (tokens (record { arg = arg; param = param }) ++ rest)
        ≡ parse_from past valid_args false (with_param arg param r) rest
  unfolding parse_from
  take_given arg none rest r found plain ok unset =
      let next = first past valid_args rest in
      ap (λ (q : Bool × ArgResult). parse_from past valid_args q.0 q.1 rest)
        (option_taken arg next r found plain
          ∙ without_param arg (b'-' ∷ arg.short_opt ∷ []) next r ok unset)
  take_given arg (some p) rest r found plain ok unset =
      ap (λ (q : Bool × ArgResult). parse_from past valid_args q.0 q.1 (p ∷ rest))
        (option_taken arg (some p) r found plain
          ∙ with_next arg (b'-' ∷ arg.short_opt ∷ []) p r ok unset)

  -- The items behind the options.
  take_items :
      (items : List Text) (r : ArgResult)
      → all_plain items ≡ true
      → parse_from past valid_args false r items ≡ record r { items = r.items ++ items }
  unfolding parse_from take_arg
  take_items [] r plain = ap (λ (l : List Text). record r { items = l }) (sym (append-nil r.items))
  take_items (t ∷ items) r plain =
      let next = first past valid_args items in
      let added : ArgResult = record r { items = r.items ++ (t ∷ []) } in
      let item : take_arg past valid_args t next r ≡ (false, added) =
        if_true (is_plain t) _ _ (ground arith) in
      ap (λ (q : Bool × ArgResult). parse_from past valid_args q.0 q.1 items) item
      ∙ take_items items added (ground arith)
      ∙ ap (λ (l : List Text). record r { items = l }) (append_assoc r.items (t ∷ []) items)

module _ (past : Text → ℕ) (valid_args : List Argument) where
  take_all :
      (gs : List Given) (rest : List Text) (r : ArgResult)
      → AreValid valid_args gs
      → are_distinct gs ≡ true
      → ((c : ℕ) → is_given c gs ≡ true → r.has c ≡ false)
      → parse_from past valid_args false r (written gs ++ rest)
        ≡ parse_from past valid_args false (add_all gs r) rest
  take_all [] rest r valid distinct unset = refl
  take_all (g ∷ gs) rest r (found, plain, ok, valid) distinct unset =
      let own = g.arg.short_opt in
      let once : is_given own gs ≡ false = ground arith in
      ap (parse_from past valid_args false r) (append_assoc (tokens g) (written gs) rest)
      ∙ take_given past valid_args g.arg g.param (written gs ++ rest) r found plain ok
          (unset own (ground arith))
      ∙ take_all gs rest (with_param g.arg g.param r) valid (ground arith) (λ c given.
        let other = given_once c own gs once given in
        with_param-has g.arg g.param r c ∙ rw (other, unset c (ground arith)) refl)

  -- A command line with options of the valid arguments, none of them twice, each in its short form
  -- and followed by its parameter exactly if it takes one, and with items behind them that do not
  -- begin with a dash: `parse` finds exactly these options, parameters and items, and warns of
  -- nothing.
  pub parse-written :
      (gs : List Given) (items : List Text)
      → AreValid valid_args gs
      → are_distinct gs ≡ true
      → all_plain items ≡ true
      → let r = parse past valid_args (written gs ++ items) in
        ((c : ℕ) → (r.has c ≡ is_given c gs) × (r.params c ≡ param_of c gs))
        × (r.items ≡ items)
        × (r.warnings ≡ [])
  unfolding parse
  parse-written gs items valid distinct plain =
      let e =
        take_all gs items initial valid distinct (λ c given. refl)
        ∙ take_items past valid_args items (add_all gs initial) plain in
      (
        λ c. (
          ap (λ (t : ArgResult). t.has c) e ∙ add_all-has gs initial c ∙ or-false (is_given c gs),
          ap (λ (t : ArgResult). t.params c) e ∙ add_all-params gs initial c distinct refl,
        ),
        ap (λ (t : ArgResult). t.items) e
            ∙ ap (λ (l : List Text). l ++ items) (add_all-items gs initial).0,
        ap (λ (t : ArgResult). t.warnings) e ∙ (add_all-items gs initial).1,
      )
