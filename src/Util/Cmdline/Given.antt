-- ===== src/Util/Cmdline/Given.antt =====
-- emu/util/cmdline.cpp: the options of a command line, and what they leave in the result of `parse`.
use yanesemu.Prelude.{
  if_true, if_false, sym, ℕ, ◌≡◌, ◌∙◌, refl, ap, arith, Bool, true, false, not, Bool-cases, inl,
  inr, ◌==◌, ◌&&◌, ◌||◌, if◌then◌else◌, Option, none, some, List, [], ◌∷◌, ◌++◌, Text,
}
use yanesemu.Util.Cmdline.{Argument, ArgResult, put, find_arg, is_plain, takes_none}

-- An option on the command line, with its parameter.
pub record Given : Type 0 where
  pub arg : Argument
  pub param : Option Text

abbrev pub tokens : Given → List Text
tokens g = (b'-' ∷ g.arg.short_opt ∷ []) ∷ elim g.param [ none ↦ [] | some p ↦ p ∷ [] ]

abbrev pub written : List Given → List Text
written [] = []
written (g ∷ gs) = tokens g ++ written gs

-- Whether an option is among those that are given.
abbrev pub is_given : ℕ → List Given → Bool
is_given c [] = false
is_given c (g ∷ gs) = c == g.arg.short_opt || is_given c gs

-- The parameter of an option, or an empty text.
abbrev pub param_of : ℕ → List Given → Text
param_of c [] = []
param_of c (g ∷ gs) =
    if c == g.arg.short_opt then elim g.param [ none ↦ [] | some p ↦ p ] else param_of c gs

-- No option is given twice.
abbrev pub are_distinct : List Given → Bool
are_distinct [] = true
are_distinct (g ∷ gs) = not (is_given g.arg.short_opt gs) && are_distinct gs

-- An option has a parameter exactly if it takes one, and the parameter is a plain one that is valid.
abbrev pub fits : Argument → Option Text → Bool
fits arg none = takes_none arg.paramt
fits arg (some p) = not (takes_none arg.paramt) && is_plain p && arg.validator p

abbrev pub all_plain : List Text → Bool
all_plain [] = true
all_plain (t ∷ ts) = is_plain t && all_plain ts

-- Each option is one of the valid arguments, and is not a dash itself.
abbrev pub AreValid : List Argument → List Given → Type 0
AreValid valid_args [] = Unit {0}
AreValid valid_args (g ∷ gs) =
    (find_arg g.arg.short_opt valid_args ≡ some g.arg)
    × ((g.arg.short_opt == b'-') ≡ false)
    × (fits g.arg g.param ≡ true)
    × AreValid valid_args gs

abbrev pub with_param : Argument → Option Text → ArgResult → ArgResult
with_param arg none r = record r { has = put arg.short_opt true r.has }
with_param arg (some p) r = record r {
  has = put arg.short_opt true r.has;
  params = put arg.short_opt p r.params;
}

abbrev pub add_all : List Given → ArgResult → ArgResult
add_all [] r = r
add_all (g ∷ gs) r = add_all gs (with_param g.arg g.param r)

or_of_if : (b c : Bool) → (if b then true else c) ≡ (b || c)
or_of_if true c = refl
or_of_if false c = refl

or_left_comm : (a b c : Bool) → (a || (b || c)) ≡ (b || a || c)
or_left_comm true true c = refl
or_left_comm true false c = refl
or_left_comm false true c = refl
or_left_comm false false c = refl

-- What the options leave in the two maps.
pub with_param-has :
    (arg : Argument) (param : Option Text) (r : ArgResult) (c : ℕ)
    → (with_param arg param r).has c ≡ (c == arg.short_opt || r.has c)
with_param-has arg none r c = or_of_if (c == arg.short_opt) (r.has c)
with_param-has arg (some p) r c = or_of_if (c == arg.short_opt) (r.has c)

with_param-params :
    (arg : Argument) (param : Option Text) (r : ArgResult) (c : ℕ)
    → (c == arg.short_opt) ≡ false
    → (with_param arg param r).params c ≡ r.params c
with_param-params arg none r c other = refl
with_param-params arg (some p) r c other = if_false (c == arg.short_opt) p (r.params c) other

with_param-own :
    (arg : Argument) (param : Option Text) (r : ArgResult) (c : ℕ)
    → (c == arg.short_opt) ≡ true
    → r.params c ≡ []
    → (with_param arg param r).params c ≡ elim param [ none ↦ [] | some p ↦ p ]
with_param-own arg none r c same unset = unset
with_param-own arg (some p) r c same unset = if_true (c == arg.short_opt) p (r.params c) same

pub add_all-has :
    (gs : List Given) (r : ArgResult) (c : ℕ) → (add_all gs r).has c ≡ (is_given c gs || r.has c)
add_all-has [] r c = refl
add_all-has (g ∷ gs) r c =
    add_all-has gs (with_param g.arg g.param r) c
    ∙ ap (λ b. is_given c gs || b) (with_param-has g.arg g.param r c)
    ∙ or_left_comm (is_given c gs) (c == g.arg.short_opt) (r.has c)

add_all-others :
    (gs : List Given) (r : ArgResult) (c : ℕ)
    → is_given c gs ≡ false
    → (add_all gs r).params c ≡ r.params c
add_all-others [] r c other = refl
add_all-others (g ∷ gs) r c other =
    add_all-others gs (with_param g.arg g.param r) c (ground arith)
    ∙ with_param-params g.arg g.param r c (ground arith)

pub add_all-params :
    (gs : List Given) (r : ArgResult) (c : ℕ)
    → are_distinct gs ≡ true
    → r.params c ≡ []
    → (add_all gs r).params c ≡ param_of c gs
add_all-params [] r c distinct unset = unset
add_all-params (g ∷ gs) r c distinct unset =
    let own = g.arg.short_opt in
    let s = with_param g.arg g.param r in
    elim (Bool-cases (c == own)) [
      | inl same ↦
          let here : c ≡ own = ground arith in
          add_all-others gs s c (ap (λ d. is_given d gs) here ∙ ground arith)
          ∙ with_param-own g.arg g.param r c same unset
          ∙ sym (if_true (c == own) _ _ same)
      | inr other ↦
          add_all-params gs s c (ground arith) (with_param-params g.arg g.param r c other ∙ unset)
          ∙ sym (if_false (c == own) _ _ other)
    ]

with_param-items :
    (arg : Argument) (param : Option Text) (r : ArgResult)
    → ((with_param arg param r).items ≡ r.items) × ((with_param arg param r).warnings ≡ r.warnings)
with_param-items arg none r = (refl, refl)
with_param-items arg (some p) r = (refl, refl)

pub add_all-items :
    (gs : List Given) (r : ArgResult)
    → ((add_all gs r).items ≡ r.items) × ((add_all gs r).warnings ≡ r.warnings)
add_all-items [] r = (refl, refl)
add_all-items (g ∷ gs) r =
    let one = with_param-items g.arg g.param r in
    let rest = add_all-items gs (with_param g.arg g.param r) in (rest.0 ∙ one.0, rest.1 ∙ one.1)

pub given_once :
    (c own : ℕ) (gs : List Given)
    → is_given own gs ≡ false
    → is_given c gs ≡ true
    → (c == own) ≡ false
given_once c own gs once given = elim (Bool-cases (c == own)) [
  | inl same ↦
      let here : c ≡ own = ground arith in
      let there : is_given c gs ≡ false = ap (λ d. is_given d gs) here ∙ once in cc
  | inr other ↦ other
]
