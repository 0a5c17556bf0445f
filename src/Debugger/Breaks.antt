-- ===== src/Debugger/Breaks.antt =====
-- emu/core/debugger.cpp: which breakpoint an access reaches, and the list of breakpoints.
use mathlib.Core.Bool.{or-false}
use yanesemu.Prelude.{
  ℕ, zero, suc, ◌+◌, ◌<◌, ◌≡◌, ◌∙◌, refl, arith, Bool, true, false, Option, none, some, List, [],
  ◌∷◌, ◌++◌, if◌then◌else◌, length, length-append, get_elem?, Bool-cases, inl, inr, leb, ap,
}
use yanesemu.Debugger as D
use yanesemu.Debugger.{Breakpoint, Debugger}

-- What is found is the first breakpoint that is hit, and where nothing is found none is.
abbrev pub FirstHit : ℕ → ℕ → List Breakpoint → Option ℕ → Type 0
FirstHit addr mode ps none =
    (j : ℕ) (p : Breakpoint) → get_elem? ps j ≡ some p → D.is_hit addr mode p ≡ false
FirstHit addr mode ps (some i) =
    ((p : Breakpoint) × (get_elem? ps i ≡ some p) × (D.is_hit addr mode p ≡ true))
    × ((j : ℕ) (p : Breakpoint) → j < i → get_elem? ps j ≡ some p → D.is_hit addr mode p ≡ false)

-- The search from an index: the result counts from it.
abbrev pub FoundFrom : ℕ → ℕ → ℕ → List Breakpoint → Option ℕ → Type 0
FoundFrom addr mode i ps none = FirstHit addr mode ps none
FoundFrom addr mode i ps (some k) = (j : ℕ) × (k ≡ i + j) × FirstHit addr mode ps (some j)

module _ (addr mode : ℕ) where
  first_none :
      (p : Breakpoint) (ps : List Breakpoint)
      → D.is_hit addr mode p ≡ false
      → FirstHit addr mode ps none
      → FirstHit addr mode (p ∷ ps) none
  first_none p ps away none_hit zero q e = cc
  first_none p ps away none_hit (suc j) q e = none_hit j q e

  first_later :
      (p : Breakpoint) (ps : List Breakpoint) (i : ℕ)
      → D.is_hit addr mode p ≡ false
      → FirstHit addr mode ps (some i)
      → FirstHit addr mode (p ∷ ps) (some (suc i))
  first_later p ps i away first = (first.0, earlier)
    where
      earlier :
          (j : ℕ) (q : Breakpoint)
          → j < suc i
          → get_elem? (p ∷ ps) j ≡ some q
          → D.is_hit addr mode q ≡ false
      earlier zero q below e = cc
      earlier (suc j) q below e = first.1 j q (omega arith) e

  not_hit_yet :
      (p : Breakpoint) (ps : List Breakpoint) (i : ℕ) (o : Option ℕ)
      → D.is_hit addr mode p ≡ false
      → FoundFrom addr mode (suc i) ps o
      → FoundFrom addr mode i (p ∷ ps) o
  not_hit_yet p ps i none away found = first_none p ps away found
  not_hit_yet p ps i (some k) away (j, e, first) =
      (suc j, omega arith, first_later p ps j away first)

  hit_here :
      (p : Breakpoint) (ps : List Breakpoint) (i : ℕ)
      → D.is_hit addr mode p ≡ true
      → FoundFrom addr mode i (p ∷ ps) (some i)
  hit_here p ps i hit = (0, omega arith, ((p, refl, hit), λ j q below e. absurd (omega arith)))

  find_from :
      (i : ℕ) (ps : List Breakpoint) → FoundFrom addr mode i ps (D.find_break addr mode i ps)
  unfolding D.find_break
  find_from i [] = λ j p e. cc
  find_from i (p ∷ ps) = elim (Bool-cases (D.is_hit addr mode p)) [
    | inl hit ↦ rw hit (hit_here p ps i hit)
    | inr away ↦ rw away (not_hit_yet p ps i _ away (find_from (suc i) ps))
  ]

  from_zero :
      (ps : List Breakpoint) (o : Option ℕ) → FoundFrom addr mode 0 ps o → FirstHit addr mode ps o
  from_zero ps none found = found
  from_zero ps (some k) (j, e, first) = let same : j ≡ k = omega arith in rw (← same) first

  -- The search for a breakpoint gives the index of the first one that the access hits; where it
  -- gives none, the access hits no breakpoint of the list.
  pub find_break_lem : (ps : List Breakpoint) → FirstHit addr mode ps (D.find_break addr mode 0 ps)
  find_break_lem ps = from_zero ps _ (find_from 0 ps)

-- The value of the search with a breakpoint behind the others, by the index that this one has.
abbrev pub found_last : Option ℕ → Bool → ℕ → Option ℕ
found_last o hit n = elim o [ some k ↦ some k | none ↦ if hit then some n else none ]

find_break-append :
    (addr mode i : ℕ) (ps : List Breakpoint) (p : Breakpoint)
    → D.find_break addr mode i (ps ++ (p ∷ []))
      ≡ found_last (D.find_break addr mode i ps) (D.is_hit addr mode p) (i + length ps)
unfolding D.find_break
find_break-append addr mode i [] p = let same : i + 0 ≡ i = omega arith in rw same refl
find_break-append addr mode i (q ∷ ps) p = elim (Bool-cases (D.is_hit addr mode q)) [
  | inl hit ↦ rw hit refl
  | inr away ↦
      let count : suc i + length ps ≡ i + length (q ∷ ps) = omega arith in
      rw away (
        find_break-append addr mode (suc i) ps p
        ∙ ap (found_last (D.find_break addr mode (suc i) ps) (D.is_hit addr mode p)) count)
]

-- A breakpoint behind the others is found where none of them is hit.
pub find_break-last :
    (addr mode : ℕ) (ps : List Breakpoint) (p : Breakpoint)
    → D.find_break addr mode 0 (ps ++ (p ∷ []))
      ≡ found_last (D.find_break addr mode 0 ps) (D.is_hit addr mode p) (length ps)
find_break-last addr mode ps p =
    let count : 0 + length ps ≡ length ps = omega arith in
    find_break-append addr mode 0 ps p
    ∙ ap (found_last (D.find_break addr mode 0 ps) (D.is_hit addr mode p)) count

get_last : {A : Type 0} (xs : List A) (x : A) → get_elem? (xs ++ (x ∷ [])) (length xs) ≡ some x
get_last [] x = refl
get_last (y ∷ xs) x = get_last xs x

remove_last : {A : Type 0} (xs : List A) (x : A) → D.remove_at (length xs) (xs ++ (x ∷ [])) ≡ xs
remove_last [] x = refl
remove_last (y ∷ xs) x = ap (λ (t : List _). y ∷ t) (remove_last xs x)

-- The index that `setbreak` returns is that of the new breakpoint, and `delbreak` of it gives the
-- debugger from before, without having gone past the end of the vector.
pub delbreak-setbreak :
    (p : Breakpoint) (d : Debugger)
    → let (i, e) = D.setbreak p d in (get_elem? e.breakvec i ≡ some p) × (D.delbreak i e ≡ d)
unfolding D.setbreak D.delbreak
delbreak-setbreak p d =
    let past : leb (length (d.breakvec ++ (p ∷ []))) (length d.breakvec) ≡ false =
      ground (arith, length-append d.breakvec (p ∷ [])) in
    (
      get_last d.breakvec p,
      rw (remove_last d.breakvec p, past)
          (ap (λ (b : Bool). record d { failed = b }) (or-false d.failed)),
    )
