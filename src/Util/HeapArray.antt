-- ===== src/Util/HeapArray.antt =====
-- emu/util/heaparray.hpp: an array whose size is known when the program runs. Its iterators are not
-- modelled.
use yanesemu.Prelude.{
  ℕ, zero, suc, ◌+◌, ◌<◌, ◌≤◌, ◌≡◌, ◌∙◌, ◌↔◌, refl, sym, arith, Bool, true, false, not, ltb, leb,
  ◌==◌, ◌&&◌, if◌then◌else◌, Bool-cases, inl, inr,
}

-- `len`, and the elements `arrptr` points to; an index past the length is not checked.
pub record HeapArray : Type 0 where
  pub len : ℕ
  pub data_at : ℕ → ℕ

-- `array[i] = v`
abbrev pub set_at : ℕ → ℕ → (ℕ → ℕ) → ℕ → ℕ
set_at i v f j = if j == i then v else f j

-- A new array is not initialised: `fresh` is what stands in it.
unfoldable pub reset : (fresh : ℕ → ℕ) → ℕ → HeapArray
reset fresh newlen = record { len = newlen; data_at = fresh }

-- The loop of `operator=` from the index `i`, with `count` elements to go.
unfoldable pub assign_from : ℕ → ℕ → (ℕ → ℕ) → (ℕ → ℕ) → ℕ → ℕ
assign_from zero i source target = target
assign_from (suc count) i source target =
    assign_from count (suc i) source (set_at i (source i) target)

unfoldable pub assign : (fresh : ℕ → ℕ) → HeapArray → HeapArray
assign fresh arr =
    let new = reset fresh arr.len in
    record new { data_at = assign_from arr.len 0 arr.data_at new.data_at }

-- The loop of `operator==`, which runs over the size of the right operand alone.
unfoldable pub equal_from : ℕ → ℕ → (ℕ → ℕ) → (ℕ → ℕ) → Bool
equal_from zero i left right = true
equal_from (suc count) i left right =
    let rest = equal_from count (suc i) left right in
    if not (left i == right i) then false else rest

unfoldable pub equals : HeapArray → HeapArray → Bool
equals left right = equal_from right.len 0 left.data_at right.data_at

-- The loop of `clear`.
unfoldable pub clear_from : ℕ → ℕ → (ℕ → ℕ) → ℕ → ℕ
clear_from zero i target = target
clear_from (suc count) i target = clear_from count (suc i) (set_at i 0 target)

unfoldable pub clear : HeapArray → HeapArray
clear arr = record arr { data_at = clear_from arr.len 0 arr.data_at }

-- The loop stores what lies from `i` up to `i + count`, and nothing else.
assigned_at :
    (count i j : ℕ) (source target : ℕ → ℕ)
    → assign_from count i source target j
      ≡ (if leb i j && ltb j (i + count) then source j else target j)
unfolding assign_from
assigned_at zero i j source target = ground arith
assigned_at (suc count) i j source target =
    ground (arith, assigned_at count (suc i) j source (set_at i (source i) target))

equal_all :
    (count i : ℕ) (left right : ℕ → ℕ)
    → ((j : ℕ) → i ≤ j → j < i + count → left j ≡ right j)
    → equal_from count i left right ≡ true
unfolding equal_from
equal_all zero i left right same = refl
equal_all (suc count) i left right same =
    let here = same i (omega arith) (omega arith) in
    let rest = equal_all count (suc i) left right (λ j lo hi. same j (omega arith) (omega arith)) in
    ground arith

equal_at :
    (count i : ℕ) (left right : ℕ → ℕ)
    → equal_from count i left right ≡ true
    → (j : ℕ) → i ≤ j
    → j < i + count
    → left j ≡ right j
unfolding equal_from
equal_at zero i left right same j lo hi = absurd (omega arith)
equal_at (suc count) i left right same j lo hi = elim (Bool-cases (j == i)) [
  | inl here ↦ ground arith
  | inr later ↦ equal_at count (suc i) left right (ground arith) j (ground arith) (omega arith)
]

-- A copy has the size of the array it is made from and equals it, in either order of the operands.
-- The comparison says for arrays of one size whether all their elements are the same.
pub assign-equals :
    (fresh : ℕ → ℕ) (arr other : HeapArray)
    → (equals (assign fresh arr) arr ≡ true)
      × (equals arr (assign fresh arr) ≡ true)
      × ((assign fresh arr).len ≡ arr.len)
      × ((equals arr other ≡ true) ↔ ((j : ℕ) → j < other.len → arr.data_at j ≡ other.data_at j))
unfolding assign equals reset
assign-equals fresh arr other =
    let same : (j : ℕ) → j < arr.len → assign_from arr.len 0 arr.data_at fresh j ≡ arr.data_at j =
      λ j hi. assigned_at arr.len 0 j arr.data_at fresh ∙ ground arith in
    (
      equal_all arr.len 0 _ _ (λ j lo hi. same j (omega arith)),
      equal_all arr.len 0 _ _ (λ j lo hi. sym (same j (omega arith))),
      refl,
      (
        λ e j hi. equal_at other.len 0 _ _ e j (omega arith) (omega arith),
        λ all. equal_all other.len 0 _ _ (λ j lo hi. all j (omega arith)),
      ),
    )
