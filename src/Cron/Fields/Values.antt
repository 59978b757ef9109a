-- ===== src/Cron/Fields/Values.antt =====
-- What the values of a cron field are (tomo_core/src/tomo_core/cron_schedule.py, `_field_values`).
use tomo_v.Common.{
  ℕ, zero, suc, ◌+◌, ◌*◌, ◌-◌, ◌/◌, ◌≤◌, ◌<◌, ◌≡◌, refl, ◌↔◌, inl, inr, true, ◌||◌, Option, none,
  some, List, [], ◌∷◌, ◌++◌, arith, ◌==◌, ok, Bool-cases, >>=-eq-ok, sym, ◌∙◌,
}
use mathlib.Core.Path.{subst}
use tomo_v.Cron.Fields.{
  steps, range_incl, bounds, step_of, part_values, parts_values, field_values, contains, is_some,
  partition, split_at,
}

abbrev InField : ℕ → ℕ → ℕ → Type 0
InField low high x = (low ≤ x) × (x ≤ high)

-- `contains` of `n` steps finds the values start + i * step, i < n, and no other.
contains-steps :
    (n start step x : ℕ)
    → contains x (steps n start step) ≡ true
    → (i : ℕ) × (i < n) × (x ≡ start + i * step)
unfolding contains steps
contains-steps zero start step x h = cc
contains-steps (suc n) start step x h = elim (Bool-cases (x == start)) [
  | inl e ↦ (0, omega arith, ground arith)
  | inr e ↦
      let (i, lt, eq) = contains-steps n (start + step) step x (ground arith) in
      (suc i, omega arith, grind arith)
]

steps-contains :
    (n start step i : ℕ) → i < n → contains (start + i * step) (steps n start step) ≡ true
unfolding contains steps
steps-contains (suc n) start step zero h = ground arith
steps-contains (suc n) start step (suc i) h =
    let e : start + suc i * step ≡ (start + step) + i * step = grind arith in
    let ih = steps-contains n (start + step) step i (omega arith) in
    subst (λ y. (y == start || contains y (steps n (start + step) step)) ≡ true) (sym e)
      (ground arith)
steps-contains zero start step i h = elim h [ ]

-- A range holds every step from its start on that does not pass its end, and no other number.
pub contains-range_incl :
    (x start end step : ℕ)
    → start ≤ end
    → 1 ≤ step
    → (contains x (range_incl start end step) ≡ true)
      ↔ ((i : ℕ) × (x ≡ start + i * step) × (x ≤ end))
unfolding range_incl
contains-range_incl x start end step le pos = (
  λ h.
      let (i, lt, eq) = contains-steps ((end - start) / step + 1) start step x h in
      (i, eq, grind arith),
  λ w.
      let (i, eq, le') = w in
      subst (λ y. contains y (steps ((end - start) / step + 1) start step) ≡ true) (sym eq)
        (steps-contains ((end - start) / step + 1) start step i (grind arith)),
)

contains-append : (x : ℕ) (l m : List ℕ) → contains x (l ++ m) ≡ (contains x l || contains x m)
unfolding contains
contains-append x [] m = refl
contains-append x (v ∷ l) m = ground (arith, contains-append x l m)

step_of-pos : (s : Option (List ℕ)) (n : ℕ) → step_of s ≡ ok n → 1 ≤ n
unfolding step_of
step_of-pos none n h = ground arith
step_of-pos (some s) n h = ground arith

-- A part that parses is a range within the field's range.
pub part_values-eq-range :
    (low high : ℕ) (part : List ℕ) (vs : List ℕ)
    → part_values low high part ≡ ok vs
    → (start : ℕ) × (end : ℕ) × (step : ℕ) × (1 ≤ step)
      × (low ≤ start)
      × (start ≤ end)
      × (end ≤ high)
      × (vs ≡ range_incl start end step)
unfolding part_values
part_values-eq-range low high part vs h =
    let cut = partition b'/' part in
    let (step, hs, h1) = >>=-eq-ok (step_of cut.1) _ h in
    let (range, hr, h2) = >>=-eq-ok (bounds cut.0 (is_some cut.1) low high) _ h1 in
    let pos = step_of-pos cut.1 step hs in
    (range.0, range.1, step, pos, ground arith, ground arith, ground arith, ground arith)

part_values-InField :
    (low high : ℕ) (part : List ℕ) (vs : List ℕ) (x : ℕ)
    → part_values low high part ≡ ok vs
    → contains x vs ≡ true
    → InField low high x
part_values-InField low high part vs x h c =
    let (start, end, step, pos, a, b, d, e) = part_values-eq-range low high part vs h in
    let (i, eq, le) = (contains-range_incl x start end step b pos).0 (rw e at c) in
    (grind arith, omega arith)

parts_values-InField :
    (low high : ℕ) (parts : List (List ℕ)) (vs : List ℕ) (x : ℕ)
    → parts_values low high parts ≡ ok vs
    → contains x vs ≡ true
    → InField low high x
unfolding parts_values contains
parts_values-InField low high [] vs x h c = ground arith
parts_values-InField low high (p ∷ ps) vs x h c =
    let (us, hu, h1) = >>=-eq-ok (part_values low high p) _ h in
    let (ws, hw, h2) = >>=-eq-ok (parts_values low high ps) _ h1 in
    let e : vs ≡ us ++ ws = ground arith in
    let c' : (contains x us || contains x ws) ≡ true =
      sym (contains-append x us ws) ∙ (rw e at c) in
    elim (Bool-cases (contains x us)) [
      | inl y ↦ part_values-InField low high p us x hu y
      | inr n ↦ parts_values-InField low high ps ws x hw (ground arith)
    ]

-- A field that parses holds only values of its range.
pub field_values-InField :
    (low high : ℕ) (source : List ℕ) (vs : List ℕ) (x : ℕ)
    → field_values low high source ≡ ok vs
    → contains x vs ≡ true
    → (low ≤ x) × (x ≤ high)
unfolding field_values
field_values-InField low high source vs x h c =
    parts_values-InField low high (split_at b',' source) vs x h c
