-- ===== src/Common/Sorting.antt =====
-- ORDER BY of a SELECT, as an insertion sort, and ORDER BY ... LIMIT 1.
use mathlib.Core.Path.{◌≡◌, ◌∙◌}
use mathlib.Core.Bool.{Bool}
use mathlib.Core.Logic.{inl, inr}
use mathlib.Core.Option.{Option, none, some}
use mathlib.Core.List.{List, [], ◌∷◌}
use tomo_v.Common.Tests.{if◌then◌else◌, Bool-cases, Option-cases}
use tomo_v.Common.Tables.{All}
use tomo_v.Common.Evolve.{In}

module _ {ℓ} {A : Type ℓ} (before : A → A → Bool) where
  -- before the rows that it is not behind
  unfoldable pub insert_by : A → List A → List A
  insert_by x [] = x ∷ []
  insert_by x (y ∷ ys) = let rest = insert_by x ys in if before y x then y ∷ rest else x ∷ y ∷ ys

  -- Rows that the order does not tell apart stay in the order of the table.
  unfoldable pub sort_by : List A → List A
  unfolding insert_by
  sort_by [] = []
  sort_by (x ∷ xs) = insert_by x (sort_by xs)

  -- the first row of the order
  unfoldable pub least_by : List A → Option A
  least_by [] = none
  least_by (x ∷ xs) = elim (least_by xs) [
    | none ↦ some x
    | some y ↦ some (if before y x then y else x)
  ]

  module _ {κ} (P : A → Type κ) where
    pub insert_by-All : (x : A) (l : List A) → P x → All P l → All P (insert_by x l)
    unfolding insert_by
    insert_by-All x [] h a = (h, tt)
    insert_by-All x (y ∷ ys) h a = elim (Bool-cases (before y x)) [
      | inl e ↦ rw e (a.0, insert_by-All x ys h a.1)
      | inr e ↦ rw e (h, a)
    ]

    pub sort_by-All : (l : List A) → All P l → All P (sort_by l)
    unfolding sort_by
    sort_by-All [] a = tt
    sort_by-All (x ∷ xs) a = insert_by-All x (sort_by xs) a.0 (sort_by-All xs a.1)

module _ {ℓ κ} {A : Type ℓ} (before : A → A → Bool) (P : A → Type κ) where
  insert_by-All_of : (x : A) (l : List A) → All P (insert_by before x l) → P x × All P l
  unfolding insert_by
  insert_by-All_of x [] a = a
  insert_by-All_of x (y ∷ ys) a = elim (Bool-cases (before y x)) [
    | inr e ↦ rw e at a
    | inl e ↦
        let b : P y × All P (insert_by before x ys) = rw e at a in
        let (h, rest) = insert_by-All_of x ys b.1 in (h, (b.0, rest))
  ]

  -- Sorting loses no row.
  pub sort_by-All_of : (l : List A) → All P (sort_by before l) → All P l
  unfolding sort_by
  sort_by-All_of [] a = tt
  sort_by-All_of (x ∷ xs) a =
      let (h, rest) = insert_by-All_of x (sort_by before xs) a in (h, sort_by-All_of xs rest)

module _ {A : Type 0} (before : A → A → Bool) where
  -- the first row of the order is a row
  pub least_by-In : (l : List A) (x : A) → least_by before l ≡ some x → In x l
  unfolding least_by
  least_by-In [] x h = absurd (cc h)
  least_by-In (y ∷ ys) x h = elim (Option-cases (least_by before ys)) [
    | inl e ↦ let same : some y ≡ some x = rw (e, least_by) at h in inl (cc same)
    | inr (z, e) ↦ elim (Bool-cases (before z y)) [
      | inl b ↦
          let same : some z ≡ some x = rw b at (rw (e, least_by) at h) in
          inr (least_by-In ys x (e ∙ same))
      | inr b ↦ let same : some y ≡ some x = rw b at (rw (e, least_by) at h) in inl (cc same)
    ]
  ]
