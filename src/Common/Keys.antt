-- ===== src/Common/Keys.antt =====
-- The key of a table, by a test of its values, and what a key gives the statements of a program.
use native.Mathlib.Omega.{arith}
use mathlib.Core.Path.{◌≡◌, refl, sym, ap, subst, ◌∙◌}
use mathlib.Core.Bool.{Bool, true, false}
use mathlib.Core.Logic.{◌⊎◌, inl, inr}
use mathlib.Core.Option.{some}
use mathlib.Core.List.{List, [], ◌∷◌, ◌++◌}
use tomo_v.Common.Tests.{Bool-cases}
use tomo_v.Common.Tables.{
  All, All-map, All-append, All-update_where, update_where, first_where, exists_where,
  first_where-update_where, select_where,
}
use tomo_v.Common.Evolve.{In, All-In}

-- No two rows pass the test.
abbrev pub Keyed {ℓ} : {A : Type ℓ} → (A → A → Bool) → List A → Type 0
Keyed same [] = Unit
Keyed same (x ∷ xs) = All (λ y. same x y ≡ false) xs × Keyed same xs

module _ {ℓ} {A : Type ℓ} (same : A → A → Bool) where
  -- A statement that writes no key
  pub Keyed-update_where :
      (p : A → Bool) (f : A → A) (l : List A)
      → ((x y : A) → same (f x) y ≡ same x y)
      → ((x y : A) → same x (f y) ≡ same x y)
      → Keyed same l
      → Keyed same (update_where p f l)
  unfolding update_where
  Keyed-update_where p f [] left right k = tt
  Keyed-update_where p f (x ∷ xs) left right k = (
    All-update_where {P = λ y. same x y ≡ false} p f xs
        (λ y e ne. elim (Bool-cases (p x)) [
          | inl c ↦ rw c (rw (left x (f y), right x y) ne)
          | inr c ↦ rw c (rw (right x y) ne)
        ])
        (λ y e ne. elim (Bool-cases (p x)) [ inl c ↦ rw c (rw (left x y) ne) | inr c ↦ rw c ne ])
        k.0,
    Keyed-update_where p f xs left right k.1,
  )

  -- a row whose key is new
  pub Keyed-append :
      (l : List A) (x : A) → All (λ y. same y x ≡ false) l → Keyed same l → Keyed same (l ++ x ∷ [])
  Keyed-append [] x new k = (tt, tt)
  Keyed-append (y ∷ ys) x new k =
      (All-append (λ z. same y z ≡ false) ys (x ∷ []) k.0 (new.0, tt), Keyed-append ys x new.1 k.1)

module _ {A : Type 0} (same : A → A → Bool) (symmetric : (x y : A) → same x y ≡ same y x) where
  -- A row is the only one with its key.
  pub Keyed-only :
      (l : List A) (r : A) → Keyed same l → In r l → All (λ x. same r x ≡ true → x ≡ r) l
  Keyed-only [] r k i = tt
  Keyed-only (y ∷ ys) r k (inl e) = (
    λ _. sym e,
    All-map {P = λ x. same y x ≡ false} {Q = λ x. same r x ≡ true → x ≡ r} ys
        (λ x ne hit. absurd (cc (subst (λ z. same z x ≡ false) (sym e) ne, hit))) k.0,
  )
  Keyed-only (y ∷ ys) r k (inr i) =
      let ne : same y r ≡ false = All-In (λ x. same y x ≡ false) ys r i k.0 in
      (λ hit. absurd (cc (symmetric r y, ne, hit)), Keyed-only ys r k.1 i)

module _ {A : Type 0} where
  -- the row that a SELECT finds is in the table
  pub first_where-In : (p : A → Bool) (l : List A) (x : A) → first_where p l ≡ some x → In x l
  unfolding first_where
  first_where-In p [] x h = absurd (cc h)
  first_where-In p (y ∷ ys) x h = elim (Bool-cases (p y)) [
    | inl e ↦ inl (cc (rw e at h))
    | inr e ↦ inr (first_where-In p ys x (rw e at h))
  ]

  -- Where only one row passes, it is found.
  pub first_where-of_In :
      (p : A → Bool) (l : List A) (r : A)
      → In r l
      → p r ≡ true
      → All (λ x. p x ≡ true → x ≡ r) l
      → first_where p l ≡ some r
  unfolding first_where
  first_where-of_In p [] r i hit only = elim i [ ]
  first_where-of_In p (y ∷ ys) r (inl e) hit only =
      let hit' : p y ≡ true = subst (λ z. p z ≡ true) e hit in
      rw hit' (subst (λ z. some y ≡ some z) (sym e) refl)
  first_where-of_In p (y ∷ ys) r (inr i) hit only = elim (Bool-cases (p y)) [
    | inl e ↦ rw e (subst (λ z. some y ≡ some z) (only.0 e) refl)
    | inr e ↦ rw e (first_where-of_In p ys r i hit only.1)
  ]

  -- the rows that a SELECT gives are in the table
  pub select_where-In :
      (p : A → Bool) (l : List A) (x : A) → In x (select_where p l) → In x l × (p x ≡ true)
  unfolding select_where
  select_where-In p [] x i = elim i [ ]
  select_where-In p (y ∷ ys) x i = elim (Bool-cases (p y)) [
    | inl e ↦
        let split : (x ≡ y) ⊎ In x (select_where p ys) = rw e at i in
        elim split [
          | inl h ↦ (inl h, subst (λ z. p z ≡ true) (sym h) e)
          | inr h ↦ let (j, hit) = select_where-In p ys x h in (inr j, hit)
        ]
    | inr e ↦ let (j, hit) = select_where-In p ys x (rw e at i) in (inr j, hit)
  ]

module _ {A : Type 0} (q : A → Bool) where
  -- A statement that keeps the test, and does not write the row that a SELECT finds
  pub first_where-kept :
      (p : A → Bool) (f : A → A) (l : List A) (x : A)
      → ((y : A) → q (f y) ≡ q y)
      → first_where q l ≡ some x
      → p x ≡ false
      → first_where q (update_where p f l) ≡ some x
  first_where-kept p f l x keep h miss =
      first_where-update_where q p f l keep ∙ (rw h (rw miss refl))

  -- or writes it
  pub first_where-written :
      (p : A → Bool) (f : A → A) (l : List A) (x : A)
      → ((y : A) → q (f y) ≡ q y)
      → first_where q l ≡ some x
      → p x ≡ true
      → first_where q (update_where p f l) ≡ some (f x)
  first_where-written p f l x keep h hit =
      first_where-update_where q p f l keep ∙ (rw h (rw hit refl))

  -- A row that is found is found before a row that is added.
  pub first_where-before :
      (l m : List A) (x : A) → first_where q l ≡ some x → first_where q (l ++ m) ≡ some x
  unfolding first_where
  first_where-before [] m x h = absurd (cc h)
  first_where-before (y ∷ ys) m x h = elim (Bool-cases (q y)) [
    | inl e ↦ rw e (rw e at h)
    | inr e ↦ rw e (first_where-before ys m x (rw e at h))
  ]

  pub exists_where-first :
      (l : List A) → exists_where q l ≡ true → (x : A) × (first_where q l ≡ some x) × (q x ≡ true)
  unfolding first_where exists_where
  exists_where-first [] h = absurd (cc h)
  exists_where-first (y ∷ ys) h = elim (Bool-cases (q y)) [
    | inl e ↦ (y, rw e refl, e)
    | inr e ↦ let (x, found, hit) = exists_where-first ys (rw e at h) in (x, rw e found, hit)
  ]

  pub first_where-hit : (l : List A) (x : A) → first_where q l ≡ some x → q x ≡ true
  unfolding first_where
  first_where-hit [] x h = absurd (cc h)
  first_where-hit (y ∷ ys) x h = elim (Bool-cases (q y)) [
    | inl e ↦ let same : some y ≡ some x = rw e at h in cc (e, same)
    | inr e ↦ first_where-hit ys x (rw e at h)
  ]

-- What all rows that a SELECT gives have, the rows that pass its test have.
pub select_where-All_of {ℓ κ} :
    {A : Type ℓ} (P : A → Type κ) (p : A → Bool) (l : List A)
    → All P (select_where p l)
    → All (λ x. p x ≡ true → P x) l
unfolding select_where
select_where-All_of P p [] a = tt
select_where-All_of P p (x ∷ xs) a = elim (Bool-cases (p x)) [
  | inl e ↦
      let b : P x × All P (select_where p xs) = rw e at a in
      (λ hit. b.0, select_where-All_of P p xs b.1)
  | inr e ↦ (λ hit. absurd (cc (e, hit)), select_where-All_of P p xs (rw e at a))
]

-- a row that an UPDATE writes
pub written-In :
    {A : Type 0} (p : A → Bool) (f : A → A) (l : List A) (x : A)
    → In x l
    → p x ≡ true
    → In (f x) (update_where p f l)
unfolding update_where
written-In p f [] x i hit = elim i [ ]
written-In p f (y ∷ ys) x (inl e) hit =
    let here : p y ≡ true = subst (λ z. p z ≡ true) e hit in rw here (inl (ap f e))
written-In p f (y ∷ ys) x (inr i) hit = inr (written-In p f ys x i hit)

pub In-exists :
    {A : Type 0} (p : A → Bool) (l : List A) (x : A) → In x l → p x ≡ true → exists_where p l ≡ true
unfolding exists_where
In-exists p [] x i hit = elim i [ ]
In-exists p (y ∷ ys) x (inl e) hit =
    let here : p y ≡ true = subst (λ z. p z ≡ true) e hit in rw here refl
In-exists p (y ∷ ys) x (inr i) hit = rw (In-exists p ys x i hit) (ground arith)
