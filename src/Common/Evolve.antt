-- ===== src/Common/Evolve.antt =====
-- How the rows of a table change while statements run: a row stays in its place, and rows are added
-- at the end. Keys of a table, as SQLite's PRIMARY KEY keeps them.
use mathlib.Core.Path.{◌≡◌, refl, sym, ap, ap₂, subst}
use mathlib.Core.Bool.{Bool, true, false}
use mathlib.Core.Logic.{inl, inr, ◌⊎◌}
use mathlib.Core.Option.{none, some}
use mathlib.Core.List.{List, [], ◌∷◌, ◌++◌, map}
use Prim.Native.String.{String}
use native.Mathlib.Omega.{arith}
use text.Mathlib.Text.{◌==◌ as str_eq}
use text.Mathlib.TextEquality.{eq_iff}
use tomo_v.Common.Tests.{Bool-cases}
use tomo_v.Common.Tables.{All, All-map, All-first_where, update_where, first_where, exists_where}

-- Each row of the first table is related to the row in its place of the second.
abbrev pub Evolves {ℓ} : {A : Type ℓ} → (A → A → Type 0) → List A → List A → Type 0
Evolves R [] m = Unit
Evolves R (x ∷ xs) [] = ⊥
Evolves R (x ∷ xs) (y ∷ ys) = R x y × Evolves R xs ys

module _ {ℓ} {A : Type ℓ} (R : A → A → Type 0) (same : (x : A) → R x x) where
  pub Evolves-refl : (l : List A) → Evolves R l l
  Evolves-refl [] = tt
  Evolves-refl (x ∷ xs) = (same x, Evolves-refl xs)

  -- added rows
  pub Evolves-append : (l m : List A) → Evolves R l (l ++ m)
  Evolves-append [] m = tt
  Evolves-append (x ∷ xs) m = (same x, Evolves-append xs m)

  -- an UPDATE that relates what it writes
  pub Evolves-update :
      (p : A → Bool) (f : A → A) (l : List A)
      → All (λ x. p x ≡ true → R x (f x)) l
      → Evolves R l (update_where p f l)
  unfolding update_where
  Evolves-update p f [] a = tt
  Evolves-update p f (x ∷ xs) a = elim (Bool-cases (p x)) [
    | inl e ↦ (rw e (a.0 e), Evolves-update p f xs a.1)
    | inr e ↦ (rw e (same x), Evolves-update p f xs a.1)
  ]

  -- an UPDATE of added rows only
  pub Evolves-update_added :
      (p : A → Bool) (f : A → A) (l m : List A)
      → All (λ x. p x ≡ false) l
      → Evolves R l (update_where p f (l ++ m))
  unfolding update_where
  Evolves-update_added p f [] m a = tt
  Evolves-update_added p f (x ∷ xs) m a = (rw a.0 (same x), Evolves-update_added p f xs m a.1)

-- an UPDATE, by what it writes and what it leaves
pub update_where-Evolves {ℓ} :
    {A : Type ℓ} (R : A → A → Type 0) (p : A → Bool) (f : A → A) (l : List A)
    → ((x : A) → p x ≡ true → R x (f x))
    → ((x : A) → p x ≡ false → R x x)
    → Evolves R l (update_where p f l)
unfolding update_where
update_where-Evolves R p f [] written left = tt
update_where-Evolves R p f (x ∷ xs) written left = elim (Bool-cases (p x)) [
  | inl e ↦ (rw e (written x e), update_where-Evolves R p f xs written left)
  | inr e ↦ (rw e (left x e), update_where-Evolves R p f xs written left)
]

module _ {ℓ} {A : Type ℓ} (R S T : A → A → Type 0)
    (join : (x y z : A) → R x y → S y z → T x z) where
  pub Evolves-trans : (l m n : List A) → Evolves R l m → Evolves S m n → Evolves T l n
  Evolves-trans [] m n a b = tt
  Evolves-trans (x ∷ xs) [] n a b = elim a [ ]
  Evolves-trans (x ∷ xs) (y ∷ ys) [] a b = elim b [ ]
  Evolves-trans (x ∷ xs) (y ∷ ys) (z ∷ zs) a b =
      (join x y z a.0 b.0, Evolves-trans xs ys zs a.1 b.1)

module _ {ℓ} {A : Type ℓ} (R S : A → A → Type 0) (weaken : (x y : A) → R x y → S x y) where
  pub Evolves-map : (l m : List A) → Evolves R l m → Evolves S l m
  Evolves-map [] m a = tt
  Evolves-map (x ∷ xs) [] a = elim a [ ]
  Evolves-map (x ∷ xs) (y ∷ ys) a = (weaken x y a.0, Evolves-map xs ys a.1)

pub All-of {ℓ κ} : {A : Type ℓ} {P : A → Type κ} → ((x : A) → P x) → (l : List A) → All P l
All-of h [] = tt
All-of h (x ∷ xs) = (h x, All-of h xs)

pub str_eq-false-sym : (s t : String) → str_eq s t ≡ false → str_eq t s ≡ false
str_eq-false-sym s t h = ground (arith, eq_iff s t, eq_iff t s)

-- x is a row of the table
abbrev pub In : {A : Type 0} → A → List A → Type 0
In x [] = ⊥
In x (y ∷ ys) = (x ≡ y) ⊎ In x ys

pub All-In : {A : Type 0} (P : A → Type 0) (l : List A) (x : A) → In x l → All P l → P x
All-In P [] x i a = elim i [ ]
All-In P (y ∷ ys) x (inl e) a = subst P (sym e) a.0
All-In P (y ∷ ys) x (inr i) a = All-In P ys x i a.1

pub All-of_In : {A : Type 0} (P : A → Type 0) (l : List A) → ((x : A) → In x l → P x) → All P l
All-of_In P [] h = tt
All-of_In P (x ∷ xs) h = (h x (inl refl), All-of_In P xs (λ y i. h y (inr i)))

-- No key stands twice.
abbrev pub Unique : List String → Type 0
Unique [] = Unit
Unique (k ∷ ks) = All (λ j. str_eq j k ≡ false) ks × Unique ks

module _ {ℓ} {A : Type ℓ} (key : A → String) where
  pub map-update_where :
      (p : A → Bool) (f : A → A) (l : List A)
      → ((x : A) → key (f x) ≡ key x)
      → map key (update_where p f l) ≡ map key l
  unfolding update_where
  map-update_where p f [] h = refl
  map-update_where p f (x ∷ xs) h = elim (Bool-cases (p x)) [
    | inl e ↦ rw e (ap₂ ◌∷◌ (h x) (map-update_where p f xs h))
    | inr e ↦ rw e (ap (◌∷◌ (key x)) (map-update_where p f xs h))
  ]

  All-keys : (P : String → Type 0) (l : List A) → All P (map key l) → All (λ x. P (key x)) l
  All-keys P [] a = tt
  All-keys P (x ∷ xs) a = (a.0, All-keys P xs a.1)

  keys-All :
      (P : String → Type 0) (l : List A) (x : A)
      → All (λ y. P (key y)) l
      → P (key x)
      → All P (map key (l ++ x ∷ []))
  keys-All P [] x a b = (b, tt)
  keys-All P (y ∷ ys) x a b = (a.0, keys-All P ys x a.1 b)

  -- a row with a new key
  pub Unique-append :
      (l : List A) (x : A)
      → Unique (map key l)
      → All (λ y. str_eq (key y) (key x) ≡ false) l
      → Unique (map key (l ++ x ∷ []))
  Unique-append [] x u f = (tt, tt)
  Unique-append (y ∷ ys) x u f = (
    keys-All (λ j. str_eq j (key y) ≡ false) ys x (All-keys (λ j. str_eq j (key y) ≡ false) ys u.0)
        (str_eq-false-sym (key y) (key x) f.0),
    Unique-append ys x u.1 f.1,
  )

  -- The row that a SELECT by key finds is the only one with its key.
  pub first_where-only :
      (p : A → Bool) (l : List A) (r : A)
      → Unique (map key l)
      → first_where p l ≡ some r
      → All (λ x. str_eq (key x) (key r) ≡ true → x ≡ r) l
  unfolding first_where
  first_where-only p [] r u h = tt
  first_where-only p (y ∷ ys) r u h = elim (Bool-cases (p y)) [
    | inl e ↦
        let q : y ≡ r = ground arith in
        (
          λ _. q,
          All-map {P = λ x. str_eq (key x) (key y) ≡ false}
              {Q = λ x. str_eq (key x) (key r) ≡ true → x ≡ r} ys
              (λ x ne same. cc (subst (λ z. str_eq (key x) (key z) ≡ false) q ne, same))
              (All-keys (λ j. str_eq j (key y) ≡ false) ys u.0),
        )
    | inr e ↦
        let h' : first_where p ys ≡ some r = ground arith in
        let ne =
          (All-first_where (λ x. str_eq (key x) (key y) ≡ false) p ys r h'
            (All-keys (λ j. str_eq j (key y) ≡ false) ys u.0)).0 in
        (λ same. cc (str_eq-false-sym (key r) (key y) ne, same), first_where-only p ys r u.1 h')
  ]

module _ {A : Type 0} (key : A → String) where
  -- A row is the only one with its key.
  pub In-only :
      (l : List A) (r : A)
      → Unique (map key l)
      → In r l
      → All (λ x. str_eq (key x) (key r) ≡ true → x ≡ r) l
  In-only [] r u i = tt
  In-only (y ∷ ys) r u (inl e) = (
    λ _. sym e,
    All-map {P = λ x. str_eq (key x) (key y) ≡ false}
        {Q = λ x. str_eq (key x) (key r) ≡ true → x ≡ r} ys
        (λ x ne same. cc (subst (λ z. str_eq (key x) (key z) ≡ false) (sym e) ne, same))
        (All-keys key (λ j. str_eq j (key y) ≡ false) ys u.0),
  )
  In-only (y ∷ ys) r u (inr i) =
      let ne =
        All-In (λ x. str_eq (key x) (key y) ≡ false) ys r i
          (All-keys key (λ j. str_eq j (key y) ≡ false) ys u.0) in
      (λ same. cc (str_eq-false-sym (key r) (key y) ne, same), In-only ys r u.1 i)

-- What EXISTS finds is a row that passes the test.
pub exists_where-In :
    {A : Type 0} (p : A → Bool) (l : List A)
    → exists_where p l ≡ true
    → (x : A) × In x l × (p x ≡ true)
unfolding exists_where
exists_where-In p [] h = absurd (cc h)
exists_where-In p (x ∷ xs) h = elim (Bool-cases (p x)) [
  | inl hit ↦ (x, inl refl, hit)
  | inr miss ↦ let (y, i, hit) = exists_where-In p xs (rw miss at h) in (y, inr i, hit)
]

module _ {ℓ} {A : Type ℓ} where
  -- Where no row passes the test, a SELECT finds none,
  pub first_where-All :
      (p : A → Bool) (l : List A) → All (λ x. p x ≡ false) l → first_where p l ≡ none
  unfolding first_where
  first_where-All p [] a = refl
  first_where-All p (x ∷ xs) a = rw a.0 (first_where-All p xs a.1)

  -- nor does EXISTS,
  pub exists_where-All :
      (p : A → Bool) (l : List A) → All (λ x. p x ≡ false) l → exists_where p l ≡ false
  unfolding exists_where
  exists_where-All p [] a = refl
  exists_where-All p (x ∷ xs) a = rw a.0 (exists_where-All p xs a.1)

  -- and a row that is added and passes is the first.
  pub first_where-append :
      (p : A → Bool) (l : List A) (x : A)
      → All (λ y. p y ≡ false) l
      → p x ≡ true
      → first_where p (l ++ x ∷ []) ≡ some x
  unfolding first_where
  first_where-append p [] x a hit = rw hit refl
  first_where-append p (y ∷ ys) x a hit = rw a.0 (first_where-append p ys x a.1 hit)
