-- ===== src/Common/Tables.antt =====
-- A database table as the list of its rows in `rowid` order, with the statements that the stores
-- run on it, and lists measured by native numbers.
use Prim.Native.Nat.{ℕ, suc}
use mathlib.Core.Path.{◌≡◌, refl, ap, ap₂, subst}
use mathlib.Core.Bool.{Bool, true, false, ◌||◌}
use mathlib.Core.Option
use mathlib.Core.Option.{Option, none, some}
use mathlib.Core.List.{List, [], ◌∷◌, ◌++◌}
use native.Mathlib.Omega.{arith}
use tomo_v.Common.Tests.{if◌then◌else◌, Bool-cases}
use mathlib.Core.Logic.{inl, inr}

abbrev pub All {ℓ κ} : {A : Type ℓ} → (A → Type κ) → List A → Type κ
All P [] = Unit
All P (x ∷ xs) = P x × All P xs

module _ {ℓ} {A : Type ℓ} where
  abbrev pub length : List A → ℕ
  length [] = 0
  length (x ∷ xs) = suc (length xs)

  -- UPDATE t SET f WHERE p
  unfoldable pub update_where : (A → Bool) → (A → A) → List A → List A
  update_where p f [] = []
  update_where p f (x ∷ xs) = (if p x then f x else x) ∷ update_where p f xs

  -- SELECT * FROM t WHERE p, in table order
  unfoldable pub select_where : (A → Bool) → List A → List A
  select_where p [] = []
  select_where p (x ∷ xs) = let rest = select_where p xs in if p x then x ∷ rest else rest

  -- the first row of such a SELECT
  unfoldable pub first_where : (A → Bool) → List A → Option A
  first_where p [] = none
  first_where p (x ∷ xs) = if p x then some x else first_where p xs

  -- EXISTS(SELECT 1 FROM t WHERE p)
  unfoldable pub exists_where : (A → Bool) → List A → Bool
  exists_where p [] = false
  exists_where p (x ∷ xs) = p x || exists_where p xs

  -- SELECT COUNT(*) FROM t WHERE p, and the `rowcount` of an UPDATE
  unfoldable pub count_where : (A → Bool) → List A → ℕ
  count_where p [] = 0
  count_where p (x ∷ xs) = let rest = count_where p xs in if p x then suc rest else rest

  -- DELETE FROM t WHERE p
  unfoldable pub delete_where : (A → Bool) → List A → List A
  delete_where p [] = []
  delete_where p (x ∷ xs) = let rest = delete_where p xs in if p x then rest else x ∷ rest

module _ {ℓ κ ι} {A : Type ℓ} {P : A → Type κ} {Q : A → Type ι} where
  pub All-map : (l : List A) → ((x : A) → P x → Q x) → All P l → All Q l
  All-map [] h a = tt
  All-map (x ∷ xs) h a = (h x a.0, All-map xs h a.1)

module _ {ℓ κ ι} {A : Type ℓ} {P : A → Type κ} {Q : A → Type ι} where
  -- An UPDATE establishes `Q` where it writes, and must keep it elsewhere.
  pub All-update_where :
      (p : A → Bool) (f : A → A) (l : List A)
      → ((x : A) → p x ≡ true → P x → Q (f x))
      → ((x : A) → p x ≡ false → P x → Q x)
      → All P l
      → All Q (update_where p f l)
  unfolding update_where
  All-update_where p f [] hit miss a = tt
  All-update_where p f (x ∷ xs) hit miss a = elim (Bool-cases (p x)) [
    | inl e ↦ (rw e (hit x e a.0), All-update_where p f xs hit miss a.1)
    | inr e ↦ (rw e (miss x e a.0), All-update_where p f xs hit miss a.1)
  ]

module _ {ℓ κ ι} {A : Type ℓ} (P : A → Type κ) (Q : A → Type ι) where
  pub All-both : (l : List A) → All P l → All Q l → All (λ x. P x × Q x) l
  All-both [] p q = tt
  All-both (x ∷ xs) p q = ((p.0, q.0), All-both xs p.1 q.1)

module _ {ℓ κ} {A : Type ℓ} (P : A → Type κ) where
  pub All-append : (table added : List A) → All P table → All P added → All P (table ++ added)
  All-append [] added kept new = new
  All-append (row ∷ table) added kept new = (kept.0, All-append table added kept.1 new)

  pub All-select_where : (p : A → Bool) (l : List A) → All P l → All P (select_where p l)
  unfolding select_where
  All-select_where p [] a = tt
  All-select_where p (x ∷ xs) a = elim (Bool-cases (p x)) [
    | inl e ↦ rw e (a.0, All-select_where p xs a.1)
    | inr e ↦ rw e (All-select_where p xs a.1)
  ]

  pub All-delete_where : (p : A → Bool) (l : List A) → All P l → All P (delete_where p l)
  unfolding delete_where
  All-delete_where p [] a = tt
  All-delete_where p (x ∷ xs) a = elim (Bool-cases (p x)) [
    | inl e ↦ rw e (All-delete_where p xs a.1)
    | inr e ↦ rw e (a.0, All-delete_where p xs a.1)
  ]

  -- The row that a SELECT returns has what all rows have, and passes the test.
  pub All-first_where :
      (p : A → Bool) (l : List A) (x : A) → first_where p l ≡ some x → All P l → P x × (p x ≡ true)
  unfolding first_where
  All-first_where p [] x h a = cc
  All-first_where p (y ∷ ys) x h a = elim (Bool-cases (p y)) [
    | inl e ↦ subst (λ z. P z × (p z ≡ true)) (ground arith) (a.0, e)
    | inr e ↦ All-first_where p ys x (ground arith) a.1
  ]

module _ {ℓ} {A : Type ℓ} where
  -- `first_where` finds a row just where `exists_where` says that there is one.
  pub first_where-none :
      (p : A → Bool) (l : List A) → first_where p l ≡ none → exists_where p l ≡ false
  unfolding first_where exists_where
  first_where-none p [] h = refl
  first_where-none p (x ∷ xs) h = ground (arith, first_where-none p xs)

  pub exists_where-false :
      (p : A → Bool) (l : List A) → exists_where p l ≡ false → All (λ x. p x ≡ false) l
  unfolding exists_where
  exists_where-false p [] h = tt
  exists_where-false p (x ∷ xs) h = (ground arith, exists_where-false p xs (ground arith))

  -- An UPDATE whose test no row passes changes nothing.
  pub update_where-none :
      (p : A → Bool) (f : A → A) (l : List A) → exists_where p l ≡ false → update_where p f l ≡ l
  unfolding exists_where update_where
  update_where-none p f [] h = refl
  update_where-none p f (x ∷ xs) h =
      ap₂ ◌∷◌ (ground arith) (update_where-none p f xs (ground arith))

  pub length-update_where :
      (p : A → Bool) (f : A → A) (l : List A) → length (update_where p f l) ≡ length l
  unfolding update_where
  length-update_where p f [] = refl
  length-update_where p f (x ∷ xs) = ap suc (length-update_where p f xs)

  -- A test that an UPDATE leaves as it is selects the updated row.
  pub first_where-update_where :
      (q p : A → Bool) (f : A → A) (l : List A)
      → ((x : A) → q (f x) ≡ q x)
      → first_where q (update_where p f l)
        ≡ Option.map (λ x. if p x then f x else x) (first_where q l)
  unfolding first_where update_where
  first_where-update_where q p f [] h = refl
  first_where-update_where q p f (x ∷ xs) h =
      ground (arith, h x, first_where-update_where q p f xs h)
