-- ===== src/Onboarding/Sound/Parts.antt =====
-- How each part of the invariant is kept by the statements of
-- tomo_core/src/tomo_core/onboarding_store.py.
use mathlib.Core.Path.{subst}
use tomo_v.Common.{
  ℕ, String, Bool, true, false, Option, none, some, List, [], ◌∷◌, ◌++◌, ◌≡◌, refl, sym, ap, arith,
  eq_iff, All, All-map, All-update_where, Keyed, Keyed-update_where, exists_where, first_where,
  update_where, Bool-cases, inl, inr, ◌⊎◌, All-of, if◌then◌else◌, In, Keyed-only, first_where-of_In,
  eq_refl,
}
use tomo_v.Onboarding.Rows.{
  InboxRow, TurnRow, GenerationRow, InputRow, is_running, is_done, equals, is_none, turn_is,
}
use tomo_v.Onboarding.Sound.{
  IsCovered, IsAnswered, IsNamed, HasBurst, HasMessage, answers, input_is, same_generation,
  same_turn,
}

-- What a statement makes true stays true where it is written.
pub exists_where-keeps :
    {A : Type 0} (q p : A → Bool) (f : A → A) (l : List A)
    → All (λ x. q x ≡ true → p x ≡ true → q (f x) ≡ true) l
    → exists_where q l ≡ true
    → exists_where q (update_where p f l) ≡ true
unfolding exists_where update_where
exists_where-keeps q p f [] a h = h
exists_where-keeps q p f (x ∷ xs) a h = elim (Bool-cases (q x)) [
  | inr miss ↦
      let later = exists_where-keeps q p f xs a.1 (rw miss at h) in
      elim (Bool-cases (q (if p x then f x else x))) [ inl e ↦ rw e refl | inr e ↦ rw e later ]
  | inl hit ↦ elim (Bool-cases (p x)) [
    | inl e ↦ rw e (rw (a.0 hit e) refl)
    | inr e ↦ rw e (rw hit refl)
  ]
]

pub exists_where-before :
    {A : Type 0} (q : A → Bool) (l m : List A)
    → exists_where q l ≡ true
    → exists_where q (l ++ m) ≡ true
unfolding exists_where
exists_where-before q [] m h = absurd (cc h)
exists_where-before q (x ∷ xs) m h = elim (Bool-cases (q x)) [
  | inl e ↦ rw e refl
  | inr e ↦ rw e (exists_where-before q xs m (rw e at h))
]

pub equals-true : (o : Option String) (t : String) → equals o t ≡ true → o ≡ some t
equals-true none t h = absurd (cc h)
equals-true (some s) t h = ap some ((eq_iff s t).0 h)

pub is_none-true {ℓ} : {A : Type ℓ} (o : Option A) → is_none o ≡ true → o ≡ none
is_none-true none h = refl
is_none-true (some s) h = absurd (cc h)

pub exists_where-last :
    {A : Type 0} (q : A → Bool) (l : List A) (x : A)
    → q x ≡ true
    → exists_where q (l ++ x ∷ []) ≡ true
unfolding exists_where
exists_where-last q [] x h = rw h refl
exists_where-last q (y ∷ ys) x h = elim (Bool-cases (q y)) [
  | inl e ↦ rw e refl
  | inr e ↦ rw e (exists_where-last q ys x h)
]

-- a test that is true wherever another is
pub exists_where-implies :
    {A : Type 0} (p q : A → Bool) (l : List A)
    → ((x : A) → p x ≡ true → q x ≡ true)
    → exists_where p l ≡ true
    → exists_where q l ≡ true
unfolding exists_where
exists_where-implies p q [] sub h = absurd (cc h)
exists_where-implies p q (x ∷ xs) sub h = elim (Bool-cases (p x)) [
  | inl e ↦ rw (sub x e) refl
  | inr e ↦
      let later = exists_where-implies p q xs sub (rw e at h) in
      elim (Bool-cases (q x)) [ inl e ↦ rw e refl | inr e ↦ rw e later ]
]

-- What is written into a row that a SELECT finds is there.
pub exists_where-found :
    {A : Type 0} (c q p : A → Bool) (f : A → A) (l : List A) (x : A)
    → first_where c l ≡ some x
    → p x ≡ true
    → q (f x) ≡ true
    → exists_where q (update_where p f l) ≡ true
unfolding first_where exists_where update_where
exists_where-found c q p f [] x h hit made = absurd (cc h)
exists_where-found c q p f (y ∷ ys) x h hit made = elim (Bool-cases (c y)) [
  | inl e ↦
      let same : some x ≡ some y = sym (rw e at h) in
      let at_y : x ≡ y = cc same in
      let hit' : p y ≡ true = subst (λ z. p z ≡ true) at_y hit in
      let made' : q (f y) ≡ true = subst (λ z. q (f z) ≡ true) at_y made in rw hit' (rw made' refl)
  | inr e ↦
      let later = exists_where-found c q p f ys x (rw e at h) hit made in
      elim (Bool-cases (q (if p y then f y else y))) [ inl t ↦ rw t refl | inr t ↦ rw t later ]
]

module _ (p : GenerationRow → Bool) (f : GenerationRow → GenerationRow)
    (generations : List GenerationRow)
    (ends : (g : GenerationRow) → is_running (f g).status ≡ false) where
  -- a statement that ends generations
  pub end-IsNamed : All IsNamed generations → All IsNamed (update_where p f generations)
  end-IsNamed =
      All-update_where p f generations (λ g hit x running. absurd (cc (ends g, running)))
        (λ g miss x. x)

  pub end-IsCovered :
      (inbox : List InboxRow) (inputs : List InputRow)
      → All (IsCovered inbox inputs) generations
      → All (IsCovered inbox inputs) (update_where p f generations)
  end-IsCovered inbox inputs =
      All-update_where p f generations (λ g hit x running. absurd (cc (ends g, running)))
        (λ g miss x. x)

-- Answers stay answers where generations that are done are left alone.
pub IsAnswered-generations :
    (p : GenerationRow → Bool) (f : GenerationRow → GenerationRow)
    (generations : List GenerationRow) (inputs : List InputRow) (inbox : List InboxRow)
    → ((g : GenerationRow) → p g ≡ true → is_done g.status ≡ false)
    → All (IsAnswered generations inputs) inbox
    → All (IsAnswered (update_where p f generations) inputs) inbox
IsAnswered-generations p f generations inputs inbox spared =
    All-map inbox λ r answered message completed. elim (answered message completed) [
      | inl error ↦ inl error
      | inr found ↦ inr (
          exists_where-keeps (answers inputs r.update_id) p f generations
            (All-of (λ g yes hit. absurd (cc (spared g hit, done g r.update_id yes))) generations)
            found)
    ]
  where
    done :
        (g : GenerationRow) (update_id : ℕ)
        → answers inputs update_id g ≡ true
        → is_done g.status ≡ true
    done g update_id h = ground arith

pub IsAnswered-more :
    (generations more : List GenerationRow) (inputs inputs' : List InputRow) (inbox : List InboxRow)
    → ((generation_id : String) (update_id : ℕ)
        → exists_where (input_is generation_id update_id) inputs ≡ true
        → exists_where (input_is generation_id update_id) inputs' ≡ true)
    → All (IsAnswered generations inputs) inbox
    → All (IsAnswered (generations ++ more) inputs') inbox
IsAnswered-more generations more inputs inputs' inbox kept =
    All-map inbox λ r answered message completed. elim (answered message completed) [
      | inl error ↦ inl error
      | inr found ↦ inr (
          exists_where-before (answers inputs' r.update_id) generations more (
            exists_where-implies (answers inputs r.update_id) (answers inputs' r.update_id)
              generations (λ g yes. still g r.update_id yes) found))
    ]
  where
    still :
        (g : GenerationRow) (update_id : ℕ)
        → answers inputs update_id g ≡ true
        → answers inputs' update_id g ≡ true
    still g update_id h = ground (arith, kept g.generation_id update_id)

-- a table whose key is a text that the statement keeps
pub keep_generations :
    (p : GenerationRow → Bool) (f : GenerationRow → GenerationRow)
    (generations : List GenerationRow)
    → ((g : GenerationRow) → (f g).generation_id ≡ g.generation_id)
    → Keyed same_generation generations
    → Keyed same_generation (update_where p f generations)
keep_generations p f generations keep =
    Keyed-update_where same_generation p f generations (λ g h. rw (keep g) refl)
      (λ g h. rw (keep h) refl)

pub same_turn-kept :
    (p : TurnRow → Bool) (f : TurnRow → TurnRow) (turns : List TurnRow)
    → ((t : TurnRow) → (f t).chat_id ≡ t.chat_id)
    → Keyed same_turn turns
    → Keyed same_turn (update_where p f turns)
same_turn-kept p f turns keep =
    Keyed-update_where same_turn p f turns (λ t u. rw (keep t) refl) (λ t u. rw (keep u) refl)

-- A statement on a turn that keeps its chat, and its burst or none.
abbrev pub Releases : (TurnRow → TurnRow) → Type 0
Releases f =
    (t : TurnRow)
    → ((f t).chat_id ≡ t.chat_id) × (((f t).burst_id ≡ t.burst_id) ⊎ ((f t).burst_id ≡ none))

module _ (p : TurnRow → Bool) (f : TurnRow → TurnRow) (turns : List TurnRow)
    (keep : Releases f) where
  pub bursts-kept : All HasBurst turns → All HasBurst (update_where p f turns)
  bursts-kept =
      All-update_where p f turns
        (λ t hit h b e. elim ((keep t).1) [
          | inl same ↦ rw (keep t).0 (h b (rw same at e))
          | inr gone ↦ absurd (cc (rw gone at e))
        ])
        (λ t miss h. h)

  pub waiting-kept :
      (inbox : List InboxRow)
      → All (HasMessage inbox) turns
      → All (HasMessage inbox) (update_where p f turns)
  waiting-kept inbox =
      All-update_where p f turns
        (λ t hit h b e. elim ((keep t).1) [
          | inl same ↦ rw (keep t).0 (h b (rw same at e))
          | inr gone ↦ absurd (cc (rw gone at e))
        ])
        (λ t miss h. h)

-- a turn that is found by its place is found by its chat
pub found_by_chat :
    (turns : List TurnRow) (t : TurnRow)
    → Keyed same_turn turns
    → In t turns
    → first_where (turn_is t.chat_id) turns ≡ some t
found_by_chat turns t keys i = first_where-of_In (turn_is t.chat_id) turns t i (eq_refl t.chat_id) (
    All-map turns
      (λ u only hit. only (ground (arith, eq_iff u.chat_id t.chat_id, eq_iff t.chat_id u.chat_id)))
      (Keyed-only same_turn
        (λ u v. ground (arith, eq_iff u.chat_id v.chat_id, eq_iff v.chat_id u.chat_id)) turns t keys
        i))

-- A row with the id of a generation is that generation.
pub generation_only :
    (l : List GenerationRow) (g : GenerationRow)
    → Keyed same_generation l
    → In g l
    → All (λ x. same_generation g x ≡ true → x ≡ g) l
generation_only l g keys i =
    Keyed-only same_generation
      (λ x y.
        ground
          (arith, eq_iff x.generation_id y.generation_id, eq_iff y.generation_id x.generation_id))
      l g keys i
