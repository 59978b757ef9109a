-- ===== src/Onboarding/Kept/Turns.antt =====
-- How the statements of tomo_core/src/tomo_core/onboarding_store.py change the burst of a chat's turn.
use tomo_v.Common.{
  ℕ, ◌+◌, max, String, Bool, true, false, Option, none, some, List, [], ◌∷◌, ◌++◌, ◌≡◌, refl, sym,
  ◌∙◌, str_eq, eq_iff, eq_refl, first_where, exists_where, update_where, first_where-written,
  first_where-append, exists_where-first, exists_where-false, Bool-cases, inl, inr, arith,
}
use tomo_v.Onboarding.Ids.{burst_of}
use tomo_v.Onboarding.Rows.{TurnRow, GenerationRow, turn_is}
use tomo_v.Onboarding.Store.Turns.{
  Arrival, upsert_turn, place_message, new_turn, max_revision, revision_of,
}
use tomo_v.Onboarding.Sound.Parts.{Releases}
use tomo_v.Onboarding.Kept.{burst_at}

-- A statement that keeps the burst of the rows of the chat
pub update-burst_at :
    (d : String) (p : TurnRow → Bool) (f : TurnRow → TurnRow) (turns : List TurnRow)
    → ((t : TurnRow) → (f t).chat_id ≡ t.chat_id)
    → ((t : TurnRow) → p t ≡ true → turn_is d t ≡ true → (f t).burst_id ≡ t.burst_id)
    → burst_at d (update_where p f turns) ≡ burst_at d turns
unfolding first_where update_where
update-burst_at d p f [] keep same = refl
update-burst_at d p f (t ∷ ts) keep same =
    let rest = update-burst_at d p f ts keep same in
    elim (Bool-cases (p t)) [
      | inl hit ↦ elim (Bool-cases (turn_is d t)) [
        | inl here ↦
            let here' : turn_is d (f t) ≡ true = rw (keep t) here in
            rw (hit, here', here) (same t hit here)
        | inr away ↦
            let away' : turn_is d (f t) ≡ false = rw (keep t) away in rw (hit, away', away) rest
      ]
      | inr miss ↦ elim (Bool-cases (turn_is d t)) [
        | inl here ↦ rw (miss, here) refl
        | inr away ↦ rw (miss, away) rest
      ]
    ]

-- A statement that keeps the burst or none brings no burst.
pub released-burst_at :
    (d b : String) (p : TurnRow → Bool) (f : TurnRow → TurnRow) (turns : List TurnRow)
    → Releases f
    → burst_at d (update_where p f turns) ≡ some b
    → burst_at d turns ≡ some b
unfolding first_where update_where
released-burst_at d b p f [] keep h = h
released-burst_at d b p f (t ∷ ts) keep h = elim (Bool-cases (p t)) [
  | inl hit ↦ elim (Bool-cases (turn_is d t)) [
    | inl here ↦
        let here' : turn_is d (f t) ≡ true = rw (keep t).0 here in
        let at_t : (f t).burst_id ≡ some b = rw (hit, here') at h in
        rw here
          (elim ((keep t).1) [ inl same ↦ sym same ∙ at_t | inr gone ↦ absurd (cc (gone, at_t)) ])
    | inr away ↦
        let away' : turn_is d (f t) ≡ false = rw (keep t).0 away in
        rw away (released-burst_at d b p f ts keep (rw (hit, away') at h))
  ]
  | inr miss ↦ elim (Bool-cases (turn_is d t)) [
    | inl here ↦ rw here (rw (miss, here) at h)
    | inr away ↦ rw away (released-burst_at d b p f ts keep (rw (miss, away) at h))
  ]
]

append-burst_at :
    (d : String) (turns : List TurnRow) (new : TurnRow)
    → turn_is d new ≡ false
    → burst_at d (turns ++ new ∷ []) ≡ burst_at d turns
unfolding first_where
append-burst_at d [] new away = rw away refl
append-burst_at d (t ∷ ts) new away = elim (Bool-cases (turn_is d t)) [
  | inl here ↦ rw here refl
  | inr miss ↦ rw miss (append-burst_at d ts new away)
]

-- a row of one chat is not a row of another
two_chats :
    (c d : String) (t : TurnRow) → str_eq d c ≡ false → turn_is c t ≡ true → turn_is d t ≡ true → ⊥
two_chats c d t ne here there =
    cc (ne, (eq_iff d c).1 (sym ((eq_iff t.chat_id d).0 there) ∙ (eq_iff t.chat_id c).0 here))

module _ (new : TurnRow) (f : TurnRow → TurnRow) (keep : (u : TurnRow) → (f u).chat_id ≡ u.chat_id)
    (turns : List TurnRow) where
  pub upsert-burst_at-other :
      (d : String)
      → str_eq d new.chat_id ≡ false
      → burst_at d (upsert_turn new f turns) ≡ burst_at d turns
  unfolding upsert_turn
  upsert-burst_at-other d ne = elim (Bool-cases (exists_where (turn_is new.chat_id) turns)) [
    | inl e ↦ rw e (
        update-burst_at d (turn_is new.chat_id) f turns keep
          (λ t hit here. absurd (two_chats new.chat_id d t ne hit here)))
    | inr e ↦
        rw e
          (append-burst_at d turns new (ground (arith, eq_iff d new.chat_id, eq_iff new.chat_id d)))
  ]

  pub upsert-burst_at-own :
      (o : Option String)
      → new.burst_id ≡ o
      → ((u : TurnRow) → (f u).burst_id ≡ o)
      → burst_at new.chat_id (upsert_turn new f turns) ≡ o
  unfolding upsert_turn
  upsert-burst_at-own o fresh written =
      elim (Bool-cases (exists_where (turn_is new.chat_id) turns)) [
        | inl e ↦
            let (t, h, hit) = exists_where-first (turn_is new.chat_id) turns e in
            let found =
              first_where-written (turn_is new.chat_id) (turn_is new.chat_id) f turns t
                (λ u. rw (keep u) refl) h hit in
            rw (e, found) (written t)
        | inr e ↦
            let found =
              first_where-append (turn_is new.chat_id) turns new
                (exists_where-false (turn_is new.chat_id) turns e) (eq_refl new.chat_id) in
            rw (e, found) fresh
      ]

-- A message goes into the burst that its chat's turn is in afterwards,
pub place-own :
    (o : Option String) (turn : Option TurnRow) (a : Arrival) (debounce now : ℕ)
    (generations : List GenerationRow) (turns : List TurnRow)
    → o ≡ burst_at a.chat_id turns
    → let placed = place_message o turn a debounce now generations turns in
      burst_at a.chat_id placed.2 ≡ some placed.0
unfolding place_message
place-own none turn a debounce now generations turns e =
    let burst_id = burst_of a.chat_id a.update_id in
    let revision = max (max_revision a.chat_id generations) (revision_of turn) + 1 in
    upsert-burst_at-own (new_turn a.chat_id (some burst_id) revision (now + debounce) none now) _
      (λ t. refl) turns (some burst_id) refl (λ t. refl)
place-own (some burst_id) turn a debounce now generations turns e =
    update-burst_at a.chat_id (turn_is a.chat_id) _ turns (λ t. refl) (λ t hit here. refl) ∙ sym e

-- which is the one that it was in before, if there was one;
pub place-going :
    (o : Option String) (turn : Option TurnRow) (a : Arrival) (debounce now : ℕ)
    (generations : List GenerationRow) (turns : List TurnRow) (b : String)
    → o ≡ some b
    → (place_message o turn a debounce now generations turns).0 ≡ b
unfolding place_message
place-going none turn a debounce now generations turns b e = absurd (cc e)
place-going (some burst_id) turn a debounce now generations turns b e = cc e

-- the turns of other chats are left alone.
pub place-other :
    (o : Option String) (turn : Option TurnRow) (a : Arrival) (debounce now : ℕ)
    (generations : List GenerationRow) (turns : List TurnRow) (d : String)
    → str_eq d a.chat_id ≡ false
    → burst_at d (place_message o turn a debounce now generations turns).2 ≡ burst_at d turns
unfolding place_message
place-other none turn a debounce now generations turns d ne =
    let burst_id = burst_of a.chat_id a.update_id in
    let revision = max (max_revision a.chat_id generations) (revision_of turn) + 1 in
    upsert-burst_at-other (new_turn a.chat_id (some burst_id) revision (now + debounce) none now) _
      (λ t. refl) turns d ne
place-other (some burst_id) turn a debounce now generations turns d ne =
    update-burst_at d (turn_is a.chat_id) _ turns (λ t. refl)
      (λ t hit here. absurd (two_chats a.chat_id d t ne hit here))
