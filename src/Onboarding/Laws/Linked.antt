-- ===== src/Onboarding/Laws/Linked.antt =====
-- Each active generation is the one that its chat's turn names
-- (tomo_core/src/tomo_core/onboarding_store.py).
use tomo_v.Common.{
  String, Bool, true, false, Option, none, some, List, [], ◌∷◌, ◌++◌, ◌≡◌, refl, arith, str_eq,
  eq_iff, eq_refl, is_empty, All, All-map, All-append, All-update_where, first_where, exists_where,
  update_where, first_where-kept, first_where-written, first_where-before, first_where-hit,
  exists_where-first, exists_where-false, first_where-append, Bool-cases, inl, inr,
}
use mathlib.Core.Path.{subst}
use tomo_v.Onboarding.Rows.{TurnRow, GenerationRow, is_running, equals, turn_is, turn_runs}
use tomo_v.Onboarding.Store.Turns.{upsert_turn}

abbrev pub IsLinked : List TurnRow → GenerationRow → Type 0
IsLinked turns g =
    is_running g.status ≡ true
    → (is_empty g.generation_id ≡ false)
      × ((t : TurnRow) × (first_where (turn_is g.chat_id) turns ≡ some t)
          × (t.active_generation_id ≡ some g.generation_id))

-- All active generations are linked with turns.
abbrev pub Linked : List GenerationRow → List TurnRow → Type 0
Linked generations turns = All (IsLinked turns) generations

-- a turn of another chat is found as before
pub other_turn :
    (c d : String) (f : TurnRow → TurnRow) (turns : List TurnRow) (t : TurnRow)
    → ((u : TurnRow) → (f u).chat_id ≡ u.chat_id)
    → str_eq d c ≡ false
    → first_where (turn_is d) turns ≡ some t
    → first_where (turn_is d) (update_where (turn_is c) f turns) ≡ some t
other_turn c d f turns t keep ne h =
    let hit : str_eq t.chat_id d ≡ true = first_where-hit (turn_is d) turns t h in
    first_where-kept (turn_is d) (turn_is c) f turns t (λ u. rw (keep u) refl) h
      (ground (arith, eq_iff t.chat_id d, eq_iff t.chat_id c, eq_iff d c))

module _ (new : TurnRow) (f : TurnRow → TurnRow) (keep : (u : TurnRow) → (f u).chat_id ≡ u.chat_id)
    (turns : List TurnRow) where
  pub upsert_other :
      (d : String) (t : TurnRow)
      → str_eq d new.chat_id ≡ false
      → first_where (turn_is d) turns ≡ some t
      → first_where (turn_is d) (upsert_turn new f turns) ≡ some t
  unfolding upsert_turn
  upsert_other d t ne h = elim (Bool-cases (exists_where (turn_is new.chat_id) turns)) [
    | inl e ↦ rw e (other_turn new.chat_id d f turns t keep ne h)
    | inr e ↦ rw e (first_where-before (turn_is d) turns (new ∷ []) t h)
  ]

  pub upsert_own :
      (active : Option String)
      → new.active_generation_id ≡ active
      → ((u : TurnRow) → (f u).active_generation_id ≡ active)
      → (t : TurnRow) × (first_where (turn_is new.chat_id) (upsert_turn new f turns) ≡ some t)
        × (t.active_generation_id ≡ active)
  unfolding upsert_turn
  upsert_own active fresh written = elim (Bool-cases (exists_where (turn_is new.chat_id) turns)) [
    | inl e ↦
        let (t, h, hit) = exists_where-first (turn_is new.chat_id) turns e in
        (
          f t,
          rw e (
              first_where-written (turn_is new.chat_id) (turn_is new.chat_id) f turns t
                (λ u. rw (keep u) refl) h hit),
          written t,
        )
    | inr e ↦ (
      new,
      rw e (
          first_where-append (turn_is new.chat_id) turns new
            (exists_where-false (turn_is new.chat_id) turns e) (eq_refl new.chat_id)),
      fresh,
    )
  ]

-- The active generations of a chat that is at rest: there are none.
pub at_rest :
    (chat_id : String) (generations : List GenerationRow) (turns : List TurnRow)
    → ((t : TurnRow) → first_where (turn_is chat_id) turns ≡ some t → t.active_generation_id ≡ none)
    → Linked generations turns
    → All (λ g. is_running g.status ≡ true → str_eq g.chat_id chat_id ≡ false) generations
at_rest chat_id generations turns rest = All-map generations λ g linked running.
    elim (Bool-cases (str_eq g.chat_id chat_id)) [
      | inr e ↦ e
      | inl e ↦
          let (full, (t, h, active)) = linked running in
          let same : g.chat_id ≡ chat_id = (eq_iff g.chat_id chat_id).0 e in
          absurd (cc (active, rest t (subst (λ c. first_where (turn_is c) turns ≡ some t) same h)))
    ]

-- A generation starts in a chat that is at rest, and the chat's turn names it.
pub start-Linked :
    (g : GenerationRow) (generations : List GenerationRow) (turns turns' : List TurnRow)
    → All (λ h. is_running h.status ≡ true → str_eq h.chat_id g.chat_id ≡ false) generations
    → ((d : String) (t : TurnRow)
        → str_eq d g.chat_id ≡ false
        → first_where (turn_is d) turns ≡ some t
        → first_where (turn_is d) turns' ≡ some t)
    → IsLinked turns' g
    → Linked generations turns
    → Linked (generations ++ g ∷ []) turns'
start-Linked g generations turns turns' rest others own linked =
    All-append (IsLinked turns') generations (g ∷ []) (both generations rest linked) (own, tt)
  where
    both :
        (l : List GenerationRow)
        → All (λ h. is_running h.status ≡ true → str_eq h.chat_id g.chat_id ≡ false) l
        → All (IsLinked turns) l
        → All (IsLinked turns') l
    both [] a b = tt
    both (h ∷ hs) a b = (
      λ running.
          let (full, (t, found, active)) = b.0 running in
          (full, (t, others h.chat_id t (a.0 running) found, active)),
      both hs a.1 b.1,
    )

-- A generation ends, and the turn that named it is released.
pub end-Linked :
    (chat_id generation_id : String) (p : GenerationRow → Bool) (f : GenerationRow → GenerationRow)
    (h : TurnRow → TurnRow) (generations : List GenerationRow) (turns : List TurnRow)
    → ((g : GenerationRow) → is_running (f g).status ≡ false)
    → ((g : GenerationRow)
        → is_running g.status ≡ true
        → p g ≡ false
        → str_eq g.generation_id generation_id ≡ false)
    → ((u : TurnRow) → (h u).chat_id ≡ u.chat_id)
    → Linked generations turns
    → Linked (update_where p f generations) (update_where (turn_runs chat_id generation_id) h turns)
end-Linked chat_id generation_id p f h generations turns ends others keep =
    All-update_where p f generations (λ g hit linked running. absurd (cc (ends g, running)))
      (λ g miss linked running.
        let (full, (t, found, active)) = linked running in
        let ne = others g running miss in
        (
          full,
          (
            t,
            first_where-kept (turn_is g.chat_id) (turn_runs chat_id generation_id) h turns t
                (λ u. rw (keep u) refl) found
                (ground (arith, ap_equals t g.generation_id generation_id active)),
            active,
          ),
        ))
  where
    ap_equals :
        (t : TurnRow) (own other : String)
        → t.active_generation_id ≡ some own
        → equals t.active_generation_id other ≡ str_eq own other
    ap_equals t own other e = rw e refl
