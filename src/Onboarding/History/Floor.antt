-- ===== src/Onboarding/History/Floor.antt =====
-- An abstract view of the store of tomo_core/src/tomo_core/onboarding_store.py: who has the floor in
-- a chat, and the steps that are allowed from there.
pub mod Calls
use mathlib.Core.Path.{subst}
use tomo_v.Common.{
  String, Bool, true, false, ◌&&◌, ◌||◌, Option, none, some, List, [], ◌∷◌, ◌++◌, ◌≡◌, refl, sym,
  ◌∙◌, ap, arith, str_eq, eq_iff, All, All-map, All-both, All-update_where, Keyed, first_where,
  first_where-All, first_where-append, exists_where-false, update_where, Bool-cases, inl, inr, ◌⊎◌,
  ok,
}
use tomo_v.Onboarding.Rows.{Db, GenerationRow, TurnRow, is_running, turn_is}
use tomo_v.Onboarding.Store.Turns.{generation_clashes, insert_generation}
use tomo_v.Onboarding.Laws.Linked.{IsLinked, Linked}
use tomo_v.Onboarding.Sound.{Sound, same_generation}
use tomo_v.Onboarding.Sound.Claims.{insert_generation-parts}

abbrev pub speaks : String → GenerationRow → Bool
speaks chat_id g = str_eq g.chat_id chat_id && is_running g.status

abbrev id_of : Option GenerationRow → Option String
id_of none = none
id_of (some g) = some g.generation_id

-- the generation that has the floor
abbrev pub floor_of : String → List GenerationRow → Option String
floor_of chat_id l = id_of (first_where (speaks chat_id) l)

pub data FloorStep : Option String → Option String → Type 0 where
  keeps : (o : Option String) → FloorStep o o
  takes : (generation_id : String) → FloorStep none (some generation_id)
  yields : (generation_id : String) → FloorStep (some generation_id) none

-- the floor is kept or given up
abbrev pub Ends : Option String → Option String → Type 0
Ends o q = (q ≡ o) ⊎ (q ≡ none)

pub Ends-FloorStep : (o q : Option String) → Ends o q → FloorStep o q
Ends-FloorStep o q (inl e) = subst (λ z. FloorStep o z) (sym e) (keeps o)
Ends-FloorStep none q (inr e) = subst (λ z. FloorStep none z) (sym e) (keeps none)
Ends-FloorStep (some g) q (inr e) = subst (λ z. FloorStep (some g) z) (sym e) (yields g)

pub Ends-trans : (a b c : Option String) → Ends a b → Ends b c → Ends a c
Ends-trans a b c h (inr e) = inr e
Ends-trans a b c (inl d) (inl e) = inl (e ∙ d)
Ends-trans a b c (inr d) (inl e) = inr (e ∙ d)

-- Nobody has the floor of the chat.
abbrev Quiet : String → List GenerationRow → Type 0
Quiet chat_id l = All (λ g. speaks chat_id g ≡ false) l

-- At most one has it.
abbrev pub Lone : String → List GenerationRow → Type 0
Lone chat_id [] = Unit
Lone chat_id (g ∷ gs) = (speaks chat_id g ≡ true → Quiet chat_id gs) × Lone chat_id gs

Quiet-floor_of :
    (chat_id : String) (l : List GenerationRow) → Quiet chat_id l → floor_of chat_id l ≡ none
Quiet-floor_of chat_id l quiet = rw (first_where-All (speaks chat_id) l quiet) refl

module _ (chat_id : String) (p : GenerationRow → Bool) (f : GenerationRow → GenerationRow)
    (same : (g : GenerationRow) → (f g).generation_id ≡ g.generation_id)
    (chat : (g : GenerationRow) → (f g).chat_id ≡ g.chat_id)
    (ends : (g : GenerationRow)
      → is_running g.status ≡ false
      → is_running (f g).status ≡ false) where
  written-silent : (g : GenerationRow) → speaks chat_id g ≡ false → speaks chat_id (f g) ≡ false
  written-silent g h = elim (Bool-cases (is_running g.status)) [
    | inr e ↦ rw (ends g e) (ground arith)
    | inl e ↦ rw (chat g) (ground arith)
  ]

  -- A statement that starts no generation lets the floor be kept or given up.
  pub update-Ends :
      (l : List GenerationRow)
      → Lone chat_id l
      → Ends (floor_of chat_id l) (floor_of chat_id (update_where p f l))
  unfolding update_where first_where
  update-Ends [] lone = inl refl
  update-Ends (g ∷ gs) (only, lone) = elim (Bool-cases (speaks chat_id g)) [
    | inr miss ↦ elim (Bool-cases (p g)) [
      | inl hit ↦ rw (hit, miss, written-silent g miss) (update-Ends gs lone)
      | inr other ↦ rw (other, miss) (update-Ends gs lone)
    ]
    | inl speaking ↦ elim (Bool-cases (p g)) [
      | inr other ↦ rw (other, speaking) (inl refl)
      | inl hit ↦ elim (Bool-cases (speaks chat_id (f g))) [
        | inl still ↦ rw (hit, speaking, still) (inl (ap some (same g)))
        | inr silent ↦
            rw (hit, speaking, silent)
              (inr (
                Quiet-floor_of chat_id (update_where p f gs) (
                  All-update_where p f gs (λ x _ q. written-silent x q) (λ x _ q. q)
                    (only speaking))))
      ]
    ]
  ]

other-append :
    (chat_id : String) (l : List GenerationRow) (g : GenerationRow)
    → speaks chat_id g ≡ false
    → floor_of chat_id (l ++ g ∷ []) ≡ floor_of chat_id l
unfolding first_where
other-append chat_id [] g miss = rw miss refl
other-append chat_id (x ∷ xs) g miss = elim (Bool-cases (speaks chat_id x)) [
  | inl e ↦ rw e refl
  | inr e ↦ rw e (other-append chat_id xs g miss)
]

-- An active generation is inserted only where nobody has the floor.
pub insert-FloorStep :
    (chat_id : String) (g : GenerationRow) (l after : List GenerationRow)
    → is_running g.status ≡ true
    → insert_generation g l ≡ ok after
    → FloorStep (floor_of chat_id l) (floor_of chat_id after)
unfolding generation_clashes
insert-FloorStep chat_id g l after running inserted =
    let (free, made) = insert_generation-parts g l after inserted in
    elim (Bool-cases (speaks chat_id g)) [
      | inr miss ↦ rw (made, other-append chat_id l g miss) (keeps (floor_of chat_id l))
      | inl speaking ↦
          let quiet : Quiet chat_id l =
            All-map l
              (λ x clash. ground (
                arith,
                eq_iff g.chat_id chat_id,
                eq_iff x.chat_id chat_id,
                eq_iff x.chat_id g.chat_id,
              ))
              (exists_where-false (generation_clashes g) l free) in
          rw
            (
              made,
              Quiet-floor_of chat_id l quiet,
              first_where-append (speaks chat_id) l g quiet speaking,
            )
            (takes g.generation_id)
    ]

only_speaker :
    (chat_id : String) (turns : List TurnRow) (g h : GenerationRow)
    → IsLinked turns g
    → IsLinked turns h
    → same_generation g h ≡ false
    → speaks chat_id g ≡ true
    → speaks chat_id h ≡ false
only_speaker chat_id turns g h link other apart speaking = elim (Bool-cases (speaks chat_id h)) [
  | inr e ↦ e
  | inl e ↦
      let (full, (t, found, active)) = link (ground arith) in
      let (full', (u, found', active')) = other (ground arith) in
      let chat : h.chat_id ≡ g.chat_id =
        (eq_iff h.chat_id chat_id).0 (ground arith)
        ∙ sym ((eq_iff g.chat_id chat_id).0 (ground arith)) in
      let turn : some u ≡ some t =
        sym found' ∙ ap (λ c. first_where (turn_is c) turns) chat ∙ found in
      let same_turn : u ≡ t = cc turn in
      let named : some h.generation_id ≡ some g.generation_id =
        sym active' ∙ ap (λ (z : TurnRow). z.active_generation_id) same_turn ∙ active in
      let same : h.generation_id ≡ g.generation_id = cc named in
      absurd (cc (apart, (eq_iff g.generation_id h.generation_id).1 (sym same)))
]

-- In tables that are sound, at most one generation of a chat is active.
pub linked-Lone :
    (chat_id : String) (l : List GenerationRow) (turns : List TurnRow)
    → Linked l turns
    → Keyed same_generation l
    → Lone chat_id l
linked-Lone chat_id [] turns linked keys = tt
linked-Lone chat_id (g ∷ gs) turns (link, linked) (apart, keys) = (
  λ speaking.
      All-map gs (λ h (link', ne). only_speaker chat_id turns g h link link' ne speaking)
        (All-both (IsLinked turns) (λ h. same_generation g h ≡ false) gs linked apart),
  linked-Lone chat_id gs turns linked keys,
)
