-- ===== src/Onboarding/Named/Parts.antt =====
-- How the statements of tomo_core/src/tomo_core/onboarding_store.py keep the generations that the turns
-- name active.
use mathlib.Core.Path.{subst}
use tomo_v.Common.{
  String, Bool, true, false, none, some, List, [], ◌∷◌, ◌++◌, ◌≡◌, refl, sym, ◌∙◌, ap, arith,
  str_eq, eq_iff, All, All-map, All-In, All-update_where, Keyed, In, update_where, written-In,
  Bool-cases, inl, inr,
}
use tomo_v.Onboarding.Rows.{TurnRow, GenerationRow, is_running, turn_runs, equals}
use tomo_v.Onboarding.Sound.{same_generation}
use tomo_v.Onboarding.Sound.Parts.{generation_only}
use tomo_v.Onboarding.Named.{Names, NamedOf}

In-before : {A : Type 0} (x : A) (l m : List A) → In x l → In x (l ++ m)
In-before x [] m i = elim i [ ]
In-before x (y ∷ ys) m (inl e) = inl e
In-before x (y ∷ ys) m (inr i) = inr (In-before x ys m i)

In-last : {A : Type 0} (x : A) (l : List A) → In x (l ++ x ∷ [])
In-last x [] = inl refl
In-last x (y ∷ ys) = inr (In-last x ys)

-- a row that an UPDATE leaves
pub left-In :
    {A : Type 0} (p : A → Bool) (f : A → A) (l : List A) (x : A)
    → In x l
    → p x ≡ false
    → In x (update_where p f l)
unfolding update_where
left-In p f [] x i miss = elim i [ ]
left-In p f (y ∷ ys) x (inl e) miss =
    let here : p y ≡ false = subst (λ z. p z ≡ false) e miss in rw here (inl e)
left-In p f (y ∷ ys) x (inr i) miss = inr (left-In p f ys x i miss)

-- The generations with an id are of one chat.
abbrev pub OneChat : List GenerationRow → GenerationRow → Type 0
OneChat generations g =
    All (λ x. str_eq x.generation_id g.generation_id ≡ true → x.chat_id ≡ g.chat_id) generations

pub Keyed-OneChat :
    (generations : List GenerationRow) (g : GenerationRow)
    → Keyed same_generation generations
    → In g generations
    → OneChat generations g
Keyed-OneChat generations g keys i =
    All-map generations
      (λ x only same.
        ap (λ (y : GenerationRow). y.chat_id)
          (only (
            ground (
              arith,
              eq_iff x.generation_id g.generation_id,
              eq_iff g.generation_id x.generation_id,
            ))))
      (generation_only generations g keys i)

-- A generation ends and the turn that named it is released.
pub end-Named :
    (g : GenerationRow) (generation_id : String) (p : GenerationRow → Bool)
    (f : GenerationRow → GenerationRow) (h : TurnRow → TurnRow) (turns : List TurnRow)
    (generations : List GenerationRow)
    → OneChat generations g
    → str_eq g.generation_id generation_id ≡ true
    → ((x : GenerationRow) → p x ≡ true → str_eq x.generation_id generation_id ≡ true)
    → ((t : TurnRow) → (h t).active_generation_id ≡ none)
    → NamedOf turns generations
    → NamedOf
        (update_where (turn_runs g.chat_id generation_id) h turns)
        (update_where p f generations)
end-Named g generation_id p f h turns generations one own only released =
    All-update_where (turn_runs g.chat_id generation_id) h turns
      (λ t hit names id e. absurd (cc (released t, e)))
      (λ t miss names id e.
        let (x, i, running, its, chat) = names id e in
        elim (Bool-cases (p x)) [
          | inr spared ↦ (x, left-In p f generations x i spared, running, its, chat)
          | inl hit ↦ absurd (clash t x id e its chat (only x hit) miss i)
        ])
  where
    clash :
        (t : TurnRow) (x : GenerationRow) (id : String)
        → t.active_generation_id ≡ some id
        → x.generation_id ≡ id
        → x.chat_id ≡ t.chat_id
        → str_eq x.generation_id generation_id ≡ true
        → turn_runs g.chat_id generation_id t ≡ false
        → In x generations
        → ⊥
    clash t x id e its chat named miss i =
        let same : x.generation_id ≡ g.generation_id =
          (eq_iff x.generation_id generation_id).0 named
          ∙ sym ((eq_iff g.generation_id generation_id).0 own) in
        let chats : x.chat_id ≡ g.chat_id =
          All-In (λ y. str_eq y.generation_id g.generation_id ≡ true → y.chat_id ≡ g.chat_id)
            generations x i one ((eq_iff x.generation_id g.generation_id).1 same) in
        let active : equals t.active_generation_id generation_id ≡ true = rw (e, sym its) named in
        let there : str_eq t.chat_id g.chat_id ≡ true =
          (eq_iff t.chat_id g.chat_id).1 (sym chat ∙ chats) in
        cc (rw (there, active) at miss)

-- a statement on generations that keeps their ids and chats, and whether they are active
pub kept-Named :
    (p : GenerationRow → Bool) (f : GenerationRow → GenerationRow) (turns : List TurnRow)
    (generations : List GenerationRow)
    → ((g : GenerationRow)
        → ((f g).generation_id ≡ g.generation_id)
          × ((f g).chat_id ≡ g.chat_id)
          × ((f g).status ≡ g.status))
    → NamedOf turns generations
    → NamedOf turns (update_where p f generations)
kept-Named p f turns generations keep = All-map turns λ t names id e.
    let (x, i, running, its, chat) = names id e in
    elim (Bool-cases (p x)) [
      | inr spared ↦ (x, left-In p f generations x i spared, running, its, chat)
      | inl hit ↦
          let (same_id, same_chat, same_status) = keep x in
          (
            f x,
            written-In p f generations x i hit,
            rw same_status running,
            same_id ∙ its,
            same_chat ∙ chat,
          )
    ]

-- A generation starts and is named by the turn of its chat.
pub start-Named :
    (g : GenerationRow) (turns : List TurnRow) (generations : List GenerationRow)
    → NamedOf turns generations
    → NamedOf turns (generations ++ g ∷ [])
start-Named g turns generations = All-map turns λ t names id e.
    let (x, i, running, its, chat) = names id e in
    (x, In-before x generations (g ∷ []) i, running, its, chat)

pub own-Names :
    (g : GenerationRow) (generations : List GenerationRow) (t : TurnRow)
    → is_running g.status ≡ true
    → t.active_generation_id ≡ some g.generation_id
    → g.chat_id ≡ t.chat_id
    → Names (generations ++ g ∷ []) t
own-Names g generations t running named chat id e =
    (g, In-last g generations, running, cc (named, e), chat)
