-- ===== src/Onboarding/History/Moves.antt =====
-- The lives of generations, texts and reactions as diagrams over their statuses
-- (tomo_core/src/tomo_core/onboarding_store.py).
pub mod Grows
pub mod Starts
pub mod Ends
pub mod Sends
use tomo_v.Common.{
  Bool, true, false, List, ◌≡◌, refl, ◌∙◌, arith, All, All-map, All-of, Evolves, Evolves-refl,
  Evolves-update, Evolves-trans, update_where,
}
use tomo_v.Onboarding.Rows.{
  Db, GenerationRow, GenerationStatus, EventRow, EventStatus, ReactionRow, ReactionStatus,
}

-- what may become of a generation's status in one call
abbrev pub generation_step : GenerationStatus → GenerationStatus → Bool
generation_step GenerationStatus.active _ = true
generation_step GenerationStatus.superseded GenerationStatus.superseded = true
generation_step GenerationStatus.completed GenerationStatus.completed = true
generation_step GenerationStatus.failed GenerationStatus.failed = true
generation_step _ _ = false

-- what may become of a text
abbrev pub event_step : EventStatus → EventStatus → Bool
event_step EventStatus.reserved _ = true
event_step EventStatus.sent EventStatus.sent = true
event_step EventStatus.unknown EventStatus.unknown = true
event_step EventStatus.suppressed EventStatus.suppressed = true
event_step _ _ = false

-- what may become of a reaction
abbrev pub reaction_step : ReactionStatus → ReactionStatus → Bool
reaction_step ReactionStatus.reserved _ = true
reaction_step ReactionStatus.sent ReactionStatus.sent = true
reaction_step ReactionStatus.failed ReactionStatus.failed = true
reaction_step ReactionStatus.suppressed ReactionStatus.suppressed = true
reaction_step _ _ = false

pub record GenerationMoved (g h : GenerationRow) : Type 0 where
  pub generation_id : h.generation_id ≡ g.generation_id
  pub chat_id : h.chat_id ≡ g.chat_id
  pub revision : h.revision ≡ g.revision
  pub step : generation_step g.status h.status ≡ true

pub record EventMoved (e f : EventRow) : Type 0 where
  pub generation_id : f.generation_id ≡ e.generation_id
  pub sequence : f.sequence ≡ e.sequence
  pub text : f.text ≡ e.text
  pub step : event_step e.status f.status ≡ true

pub record ReactionMoved (r s : ReactionRow) : Type 0 where
  pub generation_id : s.generation_id ≡ r.generation_id
  pub target : s.target_message_id ≡ r.target_message_id
  pub step : reaction_step r.status s.status ≡ true

-- Every row of the three tables takes at most one step of its diagram, and none is lost.
abbrev pub Moved : Db → Db → Type 0
Moved a b =
    Evolves GenerationMoved a.generations b.generations
    × Evolves EventMoved a.events b.events
    × Evolves ReactionMoved a.reactions b.reactions

pub generation_step_refl : (s : GenerationStatus) → generation_step s s ≡ true
generation_step_refl s = ground arith

event_step_refl : (s : EventStatus) → event_step s s ≡ true
event_step_refl s = ground arith

reaction_step_refl : (s : ReactionStatus) → reaction_step s s ≡ true
reaction_step_refl s = ground arith

pub GenerationMoved-refl : (g : GenerationRow) → GenerationMoved g g
GenerationMoved-refl g = record {
  generation_id = refl;
  chat_id = refl;
  revision = refl;
  step = generation_step_refl g.status;
}

pub EventMoved-refl : (e : EventRow) → EventMoved e e
EventMoved-refl e = record {
  generation_id = refl;
  sequence = refl;
  text = refl;
  step = event_step_refl e.status;
}

pub ReactionMoved-refl : (r : ReactionRow) → ReactionMoved r r
ReactionMoved-refl r = record {
  generation_id = refl;
  target = refl;
  step = reaction_step_refl r.status;
}

pub generations-same : (l : List GenerationRow) → Evolves GenerationMoved l l
generations-same l = Evolves-refl GenerationMoved GenerationMoved-refl l

pub events-same : (l : List EventRow) → Evolves EventMoved l l
events-same l = Evolves-refl EventMoved EventMoved-refl l

pub reactions-same : (l : List ReactionRow) → Evolves ReactionMoved l l
reactions-same l = Evolves-refl ReactionMoved ReactionMoved-refl l

pub Moved-refl : (db : Db) → Moved db db
Moved-refl db =
    (generations-same db.generations, events-same db.events, reactions-same db.reactions)

-- Two steps of a diagram are one, since only the first status has any.
generation_step_trans :
    (a b c : GenerationStatus)
    → generation_step a b ≡ true
    → generation_step b c ≡ true
    → generation_step a c ≡ true
generation_step_trans a b c h k = ground arith

event_step_trans :
    (a b c : EventStatus) → event_step a b ≡ true → event_step b c ≡ true → event_step a c ≡ true
event_step_trans a b c h k = ground arith

reaction_step_trans :
    (a b c : ReactionStatus)
    → reaction_step a b ≡ true
    → reaction_step b c ≡ true
    → reaction_step a c ≡ true
reaction_step_trans a b c h k = ground arith

pub Moved-trans : (a b c : Db) → Moved a b → Moved b c → Moved a c
Moved-trans a b c h k = (
  Evolves-trans GenerationMoved GenerationMoved GenerationMoved
      (λ x y z p q. record {
        generation_id = q.generation_id ∙ p.generation_id;
        chat_id = q.chat_id ∙ p.chat_id;
        revision = q.revision ∙ p.revision;
        step = generation_step_trans x.status y.status z.status p.step q.step;
      })
      a.generations b.generations c.generations h.0 k.0,
  Evolves-trans EventMoved EventMoved EventMoved
      (λ x y z p q. record {
        generation_id = q.generation_id ∙ p.generation_id;
        sequence = q.sequence ∙ p.sequence;
        text = q.text ∙ p.text;
        step = event_step_trans x.status y.status z.status p.step q.step;
      })
      a.events b.events c.events h.1 k.1,
  Evolves-trans ReactionMoved ReactionMoved ReactionMoved
      (λ x y z p q. record {
        generation_id = q.generation_id ∙ p.generation_id;
        target = q.target ∙ p.target;
        step = reaction_step_trans x.status y.status z.status p.step q.step;
      })
      a.reactions b.reactions c.reactions h.2 k.2,
)

-- a statement on generations that are active
pub generations-ended :
    (p : GenerationRow → Bool) (f : GenerationRow → GenerationRow) (l : List GenerationRow)
    → ((g : GenerationRow) → (f g).generation_id ≡ g.generation_id)
    → ((g : GenerationRow) → (f g).chat_id ≡ g.chat_id)
    → ((g : GenerationRow) → (f g).revision ≡ g.revision)
    → All (λ g. p g ≡ true → generation_step g.status (f g).status ≡ true) l
    → Evolves GenerationMoved l (update_where p f l)
generations-ended p f l a b c steps = Evolves-update GenerationMoved GenerationMoved-refl p f l (
    All-map l
      (λ g step hit. record { generation_id = a g; chat_id = b g; revision = c g; step = step hit })
      steps)

-- a statement on texts that are reserved
pub events-settled :
    (p : EventRow → Bool) (f : EventRow → EventRow) (l : List EventRow)
    → ((e : EventRow) → (f e).generation_id ≡ e.generation_id)
    → ((e : EventRow) → (f e).sequence ≡ e.sequence)
    → ((e : EventRow) → (f e).text ≡ e.text)
    → ((e : EventRow) → p e ≡ true → event_step e.status (f e).status ≡ true)
    → Evolves EventMoved l (update_where p f l)
events-settled p f l a b c steps = Evolves-update EventMoved EventMoved-refl p f l (
    All-of (λ e hit. record { generation_id = a e; sequence = b e; text = c e; step = steps e hit })
      l)
