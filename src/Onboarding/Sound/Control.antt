-- ===== src/Onboarding/Sound/Control.antt =====
-- The operations on control updates keep the tables sound
-- (tomo_core/src/tomo_core/onboarding_store.py).
use mathlib.Core.Path.{subst}
use tomo_v.Common.{
  ℕ, String, Bool, true, false, Option, none, some, List, ◌≡◌, refl, sym, arith, eq_iff, All,
  All-map, All-both, All-update_where, Keyed-update_where, Keyed-only, select_where,
  select_where-In, least_by, least_by-In, first_where, update_where, Bool-cases, Option-cases, inl,
  inr,
}
use tomo_v.Onboarding.Ids.{Unicode, safe_error_code}
use tomo_v.Onboarding.Rows.{
  Db, InboxRow, TurnRow, GenerationRow, InputRow, is_message, is_control, is_processing, update_is,
  equals,
}
use tomo_v.Onboarding.Store.Control.{
  claim_next_update, start_update, start_row, is_next, sooner, complete_update, processing_is,
  retry_update, retry_found, reset_interrupted_updates,
}
use tomo_v.Onboarding.Store.Claim.{is_waiting}
use tomo_v.Onboarding.Sound.Parts.{exists_where-keeps}
use tomo_v.Onboarding.Sound.{Sound, SoundOf, IsRow, IsInput, IsAnswered, same_update}

-- A statement on updates that are no messages, which writes neither their chat nor their burst.
module _ (p : InboxRow → Bool) (f : InboxRow → InboxRow)
    (update : (r : InboxRow) → (f r).update_id ≡ r.update_id)
    (chat : (r : InboxRow) → (f r).chat_id ≡ r.chat_id)
    (burst : (r : InboxRow) → (f r).burst_id ≡ r.burst_id)
    (kind : (r : InboxRow) → (f r).update_kind ≡ r.update_kind) where
  IsRow-kept : (r : InboxRow) → is_message r ≡ false → IsRow r → IsRow (f r)
  IsRow-kept r other x = record {
    chat = rw (chat r) x.chat;
    burst = λ b e. rw (chat r) (x.burst b (rw (burst r) at e));
    message = λ b e. absurd (cc (other, x.message b (rw (burst r) at e)));
    queue = λ message. absurd (cc (other, rw (kind r) at message));
  }

  no_burst :
      (r : InboxRow) (g : GenerationRow)
      → is_message r ≡ false
      → IsRow r
      → equals (f r).burst_id g.burst_id ≡ true
      → ⊥
  no_burst r g other x e = elim (Option-cases r.burst_id) [
    | inl n ↦ cc (subst (λ o. equals o g.burst_id ≡ true) n (rw (burst r) at e))
    | inr (b, n) ↦ cc (other, x.message b n)
  ]

  asks :
      (t : TurnRow) (b : String) (r : InboxRow)
      → is_waiting t.chat_id b r ≡ true
      → is_message r ≡ true
  unfolding is_waiting
  asks t b r waits = ground arith

  control_update :
      (inbox : List InboxRow) (turns : List TurnRow) (generations : List GenerationRow)
      (inputs : List InputRow)
      → All (λ r. p r ≡ true → is_message r ≡ false) inbox
      → SoundOf inbox turns generations inputs
      → SoundOf (update_where p f inbox) turns generations inputs
  control_update inbox turns generations inputs others s = record {
    update_keys =
        Keyed-update_where same_update p f inbox (λ r q. rw (update r) refl)
          (λ r q. rw (update q) refl) s.update_keys;
    turn_keys = s.turn_keys;
    generation_keys = s.generation_keys;
    linked = s.linked;
    rows =
        All-update_where p f inbox (λ r hit (other, x). IsRow-kept r (other hit) x)
          (λ r miss (other, x). x)
          (All-both (λ r. p r ≡ true → is_message r ≡ false) IsRow inbox others s.rows);
    bursts = s.bursts;
    waiting =
        All-map turns
          (λ t message b e.
            exists_where-keeps (is_waiting t.chat_id b) p f inbox
              (All-map inbox (λ r other waits hit. absurd (cc (other hit, asks t b r waits)))
                others)
              (message b e))
          s.waiting;
    named = s.named;
    covered =
        All-map generations
          (λ g covered running.
            All-update_where p f inbox
              (λ r hit ((other, x), input) e waiting. absurd (no_burst r g (other hit) x e))
              (λ r miss ((other, x), input). input)
              (All-both (λ r. (p r ≡ true → is_message r ≡ false) × IsRow r) (IsInput inputs g)
                inbox (All-both (λ r. p r ≡ true → is_message r ≡ false) IsRow inbox others s.rows)
                (covered running)))
          s.covered;
    answered =
        All-update_where p f inbox
          (λ r hit (other, x) message. absurd (cc (other hit, rw (kind r) at message)))
          (λ r miss (other, x). x)
          (All-both (λ r. p r ≡ true → is_message r ≡ false) (IsAnswered generations inputs) inbox
            others s.answered);
  }

message-not-control : (r : InboxRow) → is_control r ≡ true → is_message r ≡ false
message-not-control r h = ground (
  arith,
  eq_iff r.update_kind "control",
  eq_iff r.update_kind "message",
  eq_iff "message" "control",
)

busy-not-message : (r : InboxRow) → IsRow r → is_processing r.status ≡ true → is_message r ≡ false
busy-not-message r x busy = elim (Bool-cases (is_message r)) [
  | inl e ↦ absurd (cc (busy, x.queue e))
  | inr e ↦ e
]

pub processing-not-message :
    (p : InboxRow → Bool) (inbox : List InboxRow)
    → ((r : InboxRow) → p r ≡ true → is_processing r.status ≡ true)
    → All IsRow inbox
    → All (λ r. p r ≡ true → is_message r ≡ false) inbox
processing-not-message p inbox busy = All-map inbox λ r x hit. busy-not-message r x (busy r hit)

-- The row that is claimed is the only one with its id.
pub started-not-message :
    (now : ℕ) (r : InboxRow) (db : Db)
    → least_by sooner (select_where (is_next now db.inbox) db.inbox) ≡ some r
    → Sound db
    → All (λ q. update_is r.update_id q ≡ true → is_message q ≡ false) db.inbox
unfolding is_next
started-not-message now r db h s =
    let (i, next) =
      select_where-In (is_next now db.inbox) db.inbox r
        (least_by-In sooner (select_where (is_next now db.inbox) db.inbox) r h) in
    let control : is_message r ≡ false = message-not-control r (ground arith) in
    All-map db.inbox
      (λ q only hit. subst (λ z. is_message z ≡ false) (sym (only (ground arith))) control)
      (Keyed-only same_update (λ x y. ground arith) db.inbox r s.update_keys i)

pub claim_update-Sound : (now : ℕ) (db : Db) → Sound db → Sound (claim_next_update now db).1
unfolding claim_next_update start_update
claim_update-Sound now db s =
    elim (Option-cases (least_by sooner (select_where (is_next now db.inbox) db.inbox))) [
      | inl e ↦ rw (e, start_update) s
      | inr (r, e) ↦
          rw (e, start_update)
            (control_update (update_is r.update_id) (start_row now) (λ q. refl) (λ q. refl)
              (λ q. refl) (λ q. refl) db.inbox db.turns db.generations db.inputs
              (started-not-message now r db e s) s)
    ]

pub complete_update-Sound :
    (update_id now : ℕ) (db : Db) → Sound db → Sound (complete_update update_id now db)
unfolding complete_update
complete_update-Sound update_id now db s =
    control_update (processing_is update_id) _ (λ q. refl) (λ q. refl) (λ q. refl) (λ q. refl)
      db.inbox db.turns db.generations db.inputs
      (processing-not-message (processing_is update_id) db.inbox (λ r hit. ground arith) s.rows) s

retry_found-Sound :
    (o : Option InboxRow) (update_id : ℕ) (error : String) (now : ℕ) (db : Db)
    → Sound db
    → Sound (retry_found o update_id error now db)
unfolding retry_found
retry_found-Sound none update_id error now db s = s
retry_found-Sound (some row) update_id error now db s =
    control_update (processing_is update_id) _ (λ q. refl) (λ q. refl) (λ q. refl) (λ q. refl)
      db.inbox db.turns db.generations db.inputs
      (processing-not-message (processing_is update_id) db.inbox (λ r hit. ground arith) s.rows) s

pub retry_update-Sound :
    (unicode : Unicode) (update_id : ℕ) (error_code : String) (now : ℕ) (db : Db)
    → Sound db
    → Sound (retry_update unicode update_id error_code now db)
unfolding retry_update
retry_update-Sound unicode update_id error_code now db s =
    retry_found-Sound (first_where (processing_is update_id) db.inbox) update_id
      (safe_error_code unicode error_code) now db s

pub reset_updates-Sound :
    (now : ℕ) (db : Db) → Sound db → Sound (reset_interrupted_updates now db).1
unfolding reset_interrupted_updates
reset_updates-Sound now db s =
    control_update (λ r. is_processing r.status) _ (λ q. refl) (λ q. refl) (λ q. refl) (λ q. refl)
      db.inbox db.turns db.generations db.inputs
      (processing-not-message (λ r. is_processing r.status) db.inbox (λ r hit. hit) s.rows) s
