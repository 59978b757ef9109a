-- ===== src/Onboarding/History/Settled.antt =====
-- What no calls of the store of tomo_core/src/tomo_core/onboarding_store.py undo.
use mathlib.Core.Path.{subst}
use tomo_v.Common.{
  ℕ, String, Bool, true, false, Option, none, some, ◌≡◌, refl, sym, arith, Evolves, Evolves-map,
  Bool-cases, inl, inr, ok, ok-injective, exists_where, first_where, least_by, select_where,
  sort_by,
}
use tomo_v.Onboarding.Ids.{Unicode, safe_error_code}
use tomo_v.Onboarding.Rows.{
  Db, TokenRow, InboxRow, GenerationRow, GenerationStatus, EventRow, EventStatus, ReactionRow,
  ReactionStatus, is_running, is_reserved, reaction_reserved,
}
use tomo_v.Onboarding.Store.Tokens.{
  InstallLink, create_install_link, consume_found, consume_start_token, unusable, token_is,
}
use tomo_v.Onboarding.Store.Generations.{
  fail_generation, recover_interrupted_generations, created_before, is_interrupted,
}
use tomo_v.Onboarding.Store.Deliveries.{
  mark_delivery_sent, mark_delivery_unknown, mark_delivery_suppressed, mark_reaction_sent,
  mark_reaction_failed, mark_reaction_suppressed,
}
use tomo_v.Onboarding.Store.Control.{
  start_update, processing_is, sooner, is_next, claim_next_update, complete_update, retry_found,
  retry_update, reset_interrupted_updates,
}
use tomo_v.Onboarding.Laws.Deliveries.{reserve_delivery-parts, reserve_reaction-parts}
use tomo_v.Onboarding.Sound.{Sound}
use tomo_v.Onboarding.History.{
  Step, links, installs, enqueues, reserves, claims, completes, fails, recovers, cleans,
  reserves_text, sends_text, loses_text, drops_text, reserves_reaction, sends_reaction,
  fails_reaction, drops_reaction, starts_update, ends_update, retries_update, resets_updates,
  Reached, called, History, start, call,
}
use tomo_v.Onboarding.History.Invariant.{Reached-Sound}
use tomo_v.Onboarding.History.Moves.{
  generation_step, event_step, reaction_step, GenerationMoved, EventMoved, ReactionMoved, Moved,
  Moved-refl, Moved-trans,
}
use tomo_v.Onboarding.History.Moves.Grows.{claim-Grows, reserve-Grows}
use tomo_v.Onboarding.History.Moves.Starts.{Alone, Alone-Moved, Grows-Moved, enqueue-Moved}
use tomo_v.Onboarding.History.Moves.Ends.{
  complete-Moved, fail_found-Moved, recover_rows-Moved, cleanup-Moved,
}
use tomo_v.Onboarding.History.Moves.Sends.{
  reserve_text-Moved, add_reaction-Moved, mark_reaction-Moved, settle_event-Moved,
}

pub links-Alone :
    (unicode : Unicode) (sha256 : String → String) (token user_id bot_username : String)
    (ttl_seconds now : ℕ) (db : Db) (answer : InstallLink × Db)
    → create_install_link unicode sha256 token user_id bot_username ttl_seconds now db ≡ ok answer
    → Alone db answer.1
unfolding create_install_link
links-Alone unicode sha256 token user_id bot_username ttl_seconds now db answer h =
    elim (Bool-cases (exists_where (token_is (sha256 token)) db.tokens)) [
      | inl e ↦ absurd (cc (rw e at h))
      | inr e ↦
          subst (λ (a : InstallLink × Db). Alone db a.1) (ok-injective (rw e at h))
            (refl, refl, refl)
    ]

pub installs-Alone :
    (o : Option TokenRow) (token_hash chat_id actor_id : String) (now : ℕ) (db : Db)
    → Alone db (consume_found o token_hash chat_id actor_id now db).1
unfolding consume_found
installs-Alone none token_hash chat_id actor_id now db = (refl, refl, refl)
installs-Alone (some r) token_hash chat_id actor_id now db = elim (Bool-cases (unusable now r)) [
  | inl e ↦ rw e (refl, refl, refl)
  | inr e ↦ rw e (refl, refl, refl)
]

pub start_update-Alone :
    (o : Option InboxRow) (now : ℕ) (db : Db) → Alone db (start_update o now db).1
unfolding start_update
start_update-Alone none now db = (refl, refl, refl)
start_update-Alone (some r) now db = (refl, refl, refl)

pub retry-Alone :
    (o : Option InboxRow) (update_id : ℕ) (error : String) (now : ℕ) (db : Db)
    → Alone db (retry_found o update_id error now db)
unfolding retry_found
retry-Alone none update_id error now db = (refl, refl, refl)
retry-Alone (some r) update_id error now db = (refl, refl, refl)

Step-Moved : {a b : Db} → Sound a → Step a b → Moved a b
unfolding consume_start_token fail_generation recover_interrupted_generations claim_next_update
    retry_update complete_update reset_interrupted_updates mark_delivery_sent mark_delivery_unknown
    mark_delivery_suppressed mark_reaction_sent mark_reaction_failed mark_reaction_suppressed
Step-Moved s (links unicode sha256 token user bot ttl now db answer h) =
    Alone-Moved db answer.1 (links-Alone unicode sha256 token user bot ttl now db answer h)
Step-Moved s (installs sha256 token chat_id actor_id now db) =
    Alone-Moved db (consume_start_token sha256 token chat_id actor_id now db).1 (
      installs-Alone (first_where (token_is (sha256 token)) db.tokens) (sha256 token) chat_id
        actor_id now db)
Step-Moved s (enqueues a debounce now db h) = enqueue-Moved a debounce now db
Step-Moved s (reserves sha256 chat_id tomo_id run_id now db answer h) =
    Grows-Moved db answer.1 (reserve-Grows sha256 chat_id tomo_id run_id now db answer h)
Step-Moved s (claims sha256 now db answer h) =
    Grows-Moved db answer.1 (claim-Grows sha256 now db answer h)
Step-Moved s (completes generation_id revision now db) =
    complete-Moved generation_id revision now db s
Step-Moved s (fails unicode generation_id error_code now max_attempts next db) =
    fail_found-Moved _ generation_id _ now max_attempts next db
Step-Moved s (recovers now db) =
    recover_rows-Moved now (sort_by created_before (select_where is_interrupted db.generations)) db
Step-Moved s (cleans generation_id db) = cleanup-Moved generation_id db
Step-Moved s (reserves_text generation_id revision p now db answer h) =
    let (blank, same) = reserve_delivery-parts generation_id revision p now db answer h in
    subst (λ (a : Bool × Db). Moved db a.1) (sym same)
      (reserve_text-Moved generation_id revision p now db)
Step-Moved s (sends_text generation_id sequence message_id now db) =
    settle_event-Moved generation_id sequence _ db (λ e. refl) (λ e. refl) (λ e. refl)
Step-Moved s (loses_text generation_id sequence now db) =
    settle_event-Moved generation_id sequence _ db (λ e. refl) (λ e. refl) (λ e. refl)
Step-Moved s (drops_text generation_id sequence now db) =
    settle_event-Moved generation_id sequence _ db (λ e. refl) (λ e. refl) (λ e. refl)
Step-Moved s (reserves_reaction generation_id revision target emoji now db answer h) =
    let (given, same) =
      reserve_reaction-parts generation_id revision target emoji now db answer h in
    subst (λ (a : Bool × Db). Moved db a.1) (sym same)
      (add_reaction-Moved generation_id revision target emoji now db)
Step-Moved s (sends_reaction generation_id revision target now db) =
    mark_reaction-Moved ReactionStatus.sent generation_id revision target now db
Step-Moved s (fails_reaction generation_id revision target now db) =
    mark_reaction-Moved ReactionStatus.failed generation_id revision target now db
Step-Moved s (drops_reaction generation_id revision target now db) =
    mark_reaction-Moved ReactionStatus.suppressed generation_id revision target now db
Step-Moved s (starts_update now db) =
    Alone-Moved db (claim_next_update now db).1
      (start_update-Alone (least_by sooner (select_where (is_next now db.inbox) db.inbox)) now db)
Step-Moved s (ends_update update_id now db) = Moved-refl db
Step-Moved s (retries_update unicode update_id error_code now db) =
    Alone-Moved db (retry_update unicode update_id error_code now db) (
      retry-Alone (first_where (processing_is update_id) db.inbox) update_id
        (safe_error_code unicode error_code) now db)
Step-Moved s (resets_updates now db) = Moved-refl db

pub History-Moved : {a b : Db} → Reached a → History a b → Moved a b
History-Moved r (start db) = Moved-refl db
History-Moved r (call {a} {b} {c} step rest) =
    Moved-trans a b c (Step-Moved (Reached-Sound r) step) (History-Moved (called r step) rest)

-- A generation that has ended stays as it ended.
pub record GenerationSettled (g h : GenerationRow) : Type 0 where
  pub same :
      (h.generation_id ≡ g.generation_id) × (h.chat_id ≡ g.chat_id) × (h.revision ≡ g.revision)
  pub stays : is_running g.status ≡ false → h.status ≡ g.status

-- A text that was settled stays as it was settled, and no text is exchanged.
pub record EventSettled (e f : EventRow) : Type 0 where
  pub same : (f.generation_id ≡ e.generation_id) × (f.sequence ≡ e.sequence) × (f.text ≡ e.text)
  pub stays : is_reserved e.status ≡ false → f.status ≡ e.status

pub record ReactionSettled (r s : ReactionRow) : Type 0 where
  pub same : (s.generation_id ≡ r.generation_id) × (s.target_message_id ≡ r.target_message_id)
  pub stays : reaction_reserved r.status ≡ false → s.status ≡ r.status

generation_stays :
    (a b : GenerationStatus) → generation_step a b ≡ true → is_running a ≡ false → b ≡ a
generation_stays a b h ended = ground arith

event_stays : (a b : EventStatus) → event_step a b ≡ true → is_reserved a ≡ false → b ≡ a
event_stays a b h settled = ground arith

reaction_stays :
    (a b : ReactionStatus) → reaction_step a b ≡ true → reaction_reserved a ≡ false → b ≡ a
reaction_stays a b h settled = ground arith

-- Whatever calls but the deletion of an owner follow in a store that calls have built: every generation, text and reaction stays
-- in its place with its identity; a generation that was superseded, completed or failed keeps that
-- status, and so do a text that was sent, suppressed or of unknown fate, and a reaction that was sent,
-- suppressed or failed.
pub History-IsSettled :
    {a b : Db}
    → Reached a
    → History a b
    → Evolves GenerationSettled a.generations b.generations
      × Evolves EventSettled a.events b.events
      × Evolves ReactionSettled a.reactions b.reactions
History-IsSettled {a} {b} r history =
    let (generations, events, reactions) = History-Moved r history in
    (
      Evolves-map GenerationMoved GenerationSettled
          (λ g h m. record {
            same = (m.generation_id, m.chat_id, m.revision);
            stays = generation_stays g.status h.status m.step;
          })
          a.generations b.generations generations,
      Evolves-map EventMoved EventSettled
          (λ e f m. record {
            same = (m.generation_id, m.sequence, m.text);
            stays = event_stays e.status f.status m.step;
          })
          a.events b.events events,
      Evolves-map ReactionMoved ReactionSettled
          (λ x y m. record {
            same = (m.generation_id, m.target);
            stays = reaction_stays x.status y.status m.step;
          })
          a.reactions b.reactions reactions,
    )
