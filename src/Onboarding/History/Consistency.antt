-- ===== src/Onboarding/History/Consistency.antt =====
-- No call of the store of tomo_core/src/tomo_core/onboarding_store.py loses sight of a message.
use mathlib.Core.Path.{subst}
use tomo_v.Common.{
  List, least_by, select_where, ℕ, String, Bool, Option, none, some, ◌≡◌, sym, Bool-cases, inl, inr,
  ok, ok-injective, exists_where, first_where, not, ◌||◌,
}
use tomo_v.Onboarding.Ids.{Unicode, safe_error_code}
use tomo_v.Onboarding.Rows.{Db, InboxRow, TurnRow, GenerationRow, TokenRow, current_is}
use tomo_v.Onboarding.Store.Tokens.{
  InstallLink, create_install_link, consume_found, consume_start_token, unusable, token_is,
}
use tomo_v.Onboarding.Store.Deliveries.{
  Piece, reserve_delivery, reserve_reaction, insert_event, event_is, reserve_text, add_reaction,
  settle_event, mark_delivery_sent, mark_delivery_unknown, mark_delivery_suppressed, reaction_is,
  mark_reaction, mark_reaction_sent, mark_reaction_failed, mark_reaction_suppressed,
}
use tomo_v.Onboarding.Store.Control.{
  claim_next_update, start_update, is_next, sooner, processing_is, complete_update, retry_update,
  retry_found, reset_interrupted_updates,
}
use tomo_v.Onboarding.Laws.Deliveries.{reserve_delivery-parts, reserve_reaction-parts}
use tomo_v.Onboarding.Sound.{Sound}
use tomo_v.Onboarding.Kept.{Kept, KeptOf, Consistent}
use tomo_v.Onboarding.Kept.Calls.{
  claim_update-Kept, complete_update-Kept, retry_update-Kept, reset_updates-Kept, cleanup-Kept,
  complete-Kept, fail-Kept, recover-Kept,
}
use tomo_v.Onboarding.Named.{Named, NamedOf}
use tomo_v.Onboarding.Named.Calls.{cleanup-Named, complete-Named, fail-Named, recover-Named}
use tomo_v.Onboarding.Named.Starts.{enqueue-Named, claim-Named, reserve-Named}
use tomo_v.Onboarding.Kept.Starts.{enqueue-Kept, claim-Kept, reserve-Kept}
use tomo_v.Onboarding.History.{
  Step, links, installs, enqueues, reserves, claims, completes, fails, recovers, cleans,
  reserves_text, sends_text, loses_text, drops_text, reserves_reaction, sends_reaction,
  fails_reaction, drops_reaction, starts_update, ends_update, retries_update, resets_updates,
  Reached, created, called,
}
use tomo_v.Onboarding.History.Invariant.{Reached-Sound}

-- The calls for links, texts and reactions leave the turns of the chats alone.
module _ (P : List InboxRow → List TurnRow → List GenerationRow → Type 0) where
  abbrev Holds : Db → Type 0
  Holds db = P db.inbox db.turns db.generations

  link-Holds :
      (unicode : Unicode) (sha256 : String → String) (token user_id bot_username : String)
      (ttl_seconds now : ℕ) (db : Db) (answer : InstallLink × Db)
      → create_install_link unicode sha256 token user_id bot_username ttl_seconds now db ≡ ok answer
      → Holds db
      → Holds answer.1
  unfolding create_install_link
  link-Holds unicode sha256 token user_id bot_username ttl_seconds now db answer h k =
      elim (Bool-cases (exists_where (token_is (sha256 token)) db.tokens)) [
        | inl e ↦ absurd (cc (rw e at h))
        | inr e ↦ subst (λ a. Holds a.1) (ok-injective (rw e at h)) k
      ]

  consume-Holds :
      (o : Option TokenRow) (token_hash chat_id actor_id : String) (now : ℕ) (db : Db)
      → Holds db
      → Holds (consume_found o token_hash chat_id actor_id now db).1
  unfolding consume_found
  consume-Holds none token_hash chat_id actor_id now db k = k
  consume-Holds (some r) token_hash chat_id actor_id now db k = elim (Bool-cases (unusable now r)) [
    | inl e ↦ rw e k
    | inr e ↦ rw e k
  ]

  text-Holds :
      (generation_id : String) (revision : ℕ) (p : Piece) (now : ℕ) (db : Db) (answer : Bool × Db)
      → reserve_delivery generation_id revision p now db ≡ ok answer
      → Holds db
      → Holds answer.1
  unfolding reserve_text insert_event
  text-Holds generation_id revision p now db answer h k =
      subst (λ (a : Bool × Db). Holds a.1)
        (sym (reserve_delivery-parts generation_id revision p now db answer h).1)
        (elim (Bool-cases (exists_where (current_is generation_id revision) db.generations)) [
          | inr e ↦ rw e k
          | inl e ↦ elim (Bool-cases (exists_where (event_is generation_id p.sequence) db.events)) [
            | inl old ↦ rw (e, old) k
            | inr new ↦ rw (e, new) k
          ]
        ])

  reaction-Holds :
      (generation_id : String) (revision : ℕ) (target emoji : String) (now : ℕ) (db : Db)
      (answer : Bool × Db)
      → reserve_reaction generation_id revision target emoji now db ≡ ok answer
      → Holds db
      → Holds answer.1
  unfolding add_reaction
  reaction-Holds generation_id revision target emoji now db answer h k =
      let test =
        not (exists_where (current_is generation_id revision) db.generations)
        || exists_where (reaction_is generation_id revision target) db.reactions in
      subst (λ (a : Bool × Db). Holds a.1)
        (sym (reserve_reaction-parts generation_id revision target emoji now db answer h).1)
        (elim (Bool-cases test) [ inl e ↦ rw e k | inr e ↦ rw e k ])

start_update-Named :
    (o : Option InboxRow) (now : ℕ) (db : Db) → Named db → Named (start_update o now db).1
unfolding start_update
start_update-Named none now db n = n
start_update-Named (some r) now db n = n

retry_found-Named :
    (o : Option InboxRow) (update_id : ℕ) (error : String) (now : ℕ) (db : Db)
    → Named db
    → Named (retry_found o update_id error now db)
unfolding retry_found
retry_found-Named none update_id error now db n = n
retry_found-Named (some r) update_id error now db n = n

Step-Kept : {a b : Db} → Step a b → Sound a → Kept a → Kept b
unfolding consume_start_token mark_delivery_sent mark_delivery_unknown mark_delivery_suppressed
    mark_reaction_sent mark_reaction_failed mark_reaction_suppressed settle_event mark_reaction
Step-Kept (links unicode sha256 token user_id bot_username ttl_seconds now db answer h) s k =
    link-Holds KeptOf unicode sha256 token user_id bot_username ttl_seconds now db answer h k
Step-Kept (installs sha256 token chat_id actor_id now db) s k =
    consume-Holds KeptOf (first_where (token_is (sha256 token)) db.tokens) (sha256 token) chat_id
      actor_id now db k
Step-Kept (enqueues a debounce now db plain) s k = enqueue-Kept a debounce now db s k
Step-Kept (reserves sha256 chat_id tomo_id run_id now db answer h) s k =
    reserve-Kept sha256 chat_id tomo_id run_id now db answer h k
Step-Kept (claims sha256 now db answer h) s k = claim-Kept sha256 now db answer h s k
Step-Kept (completes generation_id revision now db) s k =
    complete-Kept generation_id revision now db k
Step-Kept (fails unicode generation_id error_code now max_attempts next db) s k =
    fail-Kept unicode generation_id error_code now max_attempts next db k
Step-Kept (recovers now db) s k = recover-Kept now db k
Step-Kept (cleans generation_id db) s k = cleanup-Kept generation_id db k
Step-Kept (reserves_text generation_id revision p now db answer h) s k =
    text-Holds KeptOf generation_id revision p now db answer h k
Step-Kept (sends_text generation_id sequence message_id now db) s k = k
Step-Kept (loses_text generation_id sequence now db) s k = k
Step-Kept (drops_text generation_id sequence now db) s k = k
Step-Kept (reserves_reaction generation_id revision target emoji now db answer h) s k =
    reaction-Holds KeptOf generation_id revision target emoji now db answer h k
Step-Kept (sends_reaction generation_id revision target now db) s k = k
Step-Kept (fails_reaction generation_id revision target now db) s k = k
Step-Kept (drops_reaction generation_id revision target now db) s k = k
Step-Kept (starts_update now db) s k = claim_update-Kept now db s k
Step-Kept (ends_update update_id now db) s k = complete_update-Kept update_id now db s k
Step-Kept (retries_update unicode update_id error_code now db) s k =
    retry_update-Kept unicode update_id error_code now db s k
Step-Kept (resets_updates now db) s k = reset_updates-Kept now db s k

Step-Named : {a b : Db} → Step a b → Sound a → Named a → Named b
unfolding consume_start_token mark_delivery_sent mark_delivery_unknown mark_delivery_suppressed
    mark_reaction_sent mark_reaction_failed mark_reaction_suppressed settle_event mark_reaction
    claim_next_update complete_update retry_update reset_interrupted_updates
Step-Named (links unicode sha256 token user_id bot_username ttl_seconds now db answer h) s n =
    link-Holds (λ inbox. NamedOf) unicode sha256 token user_id bot_username ttl_seconds now db
      answer h n
Step-Named (installs sha256 token chat_id actor_id now db) s n =
    consume-Holds (λ inbox. NamedOf) (first_where (token_is (sha256 token)) db.tokens)
      (sha256 token) chat_id actor_id now db n
Step-Named (enqueues a debounce now db plain) s n = enqueue-Named a debounce now db s n
Step-Named (reserves sha256 chat_id tomo_id run_id now db answer h) s n =
    reserve-Named sha256 chat_id tomo_id run_id now db answer h n
Step-Named (claims sha256 now db answer h) s n = claim-Named sha256 now db answer h n
Step-Named (completes generation_id revision now db) s n =
    complete-Named generation_id revision now db s n
Step-Named (fails unicode generation_id error_code now max_attempts next db) s n =
    fail-Named unicode generation_id error_code now max_attempts next db s n
Step-Named (recovers now db) s n = recover-Named now db s n
Step-Named (cleans generation_id db) s n = cleanup-Named generation_id db n
Step-Named (reserves_text generation_id revision p now db answer h) s n =
    text-Holds (λ inbox. NamedOf) generation_id revision p now db answer h n
Step-Named (sends_text generation_id sequence message_id now db) s n = n
Step-Named (loses_text generation_id sequence now db) s n = n
Step-Named (drops_text generation_id sequence now db) s n = n
Step-Named (reserves_reaction generation_id revision target emoji now db answer h) s n =
    reaction-Holds (λ inbox. NamedOf) generation_id revision target emoji now db answer h n
Step-Named (sends_reaction generation_id revision target now db) s n = n
Step-Named (fails_reaction generation_id revision target now db) s n = n
Step-Named (drops_reaction generation_id revision target now db) s n = n
Step-Named (starts_update now db) s n =
    start_update-Named (least_by sooner (select_where (is_next now db.inbox) db.inbox)) now db n
Step-Named (ends_update update_id now db) s n = n
Step-Named (retries_update unicode update_id error_code now db) s n =
    retry_found-Named (first_where (processing_is update_id) db.inbox) update_id
      (safe_error_code unicode error_code) now db n
Step-Named (resets_updates now db) s n = n

Reached-Kept : {db : Db} → Reached db → Kept db
Reached-Kept created = record { placed = tt; matched = tt }
Reached-Kept (called r step) = Step-Kept step (Reached-Sound r) (Reached-Kept r)

Reached-Named : {db : Db} → Reached db → Named db
Reached-Named created = tt
Reached-Named (called r step) = Step-Named step (Reached-Sound r) (Reached-Named r)

-- After any calls of the store but the deletion of an owner: every message that is not answered is in
-- the burst that the turn of its chat is in, and the burst that a turn is in has such a message; a
-- generation that a turn names is active in the turn's chat, every active generation is the one that
-- the turn of its chat names, it answers the burst that the turn is in, if it is in one, and every
-- message of that burst that is not answered is among its inputs; a message that is completed was an
-- input of a completed generation, or carries the error that it was given up with; and messages never
-- enter the queue of control updates.
pub Reached-Consistent : {db : Db} → Reached db → Consistent db
Reached-Consistent r = (Reached-Sound r, Reached-Kept r, Reached-Named r)
