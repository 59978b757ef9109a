-- ===== src/Onboarding/History/Invariant.antt =====
-- What holds of the store of tomo_core/src/tomo_core/onboarding_store.py after any calls.
use mathlib.Core.Path.{subst}
use tomo_v.Common.{
  ℕ, String, Bool, Option, none, some, ◌≡◌, sym, Bool-cases, inl, inr, ok, ok-injective,
  exists_where, first_where, not, ◌||◌,
}
use tomo_v.Onboarding.Ids.{Unicode}
use tomo_v.Onboarding.Rows.{Db, TokenRow, current_is}
use tomo_v.Onboarding.Store.Tokens.{
  InstallLink, create_install_link, consume_found, consume_start_token, unusable, token_is,
}
use tomo_v.Onboarding.Store.Deliveries.{
  Piece, insert_event, event_is, reserve_text, add_reaction, settle_event, mark_delivery_sent,
  mark_delivery_unknown, mark_delivery_suppressed, reaction_is, mark_reaction, mark_reaction_sent,
  mark_reaction_failed, mark_reaction_suppressed,
}
use tomo_v.Onboarding.Laws.Deliveries.{reserve_delivery-parts, reserve_reaction-parts}
use tomo_v.Onboarding.Sound.{Sound}
use tomo_v.Onboarding.Sound.Control.{
  claim_update-Sound, complete_update-Sound, retry_update-Sound, reset_updates-Sound,
}
use tomo_v.Onboarding.Sound.Completing.{complete-Sound}
use tomo_v.Onboarding.Sound.Failing.{fail-Sound, recover-Sound, cleanup-Sound}
use tomo_v.Onboarding.Sound.Claims.{claim-Sound, reserve-Sound}
use tomo_v.Onboarding.Sound.Enqueue.{enqueue-Sound}
use tomo_v.Onboarding.History.{
  Step, links, installs, enqueues, reserves, claims, completes, fails, recovers, cleans,
  reserves_text, sends_text, loses_text, drops_text, reserves_reaction, sends_reaction,
  fails_reaction, drops_reaction, starts_update, ends_update, retries_update, resets_updates,
  Reached, created, called,
}

link-Sound :
    (unicode : Unicode) (sha256 : String → String) (token user_id bot_username : String)
    (ttl_seconds now : ℕ) (db : Db) (answer : InstallLink × Db)
    → create_install_link unicode sha256 token user_id bot_username ttl_seconds now db ≡ ok answer
    → Sound db
    → Sound answer.1
unfolding create_install_link
link-Sound unicode sha256 token user_id bot_username ttl_seconds now db answer h s =
    elim (Bool-cases (exists_where (token_is (sha256 token)) db.tokens)) [
      | inl e ↦ absurd (cc (rw e at h))
      | inr e ↦ subst (λ a. Sound a.1) (ok-injective (rw e at h)) s
    ]

consume-Sound :
    (o : Option TokenRow) (token_hash chat_id actor_id : String) (now : ℕ) (db : Db)
    → Sound db
    → Sound (consume_found o token_hash chat_id actor_id now db).1
unfolding consume_found
consume-Sound none token_hash chat_id actor_id now db s = s
consume-Sound (some r) token_hash chat_id actor_id now db s = elim (Bool-cases (unusable now r)) [
  | inl e ↦ rw e s
  | inr e ↦ rw e s
]

text-Sound :
    (generation_id : String) (revision : ℕ) (p : Piece) (now : ℕ) (db : Db)
    → Sound db
    → Sound (reserve_text generation_id revision p now db).1
unfolding reserve_text insert_event
text-Sound generation_id revision p now db s =
    elim (Bool-cases (exists_where (current_is generation_id revision) db.generations)) [
      | inr e ↦ rw e s
      | inl e ↦ elim (Bool-cases (exists_where (event_is generation_id p.sequence) db.events)) [
        | inl old ↦ rw (e, old) s
        | inr new ↦ rw (e, new) s
      ]
    ]

reaction-Sound :
    (generation_id : String) (revision : ℕ) (target emoji : String) (now : ℕ) (db : Db)
    → Sound db
    → Sound (add_reaction generation_id revision target emoji now db).1
unfolding add_reaction
reaction-Sound generation_id revision target emoji now db s =
    let test =
      not (exists_where (current_is generation_id revision) db.generations)
      || exists_where (reaction_is generation_id revision target) db.reactions in
    elim (Bool-cases test) [ inl e ↦ rw e s | inr e ↦ rw e s ]

Step-Sound : {a b : Db} → Step a b → Sound a → Sound b
unfolding consume_start_token mark_delivery_sent mark_delivery_unknown mark_delivery_suppressed
    mark_reaction_sent mark_reaction_failed mark_reaction_suppressed settle_event mark_reaction
Step-Sound (links unicode sha256 token user_id bot_username ttl_seconds now db answer h) s =
    link-Sound unicode sha256 token user_id bot_username ttl_seconds now db answer h s
Step-Sound (installs sha256 token chat_id actor_id now db) s =
    consume-Sound (first_where (token_is (sha256 token)) db.tokens) (sha256 token) chat_id actor_id
      now db s
Step-Sound (enqueues a debounce now db plain) s = enqueue-Sound a debounce now db plain s
Step-Sound (reserves sha256 chat_id tomo_id run_id now db answer h) s =
    reserve-Sound sha256 chat_id tomo_id run_id now db answer h s
Step-Sound (claims sha256 now db answer h) s = claim-Sound sha256 now db answer h s
Step-Sound (completes generation_id revision now db) s =
    complete-Sound generation_id revision now db s
Step-Sound (fails unicode generation_id error_code now max_attempts next db) s =
    fail-Sound unicode generation_id error_code now max_attempts next db s
Step-Sound (recovers now db) s = recover-Sound now db s
Step-Sound (cleans generation_id db) s = cleanup-Sound generation_id db s
Step-Sound (reserves_text generation_id revision p now db answer h) s =
    subst (λ (a : Bool × Db). Sound a.1)
      (sym (reserve_delivery-parts generation_id revision p now db answer h).1)
      (text-Sound generation_id revision p now db s)
Step-Sound (sends_text generation_id sequence message_id now db) s = s
Step-Sound (loses_text generation_id sequence now db) s = s
Step-Sound (drops_text generation_id sequence now db) s = s
Step-Sound (reserves_reaction generation_id revision target emoji now db answer h) s =
    subst (λ (a : Bool × Db). Sound a.1)
      (sym (reserve_reaction-parts generation_id revision target emoji now db answer h).1)
      (reaction-Sound generation_id revision target emoji now db s)
Step-Sound (sends_reaction generation_id revision target now db) s = s
Step-Sound (fails_reaction generation_id revision target now db) s = s
Step-Sound (drops_reaction generation_id revision target now db) s = s
Step-Sound (starts_update now db) s = claim_update-Sound now db s
Step-Sound (ends_update update_id now db) s = complete_update-Sound update_id now db s
Step-Sound (retries_update unicode update_id error_code now db) s =
    retry_update-Sound unicode update_id error_code now db s
Step-Sound (resets_updates now db) s = reset_updates-Sound now db s

-- by induction on the calls
pub Reached-Sound : {db : Db} → Reached db → Sound db
Reached-Sound created = record {
  update_keys = tt;
  turn_keys = tt;
  generation_keys = tt;
  linked = tt;
  rows = tt;
  bursts = tt;
  waiting = tt;
  named = tt;
  covered = tt;
  answered = tt;
}
Reached-Sound (called r step) = Step-Sound step (Reached-Sound r)
