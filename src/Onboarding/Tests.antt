-- ===== src/Onboarding/Tests.antt =====
-- The operations of tomo_core/src/tomo_core/onboarding_store.py on small tables, and the theorems on
-- them at concrete inputs.
use tomo_v.Common.{
  ℕ, arith, ◌+◌, String, true, false, none, some, [], ◌∷◌, ◌≡◌, refl, All, Evolves, inl, Result, ok,
  err, ltb, str_eq, first_where, count_where, exists_where, least_by, select_where, sort_by,
  update_where, strip,
}
use tomo_v.Onboarding.Ids.{Unicode, burst_of, decimal, generation_of, session_of}
use tomo_v.Onboarding.Ids.Bursts.{burst_of-injective}
use tomo_v.Onboarding.Rows.{
  Db, TokenRow, InstallRow, InboxRow, InboxStatus, GenerationWork, StoreError, GenerationRow,
  GenerationStatus,
}
use tomo_v.Onboarding.Store.Tokens.{
  InstallLink, create_install_link, consume_start_token, installation_for_chat, token_is,
  delete_owner,
}
use tomo_v.Onboarding.Store.Turns.{Arrival, enqueue_update}
use tomo_v.Onboarding.Store.Claim.{claim_next_work, is_due}
use tomo_v.Onboarding.Store.Generations.{complete_generation}
use tomo_v.Onboarding.Store.Control.{claim_next_update}
use tomo_v.Onboarding.Store.Deliveries.{Piece, reserve_text, reserve_delivery}
use tomo_v.Onboarding.History.{
  Reached, created, called, enqueues, claims, reserves_text, empty_db, History, start, call,
  completes,
}
use tomo_v.Onboarding.History.Settled.{
  GenerationSettled, EventSettled, ReactionSettled, History-IsSettled,
}
use tomo_v.Onboarding.History.Silent.{ended-IsSilent, enqueue-silences}
use tomo_v.Onboarding.History.Floor.{FloorStep, floor_of}
use tomo_v.Onboarding.History.Floor.Calls.{Step-FloorStep}
use tomo_v.Onboarding.History.Once.{reserve_delivery-once}
use tomo_v.Onboarding.History.Consistency.{Reached-Consistent}
use tomo_v.Onboarding.Kept.{Consistent}
use tomo_v.Onboarding.Laws.Messages.{IsSilent}
use tomo_v.Onboarding.Laws.Working.{claim_next_work-none}
use tomo_v.Onboarding.Laws.Work.{IsWork, claim_next_work-IsWork}
use tomo_v.Onboarding.Laws.Control.{IsTurnOf, claim_next_update-IsTurnOf}
use tomo_v.Onboarding.Laws.Links.{create_install_link-consume}
use tomo_v.Onboarding.Laws.Owners.{IsErased, consume_start_token-once, delete_owner-IsErased}

abbrev hash : String → String
hash s = s

abbrev arrival : ℕ → String → Arrival
arrival update_id kind = record {
  update_id = update_id;
  chat_id = "7";
  payload = "hello";
  update_kind = kind;
  message_id = some "40";
  telegram_sent_at = none;
  tomo_id = "tomo";
}

-- a message arrives
abbrev messaged : Db
messaged = (enqueue_update (arrival 5 "message") 2000 1000 empty_db).1

messaged-Reached : Reached messaged
messaged-Reached = called created (enqueues (arrival 5 "message") 2000 1000 empty_db refl)

-- its burst is quiet, and is worked on
abbrev work : GenerationWork
work = record {
  generation_id = "7:5:r1";
  burst_id = "7:5";
  chat_id = "7";
  tomo_id = "tomo";
  revision = 1;
  session_id = "telegram-generation-7:5:r1";
  inputs =
      record {
        update_id = 5;
        ordinal = 1;
        payload = "hello";
        message_id = some "40";
        telegram_sent_at = none;
      }
      ∷ [];
  visible_assistant_utterances = [];
  accepted_generation_ids = [];
  eligible_at = 3000;
  claimed_at = 3000;
}

abbrev tables_of : {A : Type 0} → Db → Result StoreError (A × Db) → Db
tables_of default (ok answer) = answer.1
tables_of default (err e) = default

abbrev claimed : Db
claimed = tables_of empty_db (claim_next_work hash 3000 messaged)

claim_test : claim_next_work hash 3000 messaged ≡ ok (some work, claimed)
unfolding claim_next_work least_by select_where enqueue_update exists_where first_where sort_by
    update_where burst_of decimal generation_of session_of count_where
claim_test = refl

early_test : claim_next_work hash 2999 messaged ≡ ok (none, messaged)
unfolding claim_next_work least_by select_where enqueue_update exists_where first_where
early_test = refl

claimed-Reached : Reached claimed
claimed-Reached =
    called messaged-Reached (claims hash 3000 messaged (some work, claimed) claim_test)

Reached-Consistent_example : Consistent claimed
Reached-Consistent_example = Reached-Consistent claimed-Reached

claim_next_work-IsWork_example : IsWork messaged claimed 3000 work
claim_next_work-IsWork_example =
    claim_next_work-IsWork hash 3000 messaged claimed work messaged-Reached claim_test

claim_next_work-none_example : (claimed ≡ claimed) × All (λ t. is_due 9000 t ≡ false) claimed.turns
unfolding claim_next_work least_by select_where enqueue_update exists_where first_where sort_by
    update_where burst_of decimal
claim_next_work-none_example = claim_next_work-none hash 9000 claimed claimed claimed-Reached refl

-- two control updates
abbrev controlled : Db
controlled =
    (enqueue_update (arrival 9 "control") 2000 1500
      (enqueue_update (arrival 8 "control") 2000 1000 empty_db).1).1

abbrev waiting : InboxRow
waiting = record {
  update_id = 8;
  chat_id = "7";
  payload = "hello";
  status = InboxStatus.pending;
  attempts = 0;
  available_at = 1000;
  error_code = none;
  created_at = 1000;
  updated_at = 1000;
  update_kind = "control";
  message_id = some "40";
  telegram_sent_at = none;
  burst_id = none;
  tomo_id = "tomo";
}

abbrev started : InboxRow
started = record waiting {
  status = InboxStatus.processing;
  attempts = 1;
  available_at = 0;
  created_at = 0;
  updated_at = 2000;
}

abbrev working : Db
working = (claim_next_update 2000 controlled).1

claim_next_update-IsTurnOf_example : (q : InboxRow) × IsTurnOf controlled working 2000 started q
unfolding claim_next_update least_by select_where enqueue_update exists_where
claim_next_update-IsTurnOf_example = claim_next_update-IsTurnOf 2000 controlled working started refl

-- the second waits for the first
second_test : claim_next_update 2500 working ≡ (none, working)
unfolding claim_next_update least_by select_where enqueue_update exists_where update_where
second_test = refl

abbrev token : TokenRow
token = record {
  token_hash = "secret";
  user_id = "ann";
  tomo_id = "tomo";
  expires_at = 100;
  consumed_at = none;
  created_at = 10;
}

abbrev offered : Db
offered = record empty_db { tokens = token ∷ [] }

abbrev install : InstallRow
install = record {
  chat_id = "7";
  user_id = "ann";
  tomo_id = "tomo";
  actor_id = "12";
  installed_at = 50;
}

abbrev installed : Db
installed = (consume_start_token hash "secret" "7" "12" 50 offered).1

consume_start_token-once_example :
    ((r : TokenRow) × (first_where (token_is "secret") offered.tokens ≡ some r)
      × (r.consumed_at ≡ none)
      × (ltb r.expires_at 50 ≡ false)
      × (install.tomo_id ≡ r.tomo_id)
      × (install.user_id ≡ r.user_id))
    × (install.actor_id ≡ "12")
    × (installation_for_chat "7" installed ≡ some install)
    × ((chat actor : String) (later : ℕ)
        → consume_start_token hash "secret" chat actor later installed ≡ (none, installed))
unfolding consume_start_token first_where
consume_start_token-once_example =
    consume_start_token-once hash "secret" "7" "12" 50 offered installed install refl

delete_owner-IsErased_example :
    IsErased "tomo" claimed (delete_owner "tomo" claimed)
    × (delete_owner "tomo" (delete_owner "tomo" claimed) ≡ delete_owner "tomo" claimed)
delete_owner-IsErased_example = delete_owner-IsErased "tomo" claimed

-- a text of the answer is let through, and then another message arrives
abbrev piece : String → Piece
piece text = record {
  sequence = 1;
  segment_index = 0;
  frame_index = 0;
  text = text;
  reply_to_message_id = none;
  legacy_move = none;
}

abbrev saying : Db
saying = (reserve_text "7:5:r1" 1 (piece "Hi") 3100 claimed).1

abbrev interrupted : Db
interrupted = (enqueue_update (arrival 6 "message") 2000 3500 saying).1

saying-History : History saying interrupted
saying-History = call (enqueues (arrival 6 "message") 2000 3500 saying refl) (start interrupted)

said_test : reserve_delivery "7:5:r1" 1 (piece "Hi") 3100 claimed ≡ ok (true, saying)
unfolding reserve_delivery strip exists_where claim_next_work least_by select_where enqueue_update
    first_where sort_by update_where burst_of decimal generation_of count_where
said_test = refl

saying-Reached : Reached saying
saying-Reached =
    called claimed-Reached
      (reserves_text "7:5:r1" 1 (piece "Hi") 3100 claimed (true, saying) said_test)

History-IsSettled_example :
    Evolves GenerationSettled saying.generations interrupted.generations
    × Evolves EventSettled saying.events interrupted.events
    × Evolves ReactionSettled saying.reactions interrupted.reactions
History-IsSettled_example = History-IsSettled saying-Reached saying-History

reserve_delivery-once_example :
    reserve_delivery "7:5:r1" 1 (piece "Hello") 3600 interrupted ≡ ok (false, interrupted)
unfolding strip
reserve_delivery-once_example =
    reserve_delivery-once "7:5:r1" 1 (piece "Hi") 3100 claimed-Reached said_test saying-History 1
      (piece "Hello") 3600 refl refl refl

abbrev silenced : GenerationRow
silenced = record {
  generation_id = "7:5:r1";
  burst_id = "7:5";
  chat_id = "7";
  tomo_id = "tomo";
  revision = 1;
  session_id = "telegram-generation-7:5:r1";
  status = GenerationStatus.superseded;
  error_code = none;
  cleanup_pending = true;
  created_at = 3000;
  updated_at = 3500;
}

interrupted-Reached : Reached interrupted
interrupted-Reached = called saying-Reached (enqueues (arrival 6 "message") 2000 3500 saying refl)

-- its worker completes it, which comes too late
abbrev completed_late : Db
completed_late = (complete_generation "7:5:r1" 1 3600 interrupted).1

ended-IsSilent_example : IsSilent completed_late "7:5:r1"
unfolding enqueue_update exists_where reserve_text claim_next_work least_by select_where first_where
    sort_by update_where burst_of decimal generation_of count_where session_of
ended-IsSilent_example =
    ended-IsSilent silenced interrupted-Reached (inl refl) refl
      (call (completes "7:5:r1" 1 3600 interrupted) (start completed_late))

abbrev ascii : Unicode
ascii = record { lower = λ s. s; is_alnum = λ c. true }

abbrev link : InstallLink
link = record {
  token = "secret";
  dm_url = "tg://resolve?domain=tomo_bot&start=secret";
  browser_url = "https://t.me/tomo_bot?start=secret";
  expires_at = 610;
}

abbrev linked : Db
linked =
    tables_of empty_db (create_install_link ascii hash "secret" "ann" "tomo_bot" 600 10 empty_db)

create_install_link-consume_example :
    ((consume_start_token hash "secret" "7" "12" 610 linked).0
      ≡ some (record {
        chat_id = "7";
        user_id = "ann";
        tomo_id = "tomo-ann-ann";
        actor_id = "12";
        installed_at = 610;
      }))
    × (link.expires_at ≡ 10 + 600)
unfolding create_install_link exists_where
create_install_link-consume_example =
    create_install_link-consume ascii hash "secret" "ann" "tomo_bot" 600 10 empty_db linked link "7"
      "12" 610 refl (omega arith)

abbrev group : String
group = "-100123"

abbrev update : ℕ
update = 4506

burst_of-injective_example : (group ≡ group) × (update ≡ update)
burst_of-injective_example = burst_of-injective group group update update refl refl refl

-- the message that interrupts the answer ends its floor
Step-FloorStep_example :
    FloorStep (floor_of "7" saying.generations) (floor_of "7" interrupted.generations)
Step-FloorStep_example =
    Step-FloorStep "7" saying-Reached (enqueues (arrival 6 "message") 2000 3500 saying refl)

enqueue-silences_example :
    All
      (λ g. str_eq g.chat_id "7" ≡ true → IsSilent completed_late g.generation_id)
      interrupted.generations
unfolding exists_where reserve_text claim_next_work least_by select_where enqueue_update first_where
    sort_by update_where burst_of decimal generation_of count_where
enqueue-silences_example =
    enqueue-silences (arrival 6 "message") 2000 3500 saying completed_late saying-Reached refl refl
      refl (call (completes "7:5:r1" 1 3600 interrupted) (start completed_late))
