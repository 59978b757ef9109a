-- ===== src/Onboarding/Store/Control.antt =====
-- The queue of control updates, one at a time for each chat
-- (tomo_core/src/tomo_core/onboarding_store.py).
use tomo_v.Common.{
  ℕ, ◌+◌, ◌-◌, ◌*◌, ◌/◌, ◌^◌, min, String, Bool, ◌&&◌, ◌||◌, not, Option, none, some, List, ltb,
  leb, ◌==◌, str_eq, first_where, exists_where, update_where, select_where, count_where, least_by,
}
use tomo_v.Onboarding.Ids.{Unicode, safe_error_code}
use tomo_v.Onboarding.Rows.{
  Db, InboxRow, InboxStatus, is_pending, is_processing, is_completed, is_control, update_is,
}
use tomo_v.Onboarding.Store.Generations.{second}

-- another control update of the chat is being worked on
unfoldable pub is_busy : InboxRow → InboxRow → Bool
is_busy candidate r = str_eq r.chat_id candidate.chat_id && is_control r && is_processing r.status

-- an earlier control update of the chat is not done
unfoldable pub is_earlier : InboxRow → InboxRow → Bool
is_earlier candidate r =
    str_eq r.chat_id candidate.chat_id
    && is_control r
    && ltb r.update_id candidate.update_id
    && not (is_completed r.status)

unfoldable pub is_next : ℕ → List InboxRow → InboxRow → Bool
unfolding is_busy is_earlier
is_next now inbox r =
    is_pending r.status
    && is_control r
    && leb r.available_at now
    && not (exists_where (is_busy r) inbox)
    && not (exists_where (is_earlier r) inbox)

-- ORDER BY available_at, update_id
unfoldable pub sooner : InboxRow → InboxRow → Bool
sooner r s =
    ltb r.available_at s.available_at
    || (r.available_at == s.available_at && ltb r.update_id s.update_id)

abbrev pub start_row : ℕ → InboxRow → InboxRow
start_row now r = record r {
  status = InboxStatus.processing;
  attempts = r.attempts + 1;
  updated_at = now;
}

-- int(t) drops what is below a second
abbrev whole_seconds : ℕ → ℕ
whole_seconds t = t / second * second

unfoldable pub start_update : Option InboxRow → ℕ → Db → Option InboxRow × Db
start_update none now db = (none, db)
start_update (some r) now db = (
  some (record r {
    status = InboxStatus.processing;
    attempts = r.attempts + 1;
    available_at = whole_seconds r.available_at;
    created_at = whole_seconds r.created_at;
    updated_at = now;
  }),
  record db { inbox = update_where (update_is r.update_id) (start_row now) db.inbox },
)

-- `claim_next_update`
unfoldable pub claim_next_update : ℕ → Db → Option InboxRow × Db
unfolding start_update is_next sooner
claim_next_update now db =
    start_update (least_by sooner (select_where (is_next now db.inbox) db.inbox)) now db

-- update_id = ? and status = 'processing'
abbrev pub processing_is : ℕ → InboxRow → Bool
processing_is update_id r = r.update_id == update_id && is_processing r.status

-- `complete_update`
unfoldable pub complete_update : ℕ → ℕ → Db → Db
complete_update update_id now db = record db {
  inbox =
      update_where (processing_is update_id)
        (λ r. record r { status = InboxStatus.completed; error_code = none; updated_at = now })
        db.inbox;
}

-- min(300, 2 ** (attempts - 1)) seconds. An update that is processed has been attempted.
unfoldable pub retry_delay : ℕ → ℕ
retry_delay attempts = min 300 (2 ^ (attempts - 1)) * second

unfoldable pub retry_found : Option InboxRow → ℕ → String → ℕ → Db → Db
unfolding retry_delay
retry_found none update_id error now db = db
retry_found (some row) update_id error now db = record db {
  inbox =
      update_where (processing_is update_id)
        (λ r. record r {
          status = InboxStatus.pending;
          available_at = now + retry_delay row.attempts;
          error_code = some error;
          updated_at = now;
        })
        db.inbox;
}

-- `retry_update`
unfoldable pub retry_update : Unicode → ℕ → String → ℕ → Db → Db
unfolding retry_found
retry_update unicode update_id error_code now db =
    retry_found (first_where (processing_is update_id) db.inbox) update_id
      (safe_error_code unicode error_code) now db

-- `reset_interrupted_updates`
unfoldable pub reset_interrupted_updates : ℕ → Db → ℕ × Db
reset_interrupted_updates now db = (
  count_where (λ r. is_processing r.status) db.inbox,
  record db {
    inbox =
        update_where (λ r. is_processing r.status)
          (λ r. record r { status = InboxStatus.pending; available_at = now; updated_at = now })
          db.inbox;
  },
)
