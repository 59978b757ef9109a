-- ===== src/Onboarding/Store/Tokens.antt =====
-- Install links, installations and the deletion of an owner
-- (tomo_core/src/tomo_core/onboarding_store.py).
use Prim.Native.String.{◌++◌}
use tomo_v.Common.{
  ℕ, ◌+◌, String, Bool, ◌&&◌, ◌||◌, not, Option, none, some, List, [], ◌∷◌, ◌++◌ as append, ltb,
  if◌then◌else◌, str_eq, Result, ok, err, first_where, exists_where, update_where, select_where,
  delete_where,
}
use tomo_v.Onboarding.Ids.{Unicode, tomo_id_for_user}
use tomo_v.Onboarding.Rows.{
  Db, TokenRow, InstallRow, GenerationRow, StoreError, integrity, is_none, GenerationStatus,
  is_running, is_done,
}

pub record InstallLink : Type 0 where
  pub token : String
  pub dm_url : String
  pub browser_url : String
  pub expires_at : ℕ

abbrev pub token_is : String → TokenRow → Bool
token_is token_hash r = str_eq r.token_hash token_hash

abbrev pub chat_is : String → InstallRow → Bool
chat_is chat_id i = str_eq i.chat_id chat_id

abbrev pub tomo_is : String → InstallRow → Bool
tomo_is tomo_id i = str_eq i.tomo_id tomo_id

-- `create_install_link`; `token` is drawn by `secrets`
unfoldable pub create_install_link :
    Unicode
    → (String → String)
    → String
    → String
    → String
    → ℕ
    → ℕ
    → Db
    → Result StoreError (InstallLink × Db)
unfolding tomo_id_for_user
create_install_link unicode sha256 token user_id bot_username ttl_seconds now db =
    if exists_where (token_is (sha256 token)) db.tokens
    then err integrity
    else ok (
      record {
        token = token;
        dm_url = "tg://resolve?domain=" ++ bot_username ++ "&start=" ++ token;
        browser_url = "https://t.me/" ++ bot_username ++ "?start=" ++ token;
        expires_at = now + ttl_seconds;
      },
      record db {
        tokens = append db.tokens (
            record {
              token_hash = sha256 token;
              user_id = user_id;
              tomo_id = tomo_id_for_user unicode sha256 user_id;
              expires_at = now + ttl_seconds;
              consumed_at = none;
              created_at = now;
            }
            ∷ []);
      },
    )

-- INSERT … ON CONFLICT(chat_id) DO UPDATE
unfoldable pub upsert_install : InstallRow → List InstallRow → List InstallRow
upsert_install i installs =
    if exists_where (chat_is i.chat_id) installs
    then update_where (chat_is i.chat_id) (λ _. i) installs
    else append installs (i ∷ [])

unfoldable pub unusable : ℕ → TokenRow → Bool
unusable now r = not (is_none r.consumed_at) || ltb r.expires_at now

abbrev pub installed_by : TokenRow → String → String → ℕ → InstallRow
installed_by r chat_id actor_id now = record {
  chat_id = chat_id;
  user_id = r.user_id;
  tomo_id = r.tomo_id;
  actor_id = actor_id;
  installed_at = now;
}

abbrev pub consume : ℕ → TokenRow → TokenRow
consume now t = record t { consumed_at = some now }

unfoldable pub consume_found :
    Option TokenRow → String → String → String → ℕ → Db → Option InstallRow × Db
unfolding unusable upsert_install
consume_found none token_hash chat_id actor_id now db = (none, db)
consume_found (some r) token_hash chat_id actor_id now db =
    let installed = installed_by r chat_id actor_id now in
    if unusable now r then (none, db) else (
      some installed,
      record db {
        tokens = update_where (token_is token_hash) (consume now) db.tokens;
        installs = upsert_install installed db.installs;
      },
    )

-- `consume_start_token`
unfoldable pub consume_start_token :
    (String → String) → String → String → String → ℕ → Db → Option InstallRow × Db
unfolding consume_found
consume_start_token sha256 token chat_id actor_id now db =
    consume_found (first_where (token_is (sha256 token)) db.tokens) (sha256 token) chat_id actor_id
      now db

-- `installation_for_chat`
unfoldable pub installation_for_chat : String → Db → Option InstallRow
installation_for_chat chat_id db = first_where (chat_is chat_id) db.installs

abbrev pub only_one : List InstallRow → Option InstallRow
only_one [] = none
only_one (i ∷ []) = some i
only_one (i ∷ j ∷ rest) = none

-- `installation_for_tomo`, which there is only where one chat has it
unfoldable pub installation_for_tomo : String → Db → Option InstallRow
installation_for_tomo tomo_id db = only_one (select_where (tomo_is tomo_id) db.installs)

-- `ActiveGenerationContext`
pub record ActiveContext : Type 0 where
  pub tomo_id : String
  pub chat_id : String
  pub revision : ℕ
  pub session_id : String
  pub status : GenerationStatus
  pub actor_id : String

abbrev pub join_install : List InstallRow → GenerationRow → Option InstallRow
join_install installs g =
    first_where (λ i. str_eq i.chat_id g.chat_id && str_eq i.tomo_id g.tomo_id) installs

-- the first generation of the test that is joined with an installation
first_context : (GenerationRow → Bool) → List InstallRow → List GenerationRow → Option ActiveContext
first_context test installs [] = none
first_context test installs (g ∷ gs) =
    let rest = first_context test installs gs in
    let joined : Option ActiveContext = elim (join_install installs g) [
      | none ↦ rest
      | some i ↦ some (record {
        tomo_id = g.tomo_id;
        chat_id = g.chat_id;
        revision = g.revision;
        session_id = g.session_id;
        status = g.status;
        actor_id = i.actor_id;
      })
    ] in
    if test g then joined else rest

-- `active_generation_context`
unfoldable pub active_generation_context : String → String → Db → Option ActiveContext
unfolding first_context
active_generation_context tomo_id generation_id db =
    first_context
      (λ g. str_eq g.tomo_id tomo_id && str_eq g.generation_id generation_id && is_running g.status)
      db.installs db.generations

-- `generation_not_superseded`, and what `generation_guard` tells the block that it guards
unfoldable pub generation_not_superseded : String → String → Db → Bool
generation_not_superseded tomo_id generation_id db =
    exists_where
      (λ g.
        str_eq g.tomo_id tomo_id
        && str_eq g.generation_id generation_id
        && (is_running g.status || is_done g.status))
      db.generations

-- chat_id IN (…)
unfoldable pub in_chats : List InstallRow → String → Bool
in_chats owned chat_id = exists_where (chat_is chat_id) owned

-- `delete_owner`
unfoldable pub delete_owner : String → Db → Db
unfolding in_chats
delete_owner tomo_id db =
    let owned = select_where (tomo_is tomo_id) db.installs in
    record db {
      tokens = delete_where (λ t. str_eq t.tomo_id tomo_id) db.tokens;
      generations = delete_where (λ g. str_eq g.tomo_id tomo_id) db.generations;
      inbox = delete_where (λ r. in_chats owned r.chat_id) db.inbox;
      turns = delete_where (λ t. in_chats owned t.chat_id) db.turns;
      installs = delete_where (tomo_is tomo_id) db.installs;
    }
