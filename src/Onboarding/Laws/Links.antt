-- ===== src/Onboarding/Laws/Links.antt =====
-- An install link leads to its user's assistant (tomo_core/src/tomo_core/onboarding_store.py).
use tomo_v.Common.{
  ℕ, ◌+◌, ◌≤◌, String, false, Option, none, some, [], ◌∷◌, ◌++◌, ◌≡◌, refl, sym, ap, arith,
  Bool-cases, inl, inr, ok, ok-injective, eq_refl, ltb, first_where, first_where-append,
  exists_where, exists_where-false,
}
use tomo_v.Onboarding.Ids.{Unicode, tomo_id_for_user}
use tomo_v.Onboarding.Rows.{Db, TokenRow}
use tomo_v.Onboarding.Store.Tokens.{
  InstallLink, token_is, create_install_link, unusable, consume_found, consume_start_token,
}

-- the row of a new token
abbrev row_of_token : Unicode → (String → String) → String → String → ℕ → ℕ → TokenRow
row_of_token unicode sha256 token user_id ttl_seconds now = record {
  token_hash = sha256 token;
  user_id = user_id;
  tomo_id = tomo_id_for_user unicode sha256 user_id;
  expires_at = now + ttl_seconds;
  consumed_at = none;
  created_at = now;
}

made-link :
    (unicode : Unicode) (sha256 : String → String) (token user_id bot_username : String)
    (ttl_seconds now : ℕ) (db after : Db) (link : InstallLink)
    → create_install_link unicode sha256 token user_id bot_username ttl_seconds now db
      ≡ ok (link, after)
    → (exists_where (token_is (sha256 token)) db.tokens ≡ false)
      × (link.token ≡ token)
      × (link.expires_at ≡ now + ttl_seconds)
      × (after.tokens ≡ db.tokens ++ row_of_token unicode sha256 token user_id ttl_seconds now ∷ [])
unfolding create_install_link
made-link unicode sha256 token user_id bot_username ttl_seconds now db after link h =
    elim (Bool-cases (exists_where (token_is (sha256 token)) db.tokens)) [
      | inl e ↦ absurd (cc (rw e at h))
      | inr e ↦
          let same = ok-injective (rw e at h) in
          (
            e,
            ap (λ (a : InstallLink × Db). a.0.token) (sym same),
            ap (λ (a : InstallLink × Db). a.0.expires_at) (sym same),
            ap (λ (a : InstallLink × Db). a.1.tokens) (sym same),
          )
    ]

consumes :
    (o : Option TokenRow) (r : TokenRow) (token_hash chat_id actor_id : String) (now : ℕ) (db : Db)
    → o ≡ some r
    → unusable now r ≡ false
    → (consume_found o token_hash chat_id actor_id now db).0
      ≡ some (record {
        chat_id = chat_id;
        user_id = r.user_id;
        tomo_id = r.tomo_id;
        actor_id = actor_id;
        installed_at = now;
      })
unfolding consume_found
consumes o r token_hash chat_id actor_id now db found usable =
    rw (found, consume_found, usable) refl

not_expired : (later expires_at : ℕ) → later ≤ expires_at → ltb expires_at later ≡ false
not_expired later expires_at h = ground arith

-- A new install link leads back to its user: until it expires, which is when it says, its token
-- installs any chat that uses it first for the user that the link was made for, and for the assistant
-- whose id belongs to that user.
pub create_install_link-consume :
    (unicode : Unicode) (sha256 : String → String) (token user_id bot_username : String)
    (ttl_seconds now : ℕ) (db after : Db) (link : InstallLink) (chat_id actor_id : String)
    (later : ℕ)
    → create_install_link unicode sha256 token user_id bot_username ttl_seconds now db
      ≡ ok (link, after)
    → later ≤ link.expires_at
    → ((consume_start_token sha256 link.token chat_id actor_id later after).0
        ≡ some (record {
          chat_id = chat_id;
          user_id = user_id;
          tomo_id = tomo_id_for_user unicode sha256 user_id;
          actor_id = actor_id;
          installed_at = later;
        }))
      × (link.expires_at ≡ now + ttl_seconds)
unfolding consume_start_token unusable
create_install_link-consume unicode sha256 token user_id bot_username ttl_seconds now db after link
      chat_id actor_id later h soon =
    let (fresh, its, expires, tokens) =
      made-link unicode sha256 token user_id bot_username ttl_seconds now db after link h in
    let r = row_of_token unicode sha256 token user_id ttl_seconds now in
    let found : first_where (token_is (sha256 link.token)) after.tokens ≡ some r =
      rw (its, tokens)
        (first_where-append (token_is (sha256 token)) db.tokens r
          (exists_where-false (token_is (sha256 token)) db.tokens fresh)
          (eq_refl (sha256 token))) in
    (
      consumes (first_where (token_is (sha256 link.token)) after.tokens) r (sha256 link.token)
          chat_id actor_id later after found
          (not_expired later (now + ttl_seconds) (omega (arith, soon, expires))),
      expires,
    )
