-- ===== src/Onboarding/Laws/Owners.antt =====
-- Install links are used once, and a deleted owner leaves nothing in the tables of the owner
-- (tomo_core/src/tomo_core/onboarding_store.py).
use mathlib.Core.Path.{subst}
use tomo_v.Common.{
  ℕ, String, Bool, true, false, none, some, List, [], ◌∷◌, ◌≡◌, refl, sym, ◌∙◌, ap, arith, str_eq,
  eq_refl, All, In, ◌⊎◌, ◌&&◌, exists_where, exists_where-false, first_where, first_where-hit,
  first_where-written, first_where-append, update_where, select_where, delete_where, Option-cases,
  Bool-cases, inl, inr, ltb,
}
use tomo_v.Onboarding.Rows.{Db, TokenRow, InstallRow}
use tomo_v.Onboarding.Sound.Parts.{is_none-true}
use tomo_v.Onboarding.Store.Tokens.{
  token_is, chat_is, tomo_is, unusable, installed_by, consume, upsert_install, consume_found,
  consume_start_token, installation_for_chat, in_chats, delete_owner,
}

-- what is written into the row that a SELECT finds
found_written :
    {A : Type 0} (p : A → Bool) (x : A) (l : List A)
    → p x ≡ true
    → exists_where p l ≡ true
    → first_where p (update_where p (λ _. x) l) ≡ some x
unfolding first_where update_where exists_where
found_written p x [] hit h = absurd (cc h)
found_written p x (y ∷ ys) hit h = elim (Bool-cases (p y)) [
  | inl e ↦ rw e (rw hit refl)
  | inr e ↦ rw e (rw e (found_written p x ys hit (rw e at h)))
]

upsert-found :
    (i : InstallRow) (installs : List InstallRow)
    → first_where (chat_is i.chat_id) (upsert_install i installs) ≡ some i
unfolding upsert_install
upsert-found i installs = elim (Bool-cases (exists_where (chat_is i.chat_id) installs)) [
  | inl e ↦ rw e (found_written (chat_is i.chat_id) i installs (eq_refl i.chat_id) e)
  | inr e ↦ rw e (
      first_where-append (chat_is i.chat_id) installs i
        (exists_where-false (chat_is i.chat_id) installs e) (eq_refl i.chat_id))
]

-- a link that is used is used up
used_up :
    (sha256 : String → String) (token chat_id actor_id : String) (now : ℕ) (db : Db) (r : TokenRow)
    (used : ℕ)
    → first_where (token_is (sha256 token)) db.tokens ≡ some r
    → r.consumed_at ≡ some used
    → consume_start_token sha256 token chat_id actor_id now db ≡ (none, db)
unfolding consume_start_token consume_found unusable
used_up sha256 token chat_id actor_id now db r used found e = rw (found, consume_found) (rw e refl)

-- An install link works once: where `consume_start_token` accepts one, it was neither used nor
-- expired, the chat is installed for the owner that the link was made for and the actor who used it,
-- and every later use of the link, from any chat and by anyone, is refused and changes nothing.
pub consume_start_token-once :
    (sha256 : String → String) (token chat_id actor_id : String) (now : ℕ) (db after : Db)
    (i : InstallRow)
    → consume_start_token sha256 token chat_id actor_id now db ≡ (some i, after)
    → ((r : TokenRow) × (first_where (token_is (sha256 token)) db.tokens ≡ some r)
        × (r.consumed_at ≡ none)
        × (ltb r.expires_at now ≡ false)
        × (i.tomo_id ≡ r.tomo_id)
        × (i.user_id ≡ r.user_id))
      × (i.actor_id ≡ actor_id)
      × (installation_for_chat chat_id after ≡ some i)
      × ((chat actor : String) (later : ℕ)
          → consume_start_token sha256 token chat actor later after ≡ (none, after))
unfolding consume_start_token consume_found installation_for_chat unusable
consume_start_token-once sha256 token chat_id actor_id now db after i h =
    let hash = sha256 token in
    elim (Option-cases (first_where (token_is hash) db.tokens)) [
      | inl e ↦ absurd (cc (ap (λ a. a.0) (rw (e, consume_found) at h)))
      | inr (r, e) ↦ elim (Bool-cases (unusable now r)) [
        | inl bad ↦ absurd (cc (ap (λ a. a.0) (rw (e, bad, consume_found) at h)))
        | inr good ↦
            let made = rw (e, good, consume_found) at h in
            let installed = installed_by r chat_id actor_id now in
            let after' = record db {
              tokens = update_where (token_is hash) (consume now) db.tokens;
              installs = upsert_install installed db.installs;
            } in
            let is_installed : some installed ≡ some i = ap (λ a. a.0) made in
            let same : installed ≡ i = cc is_installed in
            let rest : after' ≡ after = ap (λ a. a.1) made in
            let hit = first_where-hit (token_is hash) db.tokens r e in
            let found =
              first_where-written (token_is hash) (token_is hash) (consume now) db.tokens r
                (λ t. refl) e hit in
            (
              (
                r,
                e,
                is_none-true r.consumed_at (ground arith),
                ground arith,
                sym (ap (λ x. x.tomo_id) same),
                sym (ap (λ x. x.user_id) same),
              ),
              sym (ap (λ x. x.actor_id) same),
              subst (λ d. first_where (chat_is chat_id) d.installs ≡ some i) rest
                  (upsert-found installed db.installs ∙ is_installed),
              λ chat actor later.
                  subst (λ d. consume_start_token sha256 token chat actor later d ≡ (none, d)) rest
                    (used_up sha256 token chat actor later after' (consume now r) now found refl),
            )
      ]
    ]

-- deleting twice
delete_where-twice :
    {A : Type 0} (p : A → Bool) (l : List A) → delete_where p (delete_where p l) ≡ delete_where p l
unfolding delete_where
delete_where-twice p [] = refl
delete_where-twice p (x ∷ xs) = elim (Bool-cases (p x)) [
  | inl e ↦ rw e (delete_where-twice p xs)
  | inr e ↦ rw e (rw e (ap (◌∷◌ x) (delete_where-twice p xs)))
]

-- no row that is left passes the test
pub delete_where-none :
    {A : Type 0} (p : A → Bool) (l : List A) → All (λ x. p x ≡ false) (delete_where p l)
unfolding delete_where
delete_where-none p [] = tt
delete_where-none p (x ∷ xs) = elim (Bool-cases (p x)) [
  | inl e ↦ rw e (delete_where-none p xs)
  | inr e ↦ rw e (e, delete_where-none p xs)
]

select_where-none :
    {A : Type 0} (p : A → Bool) (l : List A) → All (λ x. p x ≡ false) l → select_where p l ≡ []
unfolding select_where
select_where-none p [] a = refl
select_where-none p (x ∷ xs) a = rw a.0 (select_where-none p xs a.1)

delete_where-false :
    {A : Type 0} (p : A → Bool) (l : List A) → ((x : A) → p x ≡ false) → delete_where p l ≡ l
unfolding delete_where
delete_where-false p [] misses = refl
delete_where-false p (x ∷ xs) misses = rw (misses x) (ap (◌∷◌ x) (delete_where-false p xs misses))

-- Once the installations are deleted, no row is of a chat of the owner.
nothing_owned :
    {A : Type 0} (tomo_id : String) (chat : A → String) (installs : List InstallRow) (l : List A)
    → delete_where
        (λ x.
          in_chats
            (select_where (tomo_is tomo_id) (delete_where (tomo_is tomo_id) installs))
            (chat x))
        l
      ≡ l
unfolding in_chats exists_where
nothing_owned tomo_id chat installs l =
    rw
      (select_where-none (tomo_is tomo_id) (delete_where (tomo_is tomo_id) installs)
        (delete_where-none (tomo_is tomo_id) installs))
      (delete_where-false _ l (λ x. refl))

-- exactly the rows that fail the test are left
pub record IsWithout {A : Type 0} (p : A → Bool) (before after : List A) : Type 0 where
  pub only : (x : A) → In x after → In x before × (p x ≡ false)
  pub every : (x : A) → In x before → p x ≡ false → In x after

delete_where-only :
    {A : Type 0} (p : A → Bool) (l : List A) (x : A)
    → In x (delete_where p l)
    → In x l × (p x ≡ false)
unfolding delete_where
delete_where-only p [] x i = elim i [ ]
delete_where-only p (y ∷ ys) x i = elim (Bool-cases (p y)) [
  | inl e ↦ let (j, miss) = delete_where-only p ys x (rw e at i) in (inr j, miss)
  | inr e ↦
      let there : (x ≡ y) ⊎ In x (delete_where p ys) = rw e at i in
      elim there [
        | inl same ↦ (inl same, subst (λ z. p z ≡ false) (sym same) e)
        | inr j ↦ let (k, miss) = delete_where-only p ys x j in (inr k, miss)
      ]
]

delete_where-every :
    {A : Type 0} (p : A → Bool) (l : List A) (x : A)
    → In x l
    → p x ≡ false
    → In x (delete_where p l)
unfolding delete_where
delete_where-every p [] x i miss = elim i [ ]
delete_where-every p (y ∷ ys) x (inl e) miss =
    let here : p y ≡ false = subst (λ z. p z ≡ false) e miss in rw here (inl e)
delete_where-every p (y ∷ ys) x (inr i) miss = elim (Bool-cases (p y)) [
  | inl e ↦ rw e (delete_where-every p ys x i miss)
  | inr e ↦ rw e (inr (delete_where-every p ys x i miss))
]

delete_where-IsWithout : {A : Type 0} (p : A → Bool) (l : List A) → IsWithout p l (delete_where p l)
delete_where-IsWithout p l = record { only = delete_where-only p l; every = delete_where-every p l }

-- a chat that is installed for the owner
in_chats-exists :
    (tomo_id chat_id : String) (installs : List InstallRow)
    → in_chats (select_where (tomo_is tomo_id) installs) chat_id
      ≡ exists_where (λ i. tomo_is tomo_id i && str_eq i.chat_id chat_id) installs
unfolding in_chats exists_where select_where
in_chats-exists tomo_id chat_id [] = refl
in_chats-exists tomo_id chat_id (i ∷ is) = elim (Bool-cases (tomo_is tomo_id i)) [
  | inl e ↦ rw (e, in_chats-exists tomo_id chat_id is) refl
  | inr e ↦ rw (e, in_chats-exists tomo_id chat_id is) refl
]

chats-IsWithout :
    {A : Type 0} (tomo_id : String) (installs : List InstallRow) (chat : A → String) (l : List A)
    → IsWithout
        (λ x. exists_where (λ i. tomo_is tomo_id i && str_eq i.chat_id (chat x)) installs)
        l
        (delete_where (λ x. in_chats (select_where (tomo_is tomo_id) installs) (chat x)) l)
chats-IsWithout tomo_id installs chat l =
    subst
      (λ p.
        IsWithout p l
          (delete_where (λ x. in_chats (select_where (tomo_is tomo_id) installs) (chat x)) l))
      (λ i x. in_chats-exists tomo_id (chat x) installs i) (delete_where-IsWithout _ l)

-- What is left of an owner, and of everybody else.
pub record IsErased (tomo_id : String) (before after : Db) : Type 0 where
  pub tokens : IsWithout (λ t. str_eq t.tomo_id tomo_id) before.tokens after.tokens
  pub installs : IsWithout (tomo_is tomo_id) before.installs after.installs
  pub generations : IsWithout (λ g. str_eq g.tomo_id tomo_id) before.generations after.generations
  pub inbox :
      IsWithout
        (λ r. exists_where (λ i. tomo_is tomo_id i && str_eq i.chat_id r.chat_id) before.installs)
        before.inbox
        after.inbox
  pub turns :
      IsWithout
        (λ t. exists_where (λ i. tomo_is tomo_id i && str_eq i.chat_id t.chat_id) before.installs)
        before.turns
        after.turns
  pub rest :
      (after.inputs ≡ before.inputs)
      × (after.events ≡ before.events)
      × (after.reactions ≡ before.reactions)

-- `delete_owner` removes exactly the tokens, the installations and the generations of the owner, and
-- the updates and the turns of the chats that are installed for the owner: all other rows stay, and no
-- row is added. Inputs, texts and reactions stay, those of the owner too. A second deletion changes
-- nothing.
pub delete_owner-IsErased :
    (tomo_id : String) (db : Db)
    → IsErased tomo_id db (delete_owner tomo_id db)
      × (delete_owner tomo_id (delete_owner tomo_id db) ≡ delete_owner tomo_id db)
unfolding delete_owner
delete_owner-IsErased tomo_id db = (
  record {
    tokens = delete_where-IsWithout _ db.tokens;
    installs = delete_where-IsWithout (tomo_is tomo_id) db.installs;
    generations = delete_where-IsWithout _ db.generations;
    inbox = chats-IsWithout tomo_id db.installs (λ r. r.chat_id) db.inbox;
    turns = chats-IsWithout tomo_id db.installs (λ t. t.chat_id) db.turns;
    rest = (refl, refl, refl);
  },
  λ i. record (delete_owner tomo_id db) {
    tokens = delete_where-twice (λ t. str_eq t.tomo_id tomo_id) db.tokens i;
    installs = delete_where-twice (tomo_is tomo_id) db.installs i;
    generations = delete_where-twice (λ g. str_eq g.tomo_id tomo_id) db.generations i;
    inbox = nothing_owned tomo_id (λ r. r.chat_id) db.installs (delete_owner tomo_id db).inbox i;
    turns = nothing_owned tomo_id (λ t. t.chat_id) db.installs (delete_owner tomo_id db).turns i;
  },
)
