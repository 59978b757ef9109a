-- ===== src/Onboarding/Laws/Deliveries.antt =====
-- A text and a reaction are reserved once, and settled once
-- (tomo_core/src/tomo_core/onboarding_store.py).
use tomo_v.Common.{
  ℕ, String, Bool, true, not, ◌≡◌, sym, Bool-cases, inl, inr, ok, ok-injective, >>=-eq-ok, guard,
  ◌>>=◌,
}
use tomo_v.Onboarding.Rows.{Db, blank_move}
use tomo_v.Onboarding.Store.Deliveries.{
  Piece, blank, move_ok, reserve_text, reserve_delivery, reaction_ok, add_reaction,
  reserve_reaction,
}

pub reserve_delivery-parts :
    (generation_id : String) (revision : ℕ) (p : Piece) (now : ℕ) (db : Db) (answer : Bool × Db)
    → reserve_delivery generation_id revision p now db ≡ ok answer
    → (not (blank p.text) ≡ true) × (answer ≡ reserve_text generation_id revision p now db)
unfolding reserve_delivery
reserve_delivery-parts generation_id revision p now db answer h =
    elim (Bool-cases (not (blank p.text))) [
      | inr e ↦ absurd (cc (rw e at h))
      | inl e ↦
          let h1 : (guard (move_ok p.legacy_move) blank_move >>= λ _.
          ok (reserve_text generation_id revision p now db))
              ≡ ok answer =
            rw e at h in
          let (u, hu, h2) = >>=-eq-ok (guard (move_ok p.legacy_move) blank_move) _ h1 in
          (e, sym (ok-injective h2))
    ]

pub reserve_reaction-parts :
    (generation_id : String) (revision : ℕ) (target emoji : String) (now : ℕ) (db : Db)
    (answer : Bool × Db)
    → reserve_reaction generation_id revision target emoji now db ≡ ok answer
    → (reaction_ok target emoji ≡ true)
      × (answer ≡ add_reaction generation_id revision target emoji now db)
unfolding reserve_reaction
reserve_reaction-parts generation_id revision target emoji now db answer h =
    elim (Bool-cases (reaction_ok target emoji)) [
      | inr e ↦ absurd (cc (rw e at h))
      | inl e ↦ (e, sym (ok-injective (rw e at h)))
    ]
