-- ===== src/Onboarding/Ids/Bursts.antt =====
-- The ids of bursts are not mixed up (`_enqueue_update` of
-- tomo_core/src/tomo_core/onboarding_store.py).
use Prim.Native.Char.{code}
use Prim.Native.String.{◌++◌}
use text.Mathlib.TextLemmas.{nil-append, cons-append}
use tomo_v.Common.{
  ℕ, zero, suc, ◌+◌, ◌-◌, ◌*◌, ◌/◌, ◌%◌, ◌<◌, ◌≤◌, ◌≡◌, refl, sym, ◌∙◌, ap, String, false, some,
  ltb, ltb→lt, ltb_false→le, arith, Bool-cases, inl, inr,
}
use tomo_v.Onboarding.Ids.{digit_char, digits_onto, decimal, burst_of}
use tomo_v.Onboarding.Ids.Chats.{chat_of, has_colon, chat_of-burst_of}

-- the number that the digits of a text are, after the digits of `before`
value_after : ℕ → String → ℕ
value_after before String.[] = before
value_after before (String.◌∷◌ c s) = value_after (before * 10 + (code c - b'0')) s

digit-value : (d : ℕ) → d < 10 → code (digit_char d) - b'0' ≡ d
unfolding digit_char
digit-value zero h = refl
digit-value (suc zero) h = refl
digit-value (suc (suc zero)) h = refl
digit-value (suc (suc (suc zero))) h = refl
digit-value (suc (suc (suc (suc zero)))) h = refl
digit-value (suc (suc (suc (suc (suc zero))))) h = refl
digit-value (suc (suc (suc (suc (suc (suc zero)))))) h = refl
digit-value (suc (suc (suc (suc (suc (suc (suc zero))))))) h = refl
digit-value (suc (suc (suc (suc (suc (suc (suc (suc zero)))))))) h = refl
digit-value (suc (suc (suc (suc (suc (suc (suc (suc (suc zero))))))))) h = refl
digit-value (suc (suc (suc (suc (suc (suc (suc (suc (suc (suc d)))))))))) h = absurd (omega arith)

-- The fuel of `decimal` is enough.
digits-value :
    (fuel n : ℕ) (out : String)
    → n < fuel
    → value_after 0 (digits_onto fuel n out) ≡ value_after n out
unfolding digits_onto value_after
digits-value zero n out h = absurd (omega arith)
digits-value (suc fuel) n out h = elim (Bool-cases (ltb n 10)) [
  | inl e ↦
      let lt : n < 10 = ltb→lt n 10 e in
      let last : 0 * 10 + (code (digit_char (n % 10)) - b'0') ≡ n =
        omega (arith, digit-value (n % 10) (omega arith)) in
      rw e (ap (λ k. value_after k out) last)
  | inr e ↦
      let le : 10 ≤ n = ltb_false→le n 10 e in
      let last : n / 10 * 10 + (code (digit_char (n % 10)) - b'0') ≡ n =
        omega (arith, digit-value (n % 10) (omega arith)) in
      rw e (
        digits-value fuel (n / 10) (String.◌∷◌ (digit_char (n % 10)) out) (omega arith)
        ∙ ap (λ k. value_after k out) last)
]

decimal-value : (n : ℕ) → value_after 0 (decimal n) ≡ n
unfolding decimal value_after
decimal-value n = digits-value (suc n) n "" (omega arith)

tail_of : String → String
tail_of String.[] = String.[]
tail_of (String.◌∷◌ c s) = s

append-cancel : (c s t : String) → c ++ s ≡ c ++ t → s ≡ t
unfolding tail_of
append-cancel String.[] s t h = sym (nil-append s) ∙ h ∙ nil-append t
append-cancel (String.◌∷◌ c cs) s t h =
    append-cancel cs s t (ap tail_of (sym (cons-append c cs s) ∙ h ∙ cons-append c cs t))

-- The burst that a message opens is its own: the id of a burst tells the chat, if its id has no colon,
-- and the update that it was made for.
pub burst_of-injective :
    (chat_id other : String) (update_id another : ℕ)
    → has_colon chat_id ≡ false
    → has_colon other ≡ false
    → burst_of chat_id update_id ≡ burst_of other another
    → (chat_id ≡ other) × (update_id ≡ another)
unfolding burst_of
burst_of-injective chat_id other update_id another a b h =
    let named : some chat_id ≡ some other =
      sym (chat_of-burst_of chat_id update_id) ∙ ap chat_of h ∙ chat_of-burst_of other another in
    let same : chat_id ≡ other = cc named in
    let rest =
      append-cancel chat_id (":" ++ decimal update_id) (":" ++ decimal another)
        (rw (sym same) at h) in
    let digits = append-cancel ":" (decimal update_id) (decimal another) rest in
    (same, sym (decimal-value update_id) ∙ ap (value_after 0) digits ∙ decimal-value another)
