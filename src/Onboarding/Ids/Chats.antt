-- ===== src/Onboarding/Ids/Chats.antt =====
-- The chat that a burst id of tomo_core/src/tomo_core/onboarding_store.py was made for can be read
-- off it, since the id of a chat is followed by a colon and digits.
use Prim.Native.Char.{code}
use Prim.Native.String.{◌++◌}
use text.Mathlib.TextLemmas.{nil-append, cons-append, append_assoc}
use tomo_v.Common.{
  ℕ, zero, suc, ◌/◌, ◌%◌, ◌≡◌, refl, String, Bool, true, false, ◌||◌, Option, none, some, ltb, ◌==◌,
  if◌then◌else◌, is_empty, Bool-cases, inl, inr, ◌∙◌, ap,
}
use tomo_v.Onboarding.Ids.{digit_char, digits_onto, decimal, burst_of, generation_of, automation_of}

-- the text before the last colon
abbrev pub chat_of : String → Option String
chat_of String.[] = none
chat_of (String.◌∷◌ c s) = elim (chat_of s) [
  | some t ↦ some (String.◌∷◌ c t)
  | none ↦ if code c == b':' then some String.[] else none
]

-- ids of Telegram's chats are numbers, so there is no colon in them
abbrev pub has_colon : String → Bool
has_colon String.[] = false
has_colon (String.◌∷◌ c s) = code c == b':' || has_colon s

digit_no_colon : (n : ℕ) → (code (digit_char n) == b':') ≡ false
unfolding digit_char
digit_no_colon zero = refl
digit_no_colon (suc zero) = refl
digit_no_colon (suc (suc zero)) = refl
digit_no_colon (suc (suc (suc zero))) = refl
digit_no_colon (suc (suc (suc (suc zero)))) = refl
digit_no_colon (suc (suc (suc (suc (suc zero))))) = refl
digit_no_colon (suc (suc (suc (suc (suc (suc zero)))))) = refl
digit_no_colon (suc (suc (suc (suc (suc (suc (suc zero))))))) = refl
digit_no_colon (suc (suc (suc (suc (suc (suc (suc (suc zero)))))))) = refl
digit_no_colon (suc (suc (suc (suc (suc (suc (suc (suc (suc n))))))))) = refl

digits_no_colon :
    (fuel n : ℕ) (out : String) → has_colon out ≡ false → has_colon (digits_onto fuel n out) ≡ false
unfolding digits_onto
digits_no_colon zero n out h = h
digits_no_colon (suc fuel) n out h =
    let one : has_colon (String.◌∷◌ (digit_char (n % 10)) out) ≡ false =
      rw (digit_no_colon (n % 10)) h in
    elim (Bool-cases (ltb n 10)) [
      | inl e ↦ rw e one
      | inr e ↦ rw e (digits_no_colon fuel (n / 10) _ one)
    ]

decimal_no_colon : (n : ℕ) → has_colon (decimal n) ≡ false
unfolding decimal
decimal_no_colon n = digits_no_colon (suc n) n "" refl

no_colon-chat_of : (s : String) → has_colon s ≡ false → chat_of s ≡ none
no_colon-chat_of String.[] h = refl
no_colon-chat_of (String.◌∷◌ c s) h = elim (Bool-cases (code c == b':')) [
  | inl e ↦ absurd (cc (rw e at h))
  | inr e ↦ rw (no_colon-chat_of s (rw e at h), chat_of) (rw e refl)
]

chat_of-append :
    (chat_id digits : String)
    → has_colon digits ≡ false
    → chat_of (chat_id ++ (String.◌∷◌ ":" digits)) ≡ some chat_id
chat_of-append String.[] digits h =
    rw (nil-append (String.◌∷◌ ":" digits)) (rw (no_colon-chat_of digits h, chat_of) refl)
chat_of-append (String.◌∷◌ c s) digits h =
    rw (cons-append c s (String.◌∷◌ ":" digits)) (rw (chat_of-append s digits h, chat_of) refl)

one-append : (s : String) → ":" ++ s ≡ String.◌∷◌ ":" s
one-append s = cons-append ":" "" s ∙ ap (String.◌∷◌ ":") (nil-append s)

two-append : (s : String) → ":r" ++ s ≡ String.◌∷◌ ":" (String.◌∷◌ "r" s)
two-append s =
    cons-append ":" "r" s
    ∙ ap (String.◌∷◌ ":") (cons-append "r" "" s ∙ ap (String.◌∷◌ "r") (nil-append s))

has_colon-append : (s t : String) → has_colon s ≡ true → has_colon (s ++ t) ≡ true
has_colon-append String.[] t h = absurd (cc h)
has_colon-append (String.◌∷◌ c s) t h = rw (cons-append c s t) (elim (Bool-cases (code c == b':')) [
  | inl e ↦ rw e refl
  | inr e ↦ rw e (has_colon-append s t (rw e at h))
])

-- a burst id tells its chat
pub chat_of-burst_of :
    (chat_id : String) (update_id : ℕ) → chat_of (burst_of chat_id update_id) ≡ some chat_id
unfolding burst_of
chat_of-burst_of chat_id update_id =
    rw (one-append (decimal update_id))
      (chat_of-append chat_id (decimal update_id) (decimal_no_colon update_id))

-- the id of a scheduled generation is no burst id of any chat
pub chat_of-automation_of :
    (run_id : String) (revision : ℕ)
    → (named : String) × (chat_of (automation_of run_id revision) ≡ some named)
      × (has_colon named ≡ true)
unfolding automation_of
chat_of-automation_of run_id revision = (
  "automation:" ++ run_id,
  rw (← append_assoc "automation:" run_id (":r" ++ decimal revision)) (
      rw (two-append (decimal revision)) (
        chat_of-append ("automation:" ++ run_id) (String.◌∷◌ "r" (decimal revision))
          (decimal_no_colon revision))),
  has_colon-append "automation:" run_id refl,
)

-- A text that ends in another is not empty.
append-full : (s t : String) → is_empty t ≡ false → is_empty (s ++ t) ≡ false
append-full String.[] t h = rw (nil-append t) h
append-full (String.◌∷◌ c s) t h = rw (cons-append c s t) refl

mark-full : (burst_id : String) (s : String) → is_empty (burst_id ++ ":r" ++ s) ≡ false
mark-full burst_id s = append-full burst_id (":r" ++ s) (rw (two-append s) refl)

-- ids of generations are not empty
pub generation_of-full :
    (burst_id : String) (revision attempt : ℕ)
    → is_empty (generation_of burst_id revision attempt) ≡ false
unfolding generation_of
generation_of-full burst_id revision attempt = elim (Bool-cases (attempt == 1)) [
  | inl e ↦ rw e (mark-full burst_id (decimal revision))
  | inr e ↦ rw e (mark-full burst_id (decimal revision ++ ":a" ++ decimal attempt))
]

pub automation_of-full :
    (run_id : String) (revision : ℕ) → is_empty (automation_of run_id revision) ≡ false
unfolding automation_of
automation_of-full run_id revision =
    append-full "automation:" (run_id ++ ":r" ++ decimal revision)
      (mark-full run_id (decimal revision))
