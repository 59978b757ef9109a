-- ===== src/Onboarding/Ids.antt =====
-- The texts that tomo_core/src/tomo_core/onboarding_store.py makes: ids, links and error codes, and
-- what can be read off them again.
pub mod Chats
pub mod Bursts
use Prim.Native.Char.{Char, code}
use Prim.Native.String.{◌++◌}
use tomo_v.Common.{
  ℕ, zero, suc, ◌/◌, ◌%◌, ◌≡◌, refl, String, Bool, true, false, ◌&&◌, ◌||◌, not, Option, none, some,
  leb, ltb, ◌==◌, if◌then◌else◌, is_empty, arith, Bool-cases, inl, inr, Option-cases,
}

-- Python's tables of Unicode: `str.lower` and `str.isalnum`
pub record Unicode : Type 0 where
  pub lower : String → String
  pub is_alnum : Char → Bool

digit_char : ℕ → Char
digit_char zero = "0"
digit_char (suc zero) = "1"
digit_char (suc (suc zero)) = "2"
digit_char (suc (suc (suc zero))) = "3"
digit_char (suc (suc (suc (suc zero)))) = "4"
digit_char (suc (suc (suc (suc (suc zero))))) = "5"
digit_char (suc (suc (suc (suc (suc (suc zero)))))) = "6"
digit_char (suc (suc (suc (suc (suc (suc (suc zero))))))) = "7"
digit_char (suc (suc (suc (suc (suc (suc (suc (suc zero)))))))) = "8"
digit_char _ = "9"

-- the digits of n before `out`; a number has fewer digits than its value, but for 0
digits_onto : ℕ → ℕ → String → String
unfolding digit_char
digits_onto zero n out = out
digits_onto (suc fuel) n out =
    let rest = digits_onto fuel (n / 10) (String.◌∷◌ (digit_char (n % 10)) out) in
    if ltb n 10 then String.◌∷◌ (digit_char (n % 10)) out else rest

-- str(n)
unfoldable pub decimal : ℕ → String
unfolding digits_onto
decimal n = digits_onto (suc n) n ""

-- s[:n]
unfoldable pub take_text : ℕ → String → String
take_text zero s = String.[]
take_text (suc n) String.[] = String.[]
take_text (suc n) (String.◌∷◌ c s) = String.◌∷◌ c (take_text n s)

-- `s or default`
abbrev pub or_text : String → String → String
or_text String.[] default = default
or_text (String.◌∷◌ c s) default = String.◌∷◌ c s

lstrip_of : ℕ → String → String
lstrip_of mark String.[] = String.[]
lstrip_of mark (String.◌∷◌ c s) =
    let rest = lstrip_of mark s in if code c == mark then rest else String.◌∷◌ c s

rstrip_of : ℕ → String → String
rstrip_of mark String.[] = String.[]
rstrip_of mark (String.◌∷◌ c s) =
    let rest = rstrip_of mark s in
    if is_empty rest && code c == mark then String.[] else String.◌∷◌ c rest

-- s.strip(mark) of one character
strip_of : ℕ → String → String
unfolding lstrip_of rstrip_of
strip_of mark s = rstrip_of mark (lstrip_of mark s)

is_code_char : ℕ → Bool
is_code_char c = (leb b'a' c && leb c b'z') || (leb b'0' c && leb c b'9')

-- re.sub(r"[^a-z0-9]+", "_", s): each run of other characters becomes one underscore
join_runs : Bool → String → String
unfolding is_code_char
join_runs inside String.[] = String.[]
join_runs inside (String.◌∷◌ c s) =
    let kept = join_runs false s in
    let dropped = join_runs true s in
    if is_code_char (code c)
    then String.◌∷◌ c kept
    else if inside
    then dropped
    else String.◌∷◌ "_" dropped

-- `_safe_error_code`
unfoldable pub safe_error_code : Unicode → String → String
unfolding join_runs strip_of take_text
safe_error_code unicode error =
    or_text (take_text 64 (strip_of b'_' (join_runs false (unicode.lower error)))) "unknown_error"

dash_others : (Char → Bool) → String → String
dash_others is_alnum String.[] = String.[]
dash_others is_alnum (String.◌∷◌ c s) =
    String.◌∷◌ (if is_alnum c then c else "-") (dash_others is_alnum s)

-- `tomo_id_for_user`; `sha256` gives the hexadecimal digest
unfoldable pub tomo_id_for_user : Unicode → (String → String) → String → String
unfolding dash_others strip_of take_text
tomo_id_for_user unicode sha256 user_id =
    "tomo-"
    ++ or_text (take_text 32 (strip_of b'-' (dash_others unicode.is_alnum (unicode.lower user_id))))
        "user"
    ++ "-"
    ++ take_text 10 (sha256 user_id)

-- `_session_id`
unfoldable pub session_of : (String → String) → String → String
unfolding take_text
session_of sha256 generation_id = "telegram-generation-" ++ take_text 24 (sha256 generation_id)

-- f"{chat_id}:{update_id}"
unfoldable pub burst_of : String → ℕ → String
burst_of chat_id update_id = chat_id ++ ":" ++ decimal update_id

-- the id of the n-th attempt of a burst at a revision
unfoldable pub generation_of : String → ℕ → ℕ → String
generation_of burst_id revision attempt =
    if attempt == 1
    then burst_id ++ ":r" ++ decimal revision
    else burst_id ++ ":r" ++ decimal revision ++ ":a" ++ decimal attempt

-- f"automation:{run_id}:r{revision}"
unfoldable pub automation_of : String → ℕ → String
automation_of run_id revision = "automation:" ++ run_id ++ ":r" ++ decimal revision

ids_test :
    (burst_of "-100123" 45067 ≡ "-100123:45067")
    × (generation_of "7:12" 3 1 ≡ "7:12:r3")
    × (generation_of "7:12" 3 10 ≡ "7:12:r3:a10")
    × (automation_of "run" 0 ≡ "automation:run:r0")
unfolding burst_of generation_of automation_of decimal digits_onto digit_char
ids_test = (refl, refl, refl, refl)
