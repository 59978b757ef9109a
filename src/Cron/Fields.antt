-- ===== src/Cron/Fields.antt =====
-- `_field_values` and `_cron_fields` of tomo_core/src/tomo_core/cron_schedule.py, over the code
-- points of an ASCII expression.
pub mod Values
use Prim.Native.Char.{code}
use tomo_v.Common.{
  ℕ, zero, suc, ◌+◌, ◌*◌, ◌-◌, ◌/◌, ◌≡◌, refl, String, Bool, true, false, ◌&&◌, ◌||◌, not, Option,
  none, some, List, [], ◌∷◌, ◌++◌, map, ltb, leb, ◌==◌, if◌then◌else◌, Result, ok, err, ◌>>=◌, ◌>>◌,
  guard, is_space,
}
use tomo_v.Cron.Errors.{CronError, bad_step, bad_range, bad_field, out_of_range, five_fields}

abbrev pub codes : String → List ℕ
codes String.[] = []
codes (String.◌∷◌ c s) = code c ∷ codes s

-- str.partition(sep): the text before the first `sep`, and the text after it if there is one
unfoldable pub partition : ℕ → List ℕ → List ℕ × Option (List ℕ)
partition sep [] = ([], none)
partition sep (c ∷ s) =
    let rest = partition sep s in if c == sep then ([], some s) else (c ∷ rest.0, rest.1)

cons_head : ℕ → List (List ℕ) → List (List ℕ)
cons_head c [] = (c ∷ []) ∷ []
cons_head c (p ∷ ps) = (c ∷ p) ∷ ps

-- str.split(sep), which has one part more than separators
unfoldable pub split_at : ℕ → List ℕ → List (List ℕ)
unfolding cons_head
split_at sep [] = [] ∷ []
split_at sep (c ∷ s) = let rest = split_at sep s in if c == sep then [] ∷ rest else cons_head c rest

is_blank : List ℕ → Bool
is_blank [] = true
is_blank (c ∷ s) = false

nonblank : List (List ℕ) → List (List ℕ)
nonblank [] = []
nonblank (p ∷ ps) = let rest = nonblank ps in if is_blank p then rest else p ∷ rest

split_blanks : List ℕ → List (List ℕ)
split_blanks [] = [] ∷ []
split_blanks (c ∷ s) =
    let rest = split_blanks s in if is_space c then [] ∷ rest else cons_head c rest

-- str.split(), which drops the blanks
unfoldable pub split_words : List ℕ → List (List ℕ)
unfolding split_blanks cons_head nonblank is_blank is_space
split_words s = nonblank (split_blanks s)

digit : ℕ → Bool
digit c = leb b'0' c && leb c b'9'

all_digits : List ℕ → Bool
all_digits [] = true
all_digits (c ∷ s) = digit c && all_digits s

-- str.isdigit()
unfoldable pub is_digits : List ℕ → Bool
unfolding all_digits digit is_blank
is_digits s = not (is_blank s) && all_digits s

-- int(s) of a text of digits
unfoldable pub to_int : ℕ → List ℕ → ℕ
to_int n [] = n
to_int n (c ∷ s) = to_int (n * 10 + (c - 48)) s

-- n values from `start` on, `step` apart
unfoldable pub steps : ℕ → ℕ → ℕ → List ℕ
steps zero start step = []
steps (suc n) start step = start ∷ steps n (start + step) step

-- range(start, end + 1, step) where start ≤ end and 1 ≤ step
unfoldable pub range_incl : ℕ → ℕ → ℕ → List ℕ
unfolding steps
range_incl start end step = steps ((end - start) / step + 1) start step

is_star : List ℕ → Bool
is_star [] = false
is_star (c ∷ s) = c == b'*' && is_blank s

-- start and end of `a-b`, `a` or `a/n`
dashed : List ℕ → Bool → ℕ → List ℕ × Option (List ℕ) → Result CronError (ℕ × ℕ)
dashed base stepped high (start, some end) =
    if is_digits start && is_digits end then ok (to_int 0 start, to_int 0 end) else err bad_range
dashed base stepped high (start, none) =
    if is_digits base
    then ok (to_int 0 base, if stepped then high else to_int 0 base)
    else err bad_field

unfoldable pub bounds : List ℕ → Bool → ℕ → ℕ → Result CronError (ℕ × ℕ)
unfolding partition is_digits to_int is_star is_blank dashed
bounds base stepped low high =
    if is_star base then ok (low, high) else dashed base stepped high (partition b'-' base)

-- the step, 1 where there is no `/`
unfoldable pub step_of : Option (List ℕ) → Result CronError ℕ
unfolding is_digits to_int
step_of none = ok 1
step_of (some s) = if not (is_digits s) || ltb (to_int 0 s) 1 then err bad_step else ok (to_int 0 s)

abbrev is_some : Option (List ℕ) → Bool
is_some none = false
is_some (some s) = true

-- the values of one part between two commas
unfoldable pub part_values : ℕ → ℕ → List ℕ → Result CronError (List ℕ)
unfolding bounds step_of range_incl partition
part_values low high part = do
  let cut = partition b'/' part
  step ← step_of cut.1
  range ← bounds cut.0 (is_some cut.1) low high
  guard (leb low range.0 && leb range.0 range.1 && leb range.1 high) out_of_range
  ok (range_incl range.0 range.1 step)

unfoldable pub parts_values : ℕ → ℕ → List (List ℕ) → Result CronError (List ℕ)
unfolding part_values
parts_values low high [] = ok []
parts_values low high (p ∷ ps) = do
  values ← part_values low high p
  rest ← parts_values low high ps
  ok (values ++ rest)

unfoldable pub field_values : ℕ → ℕ → List ℕ → Result CronError (List ℕ)
unfolding parts_values split_at
field_values low high source = parts_values low high (split_at b',' source)

pub record CronFields : Type 0 where
  pub minute : List ℕ
  pub hour : List ℕ
  pub day : List ℕ
  pub month : List ℕ
  pub weekday : List ℕ
  pub day_is_wildcard : Bool
  pub weekday_is_wildcard : Bool

fields_of : List (List ℕ) → Result CronError CronFields
fields_of (minute ∷ hour ∷ day ∷ month ∷ weekday ∷ []) = do
  minutes ← field_values 0 59 minute
  hours ← field_values 0 23 hour
  days ← field_values 1 31 day
  months ← field_values 1 12 month
  weekdays ← field_values 0 6 weekday
  ok (record {
    minute = minutes;
    hour = hours;
    day = days;
    month = months;
    weekday = weekdays;
    day_is_wildcard = is_star day;
    weekday_is_wildcard = is_star weekday;
  })
fields_of _ = err five_fields

unfoldable pub cron_fields : String → Result CronError CronFields
unfolding fields_of field_values split_words is_star is_blank
cron_fields expression = fields_of (split_words (codes expression))

-- `x in values`
unfoldable pub contains : ℕ → List ℕ → Bool
contains x [] = false
contains x (v ∷ vs) = x == v || contains x vs

quarter_hours : part_values 0 59 (codes "*/15") ≡ ok (0 ∷ 15 ∷ 30 ∷ 45 ∷ [])
unfolding part_values
quarter_hours = refl

weekday_nine :
    cron_fields "0 9 * * 1-5"
    ≡ ok (record {
      minute = 0 ∷ [];
      hour = 9 ∷ [];
      day = steps 31 1 1;
      month = steps 12 1 1;
      weekday = 1 ∷ 2 ∷ 3 ∷ 4 ∷ 5 ∷ [];
      day_is_wildcard = true;
      weekday_is_wildcard = false;
    })
unfolding cron_fields
weekday_nine = refl
