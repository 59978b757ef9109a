-- ===== src/Cron/Schedule.antt =====
-- tomo_core/src/tomo_core/cron_schedule.py and `ScheduleSpec` of cron_models.py.
-- A `datetime` is the number of microseconds since 0001-01-01 UTC, a `timedelta` a number of
-- microseconds; that a date passes the year 9999 is not modelled.
pub mod Interval
pub mod Search
use tomo_v.Common.{
  ℕ, zero, suc, ◌+◌, ◌*◌, ◌-◌, ◌/◌, ◌%◌, String, Bool, true, false, ◌&&◌, ◌||◌, not, Option, none,
  some, List, length, ◌≡◌, refl, ltb, leb, ◌==◌, if◌then◌else◌, Result, ok, err, ◌>>=◌, ◌>>◌, guard,
  strip, str_length, is_empty, str_eq,
}
use tomo_v.Cron.Errors.{
  CronError, no_occurrence, needs_starts_at, now_before_since, bad_kind, bad_timezone, once_only_at,
  interval_only_every, bad_interval, cron_needs_expression,
}
use tomo_v.Cron.Fields.{CronFields, cron_fields, contains, codes, split_words}

abbrev pub minute : ℕ
minute = 60000000

pub data Kind : Type 0 where
  once : ℕ → Kind  -- at
  interval : ℕ → Kind  -- every
  cron : String → Kind  -- expression

pub record ScheduleSpec : Type 0 where
  pub kind : Kind
  pub timezone_name : String
  pub starts_at : Option ℕ

-- The arguments of `ScheduleSpec(...)`. A duration that is not positive is 0 here.
pub record RawSchedule : Type 0 where
  pub kind : String
  pub at : Option ℕ
  pub every : Option ℕ
  pub expression : Option String
  pub timezone_name : String
  pub starts_at : Option ℕ

once_kind : Option ℕ → Option ℕ → Option String → Result CronError Kind
once_kind (some at) none none = ok (once at)
once_kind _ _ _ = err once_only_at

interval_kind : Option ℕ → Option ℕ → Option String → Result CronError Kind
interval_kind none (some every) none = if ltb 0 every then ok (interval every) else err bad_interval
interval_kind _ _ _ = err interval_only_every

cron_kind : Option ℕ → Option ℕ → Option String → Result CronError Kind
cron_kind none none (some expression) = do
  guard (leb (str_length expression) 128 && length (split_words (codes expression)) == 5)
      cron_needs_expression
  fields ← cron_fields (strip expression)
  ok (cron (strip expression))
cron_kind _ _ _ = err cron_needs_expression

kind_of : RawSchedule → Result CronError Kind
unfolding once_kind interval_kind cron_kind
kind_of raw =
    if str_eq raw.kind "once"
    then once_kind raw.at raw.every raw.expression
    else if str_eq raw.kind "interval"
    then interval_kind raw.at raw.every raw.expression
    else cron_kind raw.at raw.every raw.expression

is_kind : String → Bool
is_kind kind = str_eq kind "once" || str_eq kind "interval" || str_eq kind "cron"

-- `ScheduleSpec.__post_init__`; `known` says which names the time zone database has.
unfoldable pub make_schedule : (String → Bool) → RawSchedule → Result CronError ScheduleSpec
unfolding kind_of is_kind
make_schedule known raw = do
  guard (is_kind raw.kind) bad_kind
  let zone = strip raw.timezone_name
  guard (not (is_empty zone) && leb (str_length zone) 128) bad_timezone
  guard (str_eq zone "UTC" || known zone) bad_timezone
  kind ← kind_of raw
  ok (record { kind = kind; timezone_name = zone; starts_at = raw.starts_at })

-- A `datetime` in a time zone, as far as cron expressions read it; Monday is weekday 0.
pub record LocalTime : Type 0 where
  pub minute : ℕ
  pub hour : ℕ
  pub day : ℕ
  pub month : ℕ
  pub weekday : ℕ
  pub fold : ℕ

-- `astimezone(ZoneInfo(name))`: the time zone database is data that the program does not hold.
abbrev pub Zones : Type 0
Zones = String → ℕ → LocalTime

day_matches : CronFields → LocalTime → Bool
day_matches fields local =
    let on_day = contains local.day fields.day in
    let on_weekday = contains ((local.weekday + 1) % 7) fields.weekday in
    if fields.day_is_wildcard
    then on_weekday
    else if fields.weekday_is_wildcard
    then on_day
    else on_day || on_weekday

-- `_matches` on the fields and the local time
unfoldable pub matches : CronFields → LocalTime → Bool
unfolding day_matches
matches fields local =
    local.fold == 0
    && contains local.minute fields.minute
    && contains local.hour fields.hour
    && day_matches fields local
    && contains local.month fields.month

-- the loop of `next_occurrence`: at most `fuel` minutes from `candidate` on
unfoldable pub search_minutes : (ℕ → Bool) → ℕ → ℕ → Option ℕ
search_minutes test zero candidate = none
search_minutes test (suc fuel) candidate = elim (test candidate) [
  | true ↦ some candidate
  | false ↦ search_minutes test fuel (candidate + minute)
]

unfoldable pub found_or_raise : Option ℕ → Result CronError (Option ℕ)
found_or_raise none = err no_occurrence
found_or_raise (some candidate) = ok (some candidate)

unfoldable pub or_else : Option ℕ → ℕ → ℕ
or_else none d = d
or_else (some x) d = x

-- the first point of the grid origin + k * every that is after `after`
unfoldable pub next_interval : ℕ → ℕ → ℕ → ℕ
next_interval every origin after =
    if ltb after origin then origin else origin + ((after - origin) / every + 1) * every

-- the minute after `after`
unfoldable pub next_minute : ℕ → ℕ
next_minute after = after - after % minute + minute

-- five years of minutes
unfoldable pub search_bound : ℕ
search_bound = 5 * 366 * 24 * 60

-- `(since - origin) // every + 1`, but not below 0: the floor of a negative quotient is at most -1
unfoldable pub first_period : ℕ → ℕ → ℕ → ℕ
first_period every origin since = if ltb since origin then 0 else (since - origin) / every + 1

unfoldable pub catch_up_interval : ℕ → ℕ → ℕ → ℕ → Option ℕ
unfolding first_period
catch_up_interval every origin since now =
    if ltb now origin
    then none
    else if ltb now (origin + first_period every origin since * every)
    then none
    else some (origin + (now - origin) / every * every)

-- the loop of `catch_up`: `fuel` bounds the occurrences that are read
unfoldable pub catch_up_loop :
    (ℕ → Result CronError (Option ℕ)) → ℕ → ℕ → Option ℕ → Option ℕ → Result CronError (Option ℕ)
catch_up_loop next now zero latest occurrence = ok latest
catch_up_loop next now (suc fuel) latest none = ok latest
catch_up_loop next now (suc fuel) latest (some occurrence) = elim (leb occurrence now) [
  | true ↦ next occurrence >>= λ following. catch_up_loop next now fuel (some occurrence) following
  | false ↦ ok latest
]

module _ (zones : Zones) where
  unfoldable pub next_cron : String → String → ℕ → Result CronError (Option ℕ)
  unfolding found_or_raise next_minute
  next_cron expression zone after = do
    fields ← cron_fields expression
    found_or_raise
        (search_minutes (λ t. matches fields (zones zone t)) search_bound (next_minute after))

  unfoldable pub next_of : Kind → String → Option ℕ → ℕ → Result CronError (Option ℕ)
  unfolding next_interval or_else
  next_of (once at) zone starts_at after = ok (if ltb after at then some at else none)
  next_of (interval every) zone starts_at after =
      ok (some (next_interval every (or_else starts_at (after - after % minute)) after))
  next_of (cron expression) zone starts_at after = next_cron expression zone after

  -- Return the first occurrence strictly after `after`.
  unfoldable pub next_occurrence : ScheduleSpec → ℕ → Result CronError (Option ℕ)
  unfolding next_of
  next_occurrence s after = next_of s.kind s.timezone_name s.starts_at after

  -- An occurrence is later than what it follows, so one step of fuel for each microsecond is enough.
  unfoldable pub catch_up_by_search : ScheduleSpec → ℕ → ℕ → Result CronError (Option ℕ)
  catch_up_by_search s since now = do
    occurrence ← next_occurrence s since
    catch_up_loop (next_occurrence s) now (suc (now - since)) none occurrence

  catch_up_of : Kind → ScheduleSpec → ℕ → ℕ → Result CronError (Option ℕ)
  catch_up_of (interval every) s since now = elim s.starts_at [
    | none ↦ err needs_starts_at
    | some origin ↦ ok (catch_up_interval every origin since now)
  ]
  catch_up_of (once at) s since now = catch_up_by_search s since now
  catch_up_of (cron expression) s since now = catch_up_by_search s since now

  -- Coalesce occurrences in (since, now] into their latest scheduled time.
  unfoldable pub catch_up : ScheduleSpec → ℕ → ℕ → Result CronError (Option ℕ)
  unfolding catch_up_of
  catch_up s since now =
      if ltb now since then err now_before_since else catch_up_of s.kind s since now
