-- ===== src/Cron/Schedule/Search.antt =====
-- Cron expressions: the minute search of `next_occurrence`, and the loop of `catch_up`
-- (tomo_core/src/tomo_core/cron_schedule.py).
use tomo_v.Common.{
  ℕ, zero, suc, ◌+◌, ◌*◌, ◌-◌, ◌/◌, ◌%◌, ◌≤◌, ◌<◌, ◌≡◌, refl, String, Bool, true, false, Option,
  none, some, arith, ltb, leb, Bool-cases, inl, inr, ◌>>=◌, ◌∙◌, leb→le, leb_false→lt, sym,
  ltb_false→le, Result, ok, >>=-eq-ok,
}
use mathlib.Core.Path.{subst, subst₂}
use tomo_v.Cron.Errors.{CronError}
use tomo_v.Cron.Fields.{CronFields, cron_fields}
use tomo_v.Cron.Schedule.{
  Zones, minute, matches, search_minutes, search_bound, found_or_raise, next_minute, next_cron,
  catch_up_loop, catch_up, catch_up_by_search, next_occurrence, ScheduleSpec, cron,
}

shift_misses :
    (test : ℕ → Bool) (candidate i : ℕ)
    → test candidate ≡ false
    → ((j : ℕ) → j < i → test (candidate + minute + j * minute) ≡ false)
    → (j : ℕ) → j < suc i
    → test (candidate + j * minute) ≡ false
shift_misses test candidate i e miss zero lt = subst (λ t. test t ≡ false) (omega arith) e
shift_misses test candidate i e miss (suc j) lt =
    subst (λ t. test t ≡ false) (omega arith) (miss j (omega arith))

-- The answer of the search is the first minute from `candidate` on that passes the test.
search_minutes-first :
    (test : ℕ → Bool) (fuel candidate r : ℕ)
    → search_minutes test fuel candidate ≡ some r
    → (i : ℕ) × (i < fuel)
      × (r ≡ candidate + i * minute)
      × (test r ≡ true)
      × ((j : ℕ) → j < i → test (candidate + j * minute) ≡ false)
unfolding search_minutes
search_minutes-first test zero candidate r h = cc
search_minutes-first test (suc fuel) candidate r h = elim (Bool-cases (test candidate)) [
  | inl e ↦
      let eq : candidate ≡ r = ground arith in
      (0, omega arith, omega arith, rw eq at e, λ j lt. elim lt [ ])
  | inr e ↦
      let (i, lt, eq, hit, miss) =
        search_minutes-first test fuel (candidate + minute) r (ground arith) in
      (suc i, omega arith, omega arith, hit, shift_misses test candidate i e miss)
]

-- The search fails only if no minute in its bound passes the test.
search_minutes-none :
    (test : ℕ → Bool) (fuel candidate j : ℕ)
    → search_minutes test fuel candidate ≡ none
    → j < fuel
    → test (candidate + j * minute) ≡ false
unfolding search_minutes
search_minutes-none test zero candidate j h lt = elim lt [ ]
search_minutes-none test (suc fuel) candidate zero h lt =
    subst (λ t. test t ≡ false) {x = candidate} (omega arith) (ground arith)
search_minutes-none test (suc fuel) candidate (suc j) h lt =
    subst (λ t. test t ≡ false) (omega arith)
      (search_minutes-none test fuel (candidate + minute) j (ground arith) (omega arith))

-- A time on the minute whose local time the fields match.
abbrev pub Occurs : Zones → CronFields → String → ℕ → Type 0
Occurs zones fields zone t = (t % minute ≡ 0) × (matches fields (zones zone t) ≡ true)

-- a time on the minute is a number of minutes after an earlier one
on_grid : (c t : ℕ) → c % minute ≡ 0 → t % minute ≡ 0 → c ≤ t → t ≡ c + (t - c) / minute * minute
on_grid c t p q le = omega arith

next_minute-on_minute : (after : ℕ) → next_minute after % minute ≡ 0
unfolding next_minute
next_minute-on_minute after = omega arith

next_minute-gt : (after : ℕ) → after < next_minute after
unfolding next_minute
next_minute-gt after = omega arith

next_minute-least :
    (after t : ℕ)
    → t % minute ≡ 0
    → after < t
    → (after < next_minute after) × (next_minute after ≤ t)
unfolding next_minute
next_minute-least after t p lt = (omega arith, omega arith)

found_or_raise-eq-ok :
    (o : Option ℕ) (r : Option ℕ) → found_or_raise o ≡ ok r → (c : ℕ) × (o ≡ some c) × (r ≡ some c)
unfolding found_or_raise
found_or_raise-eq-ok none r h = cc
found_or_raise-eq-ok (some c) r h = (c, refl, ground arith)

-- What `next_occurrence` promises of a cron expression: the first occurrence after `after`.
abbrev pub IsFirstAfter : Zones → CronFields → String → ℕ → ℕ → Type 0
IsFirstAfter zones fields zone after c =
    Occurs zones fields zone c
    × (after < c)
    × ((t : ℕ) → Occurs zones fields zone t → after < t → c ≤ t)

abbrev IsFirstAfterOf : Zones → String → ℕ → CronFields → ℕ → Type 0
IsFirstAfterOf zones zone after fields c = IsFirstAfter zones fields zone after c

search-IsFirstAfter :
    (zones : Zones) (fields : CronFields) (zone : String) (fuel after c : ℕ)
    → search_minutes (λ t. matches fields (zones zone t)) fuel (next_minute after) ≡ some c
    → IsFirstAfter zones fields zone after c
search-IsFirstAfter zones fields zone fuel after c h =
    let (i, lt, eq, hit, miss) =
      search_minutes-first (λ t. matches fields (zones zone t)) fuel (next_minute after) c h in
    let aligned = next_minute-on_minute after in
    (
      (omega arith, hit),
      let p = next_minute-gt after in omega arith,
      λ t occ after_t. elim (Bool-cases (leb c t)) [
        | inl le ↦ leb→le c t le
        | inr gt ↦
            let lt' = leb_false→lt c t gt in
            let least = (next_minute-least after t occ.0 after_t).1 in
            let e = on_grid (next_minute after) t aligned occ.0 least in
            let no = miss ((t - next_minute after) / minute) (omega arith) in
            cc (occ.1, subst (λ u. matches fields (zones zone u) ≡ false) (sym e) no)
      ],
    )

-- `next_occurrence` of a cron expression returns the first minute after `after` whose local time the
-- expression matches.
pub next_cron-IsFirstAfter :
    (zones : Zones) (expression zone : String) (after c : ℕ) (fields : CronFields)
    → cron_fields expression ≡ ok fields
    → next_cron zones expression zone after ≡ ok (some c)
    → IsFirstAfter zones fields zone after c
unfolding next_cron
next_cron-IsFirstAfter zones expression zone after c fields hf h =
    let (gs, hg, h1) = >>=-eq-ok (cron_fields expression) _ h in
    let (d, hd, h2) =
      found_or_raise-eq-ok
        (search_minutes (λ t. matches gs (zones zone t)) search_bound (next_minute after)) (some c)
        h1 in
    let e : d ≡ c = ground arith in
    let f : gs ≡ fields = ground arith in
    subst₂ (IsFirstAfterOf zones zone after) f e
      (search-IsFirstAfter zones gs zone search_bound after d hd)

-- The latest time in (since, now] that has `P`, or that there is none.
abbrev pub IsLatestOf : (ℕ → Type 0) → ℕ → ℕ → Option ℕ → Type 0
IsLatestOf P since now none = (u : ℕ) → P u → since < u → now < u
IsLatestOf P since now (some r) =
    P r × (since < r) × (r ≤ now) × ((u : ℕ) → P u → u ≤ now → since < u → u ≤ r)

module _ (P : ℕ → Type 0) (next : ℕ → Result CronError (Option ℕ))
    (first : (t c : ℕ) → next t ≡ ok (some c) → P c × (t < c) × ((u : ℕ) → P u → t < u → c ≤ u))
    (last : (t u : ℕ) → next t ≡ ok none → P u → t < u → ⊥) (now : ℕ) where
  -- no occurrence after `l` where the next one is missing
  none_later : (l u : ℕ) → next l ≡ ok none → P u → u ≤ l
  none_later l u e pu = elim (Bool-cases (leb u l)) [
    | inl b ↦ leb→le u l b
    | inr b ↦ absurd (last l u e pu (leb_false→lt u l b))
  ]

  -- none between `l` and the next one
  none_between : (l o u : ℕ) → next l ≡ ok (some o) → P u → u < o → u ≤ l
  none_between l o u e pu lt = elim (Bool-cases (leb u l)) [
    | inl b ↦ leb→le u l b
    | inr b ↦ let q = (first l o e).2 u pu (leb_false→lt u l b) in absurd (omega arith)
  ]

  loop_on :
      (fuel o : ℕ) (latest : Option ℕ)
      → leb o now ≡ true
      → catch_up_loop next now (suc fuel) latest (some o)
        ≡ (next o >>= λ following. catch_up_loop next now fuel (some o) following)
  unfolding catch_up_loop
  loop_on fuel o latest b = rw (b, catch_up_loop)

  loop_off :
      (fuel o : ℕ) (latest : Option ℕ)
      → leb o now ≡ false
      → catch_up_loop next now (suc fuel) latest (some o) ≡ ok latest
  unfolding catch_up_loop
  loop_off fuel o latest b = rw (b, catch_up_loop)

  -- from an occurrence that is already found
  loop_from :
      (fuel l : ℕ) (occurrence : Option ℕ) (answer : Option ℕ)
      → now < l + fuel
      → l ≤ now
      → P l
      → next l ≡ ok occurrence
      → catch_up_loop next now fuel (some l) occurrence ≡ ok answer
      → (r : ℕ) × (answer ≡ some r) × P r × (l ≤ r) × (r ≤ now) × ((u : ℕ) → P u → u ≤ now → u ≤ r)
  unfolding catch_up_loop
  loop_from zero l occurrence answer enough le p e h = absurd (omega arith)
  loop_from (suc fuel) l none answer enough le p e h =
      (l, ground arith, p, omega arith, le, λ u pu hu. none_later l u e pu)
  loop_from (suc fuel) l (some o) answer enough le p e h = elim (Bool-cases (leb o now)) [
    | inl b ↦
        let (following, ho, h1) =
          >>=-eq-ok (next o) (λ following. catch_up_loop next now fuel (some o) following)
            {final = answer} (sym (loop_on fuel o (some l) b) ∙ h) in
        let found = first l o e in
        let (r, eq, pr, ge, le', greatest) =
          loop_from fuel o following answer (omega arith) (leb→le o now b) found.0 ho h1 in
        (r, eq, pr, omega arith, le', greatest)
    | inr b ↦ (
      l,
      cc (loop_off fuel o (some l) b),
      p,
      omega arith,
      le,
      λ u pu hu. let lt = leb_false→lt o now b in none_between l o u e pu (omega arith),
    )
  ]

  -- The loop of `catch_up` finds the latest occurrence in (since, now], or none where there is none.
  loop_IsLatest :
      (since : ℕ) (occurrence : Option ℕ) (answer : Option ℕ)
      → since ≤ now
      → next since ≡ ok occurrence
      → catch_up_loop next now (suc (now - since)) none occurrence ≡ ok answer
      → IsLatestOf P since now answer
  unfolding catch_up_loop
  loop_IsLatest since none answer le e h =
      subst (IsLatestOf P since now) {x = none} (ground arith)
        (λ u pu lt. absurd (last since u e pu lt))
  loop_IsLatest since (some o) answer le e h = elim (Bool-cases (leb o now)) [
    | inl b ↦
        let (following, ho, h1) =
          >>=-eq-ok (next o) (λ following. catch_up_loop next now (now - since) (some o) following)
            {final = answer} (sym (loop_on (now - since) o none b) ∙ h) in
        let found = first since o e in
        let (r, eq, pr, ge, le', greatest) =
          loop_from (now - since) o following answer (omega arith) (leb→le o now b) found.0 ho h1 in
        subst (IsLatestOf P since now) (sym eq)
          (pr, omega arith, le', λ u pu hu lt. greatest u pu hu)
    | inr b ↦
        subst (IsLatestOf P since now) {x = none} (cc (loop_off (now - since) o none b)) (λ u pu lt.
          let q = (first since o e).2 u pu lt in let late = leb_false→lt o now b in omega arith)
  ]

next_cron-ne-none :
    (zones : Zones) (expression zone : String) (after : ℕ)
    → next_cron zones expression zone after ≡ ok none
    → ⊥
unfolding next_cron
next_cron-ne-none zones expression zone after h =
    let (gs, hg, h1) = >>=-eq-ok (cron_fields expression) _ h in
    let (d, hd, h2) =
      found_or_raise-eq-ok
        (search_minutes (λ t. matches gs (zones zone t)) search_bound (next_minute after)) none
        h1 in
    cc

abbrev pub cron_schedule : String → String → Option ℕ → ScheduleSpec
cron_schedule expression zone starts_at = record {
  kind = cron expression;
  timezone_name = zone;
  starts_at = starts_at;
}

-- `catch_up` of a cron schedule, where it returns, returns the latest matching minute in (since, now],
-- and `None` only where no minute of (since, now] matches; its loop does not run out of fuel.
pub catch_up_cron-IsLatest :
    (zones : Zones) (expression zone : String) (starts_at : Option ℕ) (fields : CronFields)
    (since now : ℕ) (answer : Option ℕ)
    → cron_fields expression ≡ ok fields
    → catch_up zones (cron_schedule expression zone starts_at) since now ≡ ok answer
    → IsLatestOf (Occurs zones fields zone) since now answer
unfolding catch_up catch_up_by_search next_occurrence
catch_up_cron-IsLatest zones expression zone starts_at fields since now answer hf h =
    elim (Bool-cases (ltb now since)) [
      | inl early ↦ absurd (cc (early, h))
      | inr timely ↦
          let next = next_cron zones expression zone in
          let h0 : (next since >>= λ o. catch_up_loop next now (suc (now - since)) none o)
              ≡ ok answer =
            rw timely at h in
          let (o, ho, h1) =
            >>=-eq-ok (next since) (λ o. catch_up_loop next now (suc (now - since)) none o) h0 in
          loop_IsLatest (Occurs zones fields zone) next
            (λ t c e. next_cron-IsFirstAfter zones expression zone t c fields hf e)
            (λ t u e pu lt. next_cron-ne-none zones expression zone t e) now since o answer
            (ltb_false→le now since timely) ho h1
    ]
