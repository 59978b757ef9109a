-- ===== src/Cron/Schedule/Interval.antt =====
-- Interval schedules: `next_occurrence` and `catch_up` of tomo_core/src/tomo_core/cron_schedule.py.
use tomo_v.Common.{
  ℕ, ◌+◌, ◌*◌, ◌-◌, ◌/◌, ◌≤◌, ◌<◌, ◌≡◌, refl, Option, none, some, arith, ltb, Bool-cases, inl, inr,
  ltb→lt, ltb_false→le,
}
use tomo_v.Cron.Schedule.{next_interval, first_period, catch_up_interval}

-- The k-th occurrence of an interval schedule.
abbrev pub grid : ℕ → ℕ → ℕ → ℕ
grid every origin k = origin + k * every

mul_mono : (a b e : ℕ) → a ≤ b → a * e ≤ b * e
mul_mono a b e h = grind arith

mul-lt : (a b e : ℕ) → a * e < b * e → a < b
mul-lt a b e h = grind arith

div_floor : (a e : ℕ) → 1 ≤ e → (a / e * e ≤ a) × (a < (a / e + 1) * e)
div_floor a e h = (grind arith, grind arith)

-- The next occurrence of an interval schedule is the least point of the grid after `after`.
pub next_interval_least :
    (every origin after : ℕ)
    → 1 ≤ every
    → let next = next_interval every origin after in
      (after < next)
      × ((k : ℕ) × (next ≡ grid every origin k))
      × ((k : ℕ) → after < grid every origin k → next ≤ grid every origin k)
unfolding next_interval
next_interval_least every origin after pos = elim (Bool-cases (ltb after origin)) [
  | inl e ↦ rw e (ltb→lt after origin e, (0, omega arith), λ k h. omega arith)
  | inr e ↦
      let le = ltb_false→le after origin e in
      let (lo, hi) = div_floor (after - origin) every pos in
      rw e (
        ground arith,
        ((after - origin) / every + 1, refl),
        λ k h.
            let p : ((after - origin) / every) * every < k * every = omega arith in
            let q = mul-lt ((after - origin) / every) k every p in
            let r = mul_mono ((after - origin) / every + 1) k every (omega arith) in omega arith,
      )
]

-- What `catch_up` promises of its answer: the latest occurrence in (since, now], if there is one.
abbrev pub IsLatest : (ℕ → ℕ) → ℕ → ℕ → Option ℕ → Type 0
IsLatest occurrence since now none = (k : ℕ) → since < occurrence k → now < occurrence k
IsLatest occurrence since now (some r) =
    ((k : ℕ) × (r ≡ occurrence k))
    × (since < r)
    × (r ≤ now)
    × ((k : ℕ) → occurrence k ≤ now → occurrence k ≤ r)

module _ (every origin since now : ℕ) (pos : 1 ≤ every) where
  -- The first period is the least k with since < origin + k * every.
  first_period-lt : since < grid every origin (first_period every origin since)
  unfolding first_period
  first_period-lt = elim (Bool-cases (ltb since origin)) [
    | inl e ↦ rw e (let p = ltb→lt since origin e in omega arith)
    | inr e ↦
        let le = ltb_false→le since origin e in
        let (lo, hi) = div_floor (since - origin) every pos in rw e (omega arith)
  ]

  first_period-least :
      (k : ℕ)
      → since < grid every origin k
      → grid every origin (first_period every origin since) ≤ grid every origin k
  unfolding first_period
  first_period-least k h = elim (Bool-cases (ltb since origin)) [
    | inl e ↦ rw e (omega arith)
    | inr e ↦
        let le = ltb_false→le since origin e in
        let (lo, hi) = div_floor (since - origin) every pos in
        let p : ((since - origin) / every) * every < k * every = omega arith in
        let q = mul-lt ((since - origin) / every) k every p in
        let r = mul_mono ((since - origin) / every + 1) k every (omega arith) in rw e (omega arith)
  ]

  last_period :
      origin ≤ now
      → (grid every origin ((now - origin) / every) ≤ now)
        × ((k : ℕ)
            → grid every origin k ≤ now
            → grid every origin k ≤ grid every origin ((now - origin) / every))
  last_period le =
      let (lo, hi) = div_floor (now - origin) every pos in
      (
        omega arith,
        λ k h.
            let p : k * every < ((now - origin) / every + 1) * every = omega arith in
            let q = mul-lt k ((now - origin) / every + 1) every p in
            let r = mul_mono k ((now - origin) / every) every (omega arith) in omega arith,
      )

-- `catch_up` of an interval schedule returns the latest occurrence that is after `since` and not
-- after `now`, and `None` exactly where there is none.
pub catch_up_interval-IsLatest :
    (every origin since now : ℕ)
    → 1 ≤ every
    → IsLatest (grid every origin) since now (catch_up_interval every origin since now)
unfolding catch_up_interval
catch_up_interval-IsLatest every origin since now pos = elim (Bool-cases (ltb now origin)) [
  | inl e ↦ rw e (λ k h. let p = ltb→lt now origin e in omega arith)
  | inr e ↦
      let le = ltb_false→le now origin e in
      let first = grid every origin (first_period every origin since) in
      let after = first_period-lt every origin since now pos in
      let least = first_period-least every origin since now pos in
      let (in_time, greatest) = last_period every origin since now pos le in
      elim (Bool-cases (ltb now first)) [
        | inl late ↦
            rw (e, late) (λ k h. let p = ltb→lt now first late in let q = least k h in omega arith)
        | inr timely ↦
            let p = ltb_false→le now first timely in
            let q = greatest (first_period every origin since) p in
            rw (e, timely) (((now - origin) / every, refl), omega arith, in_time, greatest)
      ]
]
