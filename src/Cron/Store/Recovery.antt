-- ===== src/Cron/Store/Recovery.antt =====
-- The recovery of expired leases (`recover_expired_leases` of tomo_core/src/tomo_core/cron_store.py).
use tomo_v.Common.{
  ℕ, ◌+◌, Bool, ◌&&◌, none, List, [], ◌∷◌, ◌==◌, if◌then◌else◌, update_where, select_where,
  count_where,
}
use tomo_v.Cron.Rows.{
  Db, RunRow, DeliveryRow, DeliveryStatus, RunStatus, is_in_flight, is_sending, is_unknown, is_held,
  expired,
}
use tomo_v.Cron.Store.Deliveries.{pace_next_delivery, redact_job_of}

abbrev pub recover_delivery : ℕ → DeliveryRow → DeliveryRow
recover_delivery now d = record d {
  status = if is_sending d.status then DeliveryStatus.unknown else DeliveryStatus.pending;
  lease_until = none;
  updated_at = now;
}

unfoldable pub pace_all : ℕ → ℕ → List DeliveryRow → Db → Db
unfolding pace_next_delivery
pace_all now pace [] db = db
pace_all now pace (d ∷ ds) db = pace_all now pace ds (pace_next_delivery d.run_id now pace none db)

unfoldable pub redact_all : List DeliveryRow → Db → Db
unfolding redact_job_of
redact_all [] db = db
redact_all (d ∷ ds) db = redact_all ds (redact_job_of d db)

abbrev pub run_lost : ℕ → RunRow → Bool
run_lost now r = is_held r.status && expired r.lease_until now

abbrev pub delivery_lost : ℕ → DeliveryRow → Bool
delivery_lost now d = is_in_flight d.status && expired d.lease_until now

-- the rows with expired leases, put back
unfoldable pub recover_rows : ℕ → Db → Db
recover_rows now db = record db {
  runs =
      update_where (run_lost now)
        (λ r. record r { status = RunStatus.pending; lease_until = none; updated_at = now })
        db.runs;
  deliveries = update_where (delivery_lost now) (recover_delivery now) db.deliveries;
}

-- `recover_expired_leases`
unfoldable pub recover_expired_leases : ℕ → ℕ → Db → ℕ × Db
unfolding recover_rows pace_all redact_all
recover_expired_leases now pace db =
    let expired_sends =
      select_where (λ d. is_sending d.status && expired d.lease_until now) db.deliveries in
    let paced = pace_all now pace expired_sends (recover_rows now db) in
    let unknown = select_where (λ d. is_unknown d.status && d.updated_at == now) paced.deliveries in
    (
      count_where (run_lost now) db.runs + count_where (delivery_lost now) db.deliveries,
      redact_all unknown paced,
    )
