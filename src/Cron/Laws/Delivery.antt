-- ===== src/Cron/Laws/Delivery.antt =====
-- `claim_delivery` of tomo_core/src/tomo_core/cron_store.py: which delivery it hands to a sender, and
-- that its loop ends.
use tomo_v.Common.{ℕ, String, true, false, Option, none, some, List, ◌≡◌, ◌&&◌, In, count_where}
use tomo_v.Cron.Rows.{Db, DeliveryRow, is_waiting}
use tomo_v.Cron.Store.Deliveries.{
  delivery_is, deliverable, first_delivery, superseded, set_delivery, lease_delivery,
}
use tomo_v.Cron.Moves.ClaimDelivery.{Dropped}

-- the deliveries that wait
abbrev pub waiting : List DeliveryRow → ℕ
waiting ds = count_where (λ (d : DeliveryRow). is_waiting d.status) ds

-- The answer of `claim_delivery`, and the tables `after`: superseded deliveries were suppressed on the
-- way to the tables `db`; then the delivery of the answer was chosen there and leased, or there was none
-- to choose.
abbrev pub ClaimedFrom : String → ℕ → ℕ → Db → Option DeliveryRow × Db → Db → Type 0
ClaimedFrom token now lease_seconds db (none, after) reached =
    Dropped db reached
    × (after ≡ reached)
    × (first_delivery (deliverable reached now) reached.deliveries ≡ none)
ClaimedFrom token now lease_seconds db (some leased, after) reached =
    Dropped db reached
    × ((d : DeliveryRow) × In d reached.deliveries
        × (leased ≡ lease_delivery token now lease_seconds d)
        × (deliverable reached now d ≡ true)
        × (superseded reached d ≡ false)
        × (after
            ≡ set_delivery (λ x. delivery_is d.delivery_id x && is_waiting x.status)
                (lease_delivery token now lease_seconds) reached))
