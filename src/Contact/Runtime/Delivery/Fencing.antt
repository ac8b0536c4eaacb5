-- ===== src/Contact/Runtime/Delivery/Fencing.antt =====
-- contact-orchestration-postgres.ts: `processClaimedOutbox` and its statements.
use ros_road_operating_syste.Prelude.{ℕ, Bool, not, ◌&&◌, Option, none, some, if◌then◌else◌}
use ros_road_operating_syste.Prelude.Text.{Text, units}
use ros_road_operating_syste.Contact.Runtime.Records.{
  ContactOutboxMessage, OutboxDeliveryDisposition, DeliveryResult, ProcessClaimedOutboxInput,
}
use ros_road_operating_syste.Contact.Runtime.Store.{Store, same_nullable, is_null, is_pending}
use ros_road_operating_syste.Contact.Runtime.Delivery.Statements.{
  find_message, alter, past, not_before, unreserved,
}

unfoldable pub is_reservable : ProcessClaimedOutboxInput → ContactOutboxMessage → Bool
unfolding past unreserved
is_reservable input row =
    same_nullable row.lease_owner (some input.worker_id)
    && past row.lease_expires_at input.now
    && is_pending row
    && unreserved row input.now

unfoldable pub reserved : ProcessClaimedOutboxInput → ContactOutboxMessage → ContactOutboxMessage
reserved input row = record row {
  delivery_token = some input.delivery_token;
  delivery_started_at = some input.now;
  delivery_deadline_at = some input.delivery_deadline_at;
}

unfoldable pub reserve_outbox_delivery :
    ProcessClaimedOutboxInput → Store → Option ContactOutboxMessage × Store
unfolding reserved
reserve_outbox_delivery input store =
    alter input.scope input.message_id (is_reservable input) (reserved input) store

-- The columns that a finalization clears.
unfoldable pub unlocked : ContactOutboxMessage → ContactOutboxMessage
unlocked row = record row {
  lease_owner = none;
  lease_expires_at = none;
  delivery_token = none;
  delivery_started_at = none;
  delivery_deadline_at = none;
}

unfoldable pub holds_fence : ProcessClaimedOutboxInput → ContactOutboxMessage → Bool
holds_fence input row =
    same_nullable row.lease_owner (some input.worker_id)
    && same_nullable row.delivery_token (some input.delivery_token)
    && is_pending row

unfoldable pub mark_outbox_delivered :
    ProcessClaimedOutboxInput → ℕ → Store → Option ContactOutboxMessage × Store
unfolding not_before unlocked
mark_outbox_delivered input clock store =
    alter input.scope input.message_id
      (λ row. holds_fence input row && not_before row.delivery_deadline_at clock)
      (λ row. record (unlocked row) { delivered_at = some clock; last_error_code = none }) store

unfoldable pub mark_outbox_retry :
    ProcessClaimedOutboxInput → Text → Store → Option ContactOutboxMessage × Store
unfolding unlocked
mark_outbox_retry input error_code store =
    alter input.scope input.message_id (holds_fence input)
      (λ row. record (unlocked row) {
        available_at = input.retry_available_at;
        last_error_code = some error_code;
      })
      store

unfoldable pub disposition_of : Option ContactOutboxMessage → OutboxDeliveryDisposition
disposition_of none = OutboxDeliveryDisposition.conflict
disposition_of (some row) =
    if not (is_null row.cancelled_at)
    then OutboxDeliveryDisposition.cancelled
    else if not (is_null row.delivered_at)
    then OutboxDeliveryDisposition.delivered
    else OutboxDeliveryDisposition.conflict

unfoldable pub read_disposition : ProcessClaimedOutboxInput → Store → OutboxDeliveryDisposition
unfolding disposition_of
read_disposition input store = disposition_of (find_message input.scope input.message_id store)

unfoldable pub after_retry :
    ProcessClaimedOutboxInput
    → Option ContactOutboxMessage × Store
    → OutboxDeliveryDisposition × Store
after_retry input (some row, store) = (OutboxDeliveryDisposition.retry, store)
after_retry input (none, store) = (read_disposition input store, store)

unfoldable pub after_delivered :
    ProcessClaimedOutboxInput
    → Option ContactOutboxMessage × Store
    → OutboxDeliveryDisposition × Store
unfolding after_retry
after_delivered input (some row, store) = (OutboxDeliveryDisposition.delivered, store)
after_delivered input (none, store) =
    after_retry input (mark_outbox_retry input (units "delivery_deadline_expired") store)

-- The second transaction of `processClaimedOutbox`.
unfoldable pub finalize :
    ProcessClaimedOutboxInput → DeliveryResult → ℕ → Store → OutboxDeliveryDisposition × Store
unfolding after_retry after_delivered
finalize input DeliveryResult.sent clock store =
    after_delivered input (mark_outbox_delivered input clock store)
finalize input DeliveryResult.unavailable clock store =
    after_retry input (mark_outbox_retry input input.error_code store)

unfoldable pub prepared :
    ProcessClaimedOutboxInput
    → (ContactOutboxMessage → DeliveryResult)
    → (Store → Store)
    → ℕ
    → Option ContactOutboxMessage × Store
    → OutboxDeliveryDisposition × Store
prepared input deliver meanwhile clock (none, store) = (read_disposition input store, store)
prepared input deliver meanwhile clock (some message, store) =
    finalize input (deliver message) clock (meanwhile store)

unfoldable pub process_claimed_outbox :
    ProcessClaimedOutboxInput
    → (ContactOutboxMessage → DeliveryResult)
    → (Store → Store)
    → ℕ
    → Store
    → OutboxDeliveryDisposition × Store
unfolding prepared
process_claimed_outbox input deliver meanwhile clock store =
    prepared input deliver meanwhile clock (reserve_outbox_delivery input store)
