-- ===== src/Contact/Runtime/Fences/Cancelling.antt =====
-- contact-orchestration-postgres.ts: the finalization of a delivery whose row is no longer pending.
use ros_road_operating_syste.Prelude.{ℕ, Bool, false, ◌&&◌, none, some, ◌≡◌, refl, arith}
use ros_road_operating_syste.Prelude.Text.{Text}
use ros_road_operating_syste.Contact.Runtime.Records.{
  ContactScope, ContactOutboxMessage, ProcessClaimedOutboxInput, DeliveryResult,
  OutboxDeliveryDisposition,
}
use ros_road_operating_syste.Contact.Runtime.Store.{Store, is_pending, is_null}
use ros_road_operating_syste.Contact.Runtime.Delivery.{
  find_message, alter_found, alter, not_before, holds_fence, mark_outbox_delivered,
  mark_outbox_retry, disposition_of, read_disposition, after_retry, after_delivered, finalize,
}

pub alter-refused :
    (scope : ContactScope) (id : Text) (guard : ContactOutboxMessage → Bool)
    (change : ContactOutboxMessage → ContactOutboxMessage) (store : Store)
    (row : ContactOutboxMessage)
    → find_message scope id store ≡ some row
    → guard row ≡ false
    → alter scope id guard change store ≡ (none, store)
unfolding alter alter_found
alter-refused scope id guard change store row found h = rw found (rw h refl)

pub fence_open :
    (input : ProcessClaimedOutboxInput) (row : ContactOutboxMessage) (at : ℕ)
    → row.cancelled_at ≡ some at
    → holds_fence input row ≡ false
unfolding holds_fence is_pending is_null
fence_open input row at h = ground arith

pub read_disposition-cancelled :
    (input : ProcessClaimedOutboxInput) (store : Store) (row : ContactOutboxMessage) (at : ℕ)
    → find_message input.scope input.message_id store ≡ some row
    → row.cancelled_at ≡ some at
    → read_disposition input store ≡ OutboxDeliveryDisposition.cancelled
unfolding read_disposition disposition_of is_null
read_disposition-cancelled input store row at found h = ground arith

pub mark_outbox_retry-refused :
    (input : ProcessClaimedOutboxInput) (code : Text) (store : Store) (row : ContactOutboxMessage)
    → find_message input.scope input.message_id store ≡ some row
    → holds_fence input row ≡ false
    → mark_outbox_retry input code store ≡ (none, store)
unfolding mark_outbox_retry
mark_outbox_retry-refused input code store row found h =
    alter-refused input.scope input.message_id (holds_fence input) _ store row found h

pub mark_outbox_delivered-refused :
    (input : ProcessClaimedOutboxInput) (clock : ℕ) (store : Store) (row : ContactOutboxMessage)
    → find_message input.scope input.message_id store ≡ some row
    → (holds_fence input row && not_before row.delivery_deadline_at clock) ≡ false
    → mark_outbox_delivered input clock store ≡ (none, store)
unfolding mark_outbox_delivered
mark_outbox_delivered-refused input clock store row found h =
    alter-refused input.scope input.message_id _ _ store row found h

-- A message that was cancelled while its delivery was under way stays cancelled, whatever the channel answered: the
-- finalization reports CANCELLED and changes nothing.
pub finalize-cancelled :
    (input : ProcessClaimedOutboxInput) (result : DeliveryResult) (clock : ℕ) (store : Store)
    (row : ContactOutboxMessage) (at : ℕ)
    → find_message input.scope input.message_id store ≡ some row
    → row.cancelled_at ≡ some at
    → finalize input result clock store ≡ (OutboxDeliveryDisposition.cancelled, store)
unfolding finalize after_delivered after_retry
finalize-cancelled input result clock store row at found cancelled = answered result
  where
    unfenced : holds_fence input row ≡ false
    unfenced = fence_open input row at cancelled

    refused : (holds_fence input row && not_before row.delivery_deadline_at clock) ≡ false
    refused = rw unfenced refl

    status : read_disposition input store ≡ OutboxDeliveryDisposition.cancelled
    status = read_disposition-cancelled input store row at found cancelled

    answered :
        (result : DeliveryResult)
        → finalize input result clock store ≡ (OutboxDeliveryDisposition.cancelled, store)
    answered DeliveryResult.sent =
        rw (mark_outbox_delivered-refused input clock store row found refused)
          (rw (mark_outbox_retry-refused input _ store row found unfenced) (rw status refl))
    answered DeliveryResult.unavailable =
        rw (mark_outbox_retry-refused input input.error_code store row found unfenced)
          (rw status refl)
