-- ===== src/Contact/Runtime/Delivery/Sending.antt =====
-- contact-orchestration.ts: the options of the service, `sendWithDeadline` and `runOutbox`.
use ros_road_operating_syste.Prelude.{
  ℕ, ◌+◌, Bool, ◌&&◌, leb, ltb, Option, none, some, List, [], ◌∷◌, if◌then◌else◌,
}
use ros_road_operating_syste.Prelude.Text.{Text, units}
use ros_road_operating_syste.Contact.Runtime.Records.{
  ContactScope, ContactOutboxMessage, OutboxDeliveryDisposition, DeliveryResult,
  ProcessClaimedOutboxInput, RuntimeIds,
}
use ros_road_operating_syste.Contact.Runtime.Store.{Store}
use ros_road_operating_syste.Contact.Runtime.Steps.{valid_id, bounded_outbox_backoff}
use ros_road_operating_syste.Contact.Runtime.Delivery.Statements.{
  claim_due_outbox, release_outbox_lease,
}
use ros_road_operating_syste.Contact.Runtime.Delivery.Fencing.{process_claimed_outbox}

pub record ContactRuntimeOptions : Type 0 where
  pub outbox_lease_ms : ℕ
  pub delivery_timeout_ms : ℕ

abbrev pub default_runtime_options : ContactRuntimeOptions
default_runtime_options = record { outbox_lease_ms = 30000; delivery_timeout_ms = 5000 }

-- The checks of the constructor on options that are whole numbers.
unfoldable pub valid_options : ContactRuntimeOptions → Bool
valid_options options =
    leb 100 options.outbox_lease_ms
    && leb 1 options.delivery_timeout_ms
    && ltb options.delivery_timeout_ms options.outbox_lease_ms

-- What `ContactChannelPort.send` does before the timer fires: it answers, it fails, or the timer comes first.
pub data ChannelOutcome : Type 0 where
  answered : DeliveryResult → ChannelOutcome
  failed late : ChannelOutcome

unfoldable pub send_with_deadline : ChannelOutcome → DeliveryResult
send_with_deadline (answered result) = result
send_with_deadline failed = DeliveryResult.unavailable
send_with_deadline late = DeliveryResult.unavailable

unfoldable pub or_deadline : Option ℕ → ℕ → ℕ
or_deadline none deadline = deadline
or_deadline (some time) deadline = time

-- The channel, the other transactions, and the database's clock when a delivery is finalized and when its lease is
-- released.
module _ (ids : RuntimeIds) (options : ContactRuntimeOptions)
    (channel : ContactOutboxMessage → ℕ → ChannelOutcome)
    (meanwhile : ContactOutboxMessage → Store → Store) (clock : ContactOutboxMessage → ℕ)
    (release_clock : ContactOutboxMessage → ℕ) where
  unfoldable pub delivery_input : ContactOutboxMessage → Text → ℕ → ProcessClaimedOutboxInput
  unfolding or_deadline
  delivery_input message worker_id now = record {
    scope = message.scope;
    message_id = message.message_id;
    worker_id = worker_id;
    now = now;
    retry_available_at = now + bounded_outbox_backoff message.attempt;
    error_code = units "channel_delivery_failed_or_timed_out";
    delivery_token =
        ids.contact_delivery message.idempotency_key worker_id
          (or_deadline message.lease_expires_at (now + options.delivery_timeout_ms));
    delivery_deadline_at = now + options.delivery_timeout_ms;
  }

  unfoldable pub deliver_claimed :
      List ContactOutboxMessage
      → Text
      → ℕ
      → Store
      → List (ContactScope × Text × OutboxDeliveryDisposition) × Store
  deliver_claimed [] worker_id now store = ([], store)
  deliver_claimed (message ∷ rest) worker_id now store =
      let step : OutboxDeliveryDisposition × Store =
        process_claimed_outbox (delivery_input message worker_id now)
          (λ fresh. send_with_deadline (channel fresh (now + options.delivery_timeout_ms)))
          (meanwhile message) (clock message) store in
      let later : List (ContactScope × Text × OutboxDeliveryDisposition) × Store =
        deliver_claimed rest worker_id now (
          release_outbox_lease message.scope message.message_id worker_id (release_clock message)
            step.1) in
      ((message.scope, message.message_id, step.0) ∷ later.0, later.1)

  unfoldable pub run_outbox_at :
      Text → Option ℕ → ℕ → Store → List (ContactScope × Text × OutboxDeliveryDisposition) × Store
  unfolding deliver_claimed
  run_outbox_at worker_id none limit store = ([], store)
  run_outbox_at worker_id (some now) limit store =
      let claimed : List ContactOutboxMessage × Store =
        claim_due_outbox worker_id now options.outbox_lease_ms limit store in
      deliver_claimed claimed.0 worker_id now claimed.1

  unfoldable pub run_outbox :
      Text → Option ℕ → ℕ → Store → List (ContactScope × Text × OutboxDeliveryDisposition) × Store
  unfolding run_outbox_at
  run_outbox worker_id now limit store =
      if valid_id worker_id && leb 1 limit && leb limit 500
      then run_outbox_at worker_id now limit store
      else ([], store)
