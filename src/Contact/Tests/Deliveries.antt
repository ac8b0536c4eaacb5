-- ===== src/Contact/Tests/Deliveries.antt =====
-- The theorems about the fence of a delivery, at a concrete message.
use ros_road_operating_syste.Prelude.{
  ℕ, ◌+◌, ◌<◌, ◌≤◌, Bool, true, false, Option, none, some, List, [], ◌∷◌, ◌++◌, known, ◌≡◌, ◌≢◌,
  ◌↔◌, ◌⊎◌, inl, inr, refl, arith,
}
use ros_road_operating_syste.Prelude.Text.{Text, units}
use ros_road_operating_syste.Contact.Runtime.Records.{
  ContactScope, ContactSessionRecord, ContactAuditEvent, ContactOutboxMessage, MessageKey, AuditKey,
  ContactChannel, HumanSafetyChannel, ContactPromptId, RuntimeDisposition,
  OutboxDeliveryDisposition, DeliveryResult, RuntimeIds, OpenContactInput, CallbackInput,
  OperatorTakeoverInput, ProcessClaimedOutboxInput,
}
use ros_road_operating_syste.Contact.Runtime.Store.{
  Store, get_session_for_update, is_pending, is_null,
}
use ros_road_operating_syste.Contact.Runtime.Delivery.{
  find_message, is_reservable, is_claimable, reserved, reserve_outbox_delivery, finalize,
  process_claimed_outbox, read_disposition,
}
use ros_road_operating_syste.Contact.Runtime.Fences.{
  finalize-cancelled, Acknowledges, finalize-delivered_iff, reserve_outbox_delivery_exclusive,
}
use ros_road_operating_syste.Contact.Tests.Data.{scope, prompt, waiting_store, delivery}

prompt_found : find_message scope (5 ∷ []) waiting_store ≡ some prompt
unfolding find_message ros_road_operating_syste.Contact.Runtime.Delivery.is_message
    ros_road_operating_syste.Contact.Runtime.Records.same_scope
    ros_road_operating_syste.Prelude.Text.text_eq
prompt_found = refl

prompt_reservable : is_reservable delivery prompt ≡ true
unfolding is_reservable ros_road_operating_syste.Contact.Runtime.Store.same_nullable
    ros_road_operating_syste.Prelude.Text.text_eq is_pending is_null
prompt_reservable = refl

reserve_outbox_delivery_exclusive_example :
    let later = (reserve_outbox_delivery delivery waiting_store).1 in
    (reserve_outbox_delivery (record delivery { now = 12000; worker_id = units "worker-2" }) later
      ≡ (none, later))
    × (is_claimable 12000 (reserved delivery prompt) ≡ false)
reserve_outbox_delivery_exclusive_example =
    reserve_outbox_delivery_exclusive delivery
      (record delivery { now = 12000; worker_id = units "worker-2" }) waiting_store prompt
      prompt_found prompt_reservable refl refl (omega arith)

abbrev pub fenced : ContactOutboxMessage
fenced = record prompt {
  delivery_token = some (units "token-1");
  delivery_started_at = some 11000;
  delivery_deadline_at = some 16000;
}

abbrev pub fenced_store : Store
fenced_store = record waiting_store { outbox = fenced ∷ [] }

fenced_found : find_message scope (5 ∷ []) fenced_store ≡ some fenced
unfolding find_message ros_road_operating_syste.Contact.Runtime.Delivery.is_message
    ros_road_operating_syste.Contact.Runtime.Records.same_scope
    ros_road_operating_syste.Prelude.Text.text_eq
fenced_found = refl

fenced_pending : is_pending fenced ≡ true
unfolding is_pending is_null
fenced_pending = refl

finalize-delivered_iff_example :
    ((finalize delivery DeliveryResult.sent 12000 fenced_store).0
      ≡ OutboxDeliveryDisposition.delivered)
    ↔ Acknowledges delivery DeliveryResult.sent 12000 fenced
finalize-delivered_iff_example =
    finalize-delivered_iff delivery DeliveryResult.sent 12000 fenced_store fenced fenced_found
      fenced_pending

late_is_retried :
    (finalize delivery DeliveryResult.sent 16001 fenced_store).0 ≡ OutboxDeliveryDisposition.retry
unfolding finalize ros_road_operating_syste.Contact.Runtime.Delivery.mark_outbox_delivered
    ros_road_operating_syste.Contact.Runtime.Delivery.alter find_message
    ros_road_operating_syste.Contact.Runtime.Delivery.is_message
    ros_road_operating_syste.Contact.Runtime.Records.same_scope
    ros_road_operating_syste.Prelude.Text.text_eq
    ros_road_operating_syste.Contact.Runtime.Delivery.holds_fence
    ros_road_operating_syste.Contact.Runtime.Store.same_nullable is_pending is_null
    ros_road_operating_syste.Contact.Runtime.Delivery.mark_outbox_retry
late_is_retried = refl

abbrev pub withdrawn : ContactOutboxMessage
withdrawn = record prompt { cancelled_at = some 11500; lease_owner = none; lease_expires_at = none }

abbrev pub withdrawn_store : Store
withdrawn_store = record waiting_store { outbox = withdrawn ∷ [] }

withdrawn_found : find_message scope (5 ∷ []) withdrawn_store ≡ some withdrawn
unfolding find_message ros_road_operating_syste.Contact.Runtime.Delivery.is_message
    ros_road_operating_syste.Contact.Runtime.Records.same_scope
    ros_road_operating_syste.Prelude.Text.text_eq
withdrawn_found = refl

finalize-cancelled_example :
    finalize delivery DeliveryResult.sent 12000 withdrawn_store
    ≡ (OutboxDeliveryDisposition.cancelled, withdrawn_store)
finalize-cancelled_example =
    finalize-cancelled delivery DeliveryResult.sent 12000 withdrawn_store withdrawn 11500
      withdrawn_found refl
