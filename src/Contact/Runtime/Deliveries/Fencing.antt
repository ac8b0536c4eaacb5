-- ===== src/Contact/Runtime/Deliveries/Fencing.antt =====
-- contact-orchestration-postgres.ts: the writes of the reservation and of the finalization.
use ros_road_operating_syste.Prelude.{ℕ, ◌<◌, true, Option, none, some, ◌≡◌, ◌⊎◌, inr, refl, arith}
use ros_road_operating_syste.Prelude.Text.{Text}
use ros_road_operating_syste.Contact.Runtime.Records.{
  ContactOutboxMessage, ProcessClaimedOutboxInput, DeliveryResult,
}
use ros_road_operating_syste.Contact.Runtime.Store.{Store, is_null, is_pending}
use ros_road_operating_syste.Contact.Runtime.Delivery.{
  reserved, is_reservable, reserve_outbox_delivery, unlocked, holds_fence, mark_outbox_delivered,
  mark_outbox_retry, after_retry, after_delivered, finalize, prepared, process_claimed_outbox,
}
use ros_road_operating_syste.Contact.Runtime.Writes.{Delivers, Writes, trans}
use ros_road_operating_syste.Contact.Runtime.Deliveries.Rows.{alter-Writes}

pub reserved-Delivers :
    (input : ProcessClaimedOutboxInput) (row : ContactOutboxMessage)
    → input.now < input.delivery_deadline_at
    → Delivers row (reserved input row)
unfolding reserved is_null is_pending
reserved-Delivers input row later = record {
  scope = refl;
  pending = λ h. h;
  constrained = λ m. record {
    attempted = m.attempted;
    bounded = m.bounded;
    leased = m.leased;
    started = refl;
    fenced = refl;
    timely = λ a b p q. ground arith;
    settled = m.settled;
  };
}

pub holds_fence-pending :
    (input : ProcessClaimedOutboxInput) (row : ContactOutboxMessage)
    → holds_fence input row ≡ true
    → is_pending row ≡ true
unfolding holds_fence
holds_fence-pending input row h = ground arith

pub reserve_outbox_delivery-Writes :
    (input : ProcessClaimedOutboxInput) (store : Store)
    → input.now < input.delivery_deadline_at
    → Writes store (reserve_outbox_delivery input store).1
unfolding reserve_outbox_delivery
reserve_outbox_delivery-Writes input store later =
    alter-Writes input.scope input.message_id (is_reservable input) (reserved input) store
      (λ row g. reserved-Delivers input row later)

pub unlocked-Delivers :
    (row next : ContactOutboxMessage)
    → next.scope ≡ row.scope
    → next.attempt ≡ row.attempt
    → next.lease_owner ≡ none
    → next.lease_expires_at ≡ none
    → next.delivery_token ≡ none
    → next.delivery_started_at ≡ none
    → next.delivery_deadline_at ≡ none
    → (is_pending next ≡ true → is_pending row ≡ true)
    → (next.delivered_at ≡ none) ⊎ (next.cancelled_at ≡ none)
    → Delivers row next
unfolding is_null
unlocked-Delivers row next scope attempt owner expires token started deadline pending settled =
    record {
      scope = scope;
      pending = pending;
      constrained = λ m.
          let a = m.attempted in
          let b = m.bounded in
          record {
            attempted = omega arith;
            bounded = omega arith;
            leased = ground arith;
            started = ground arith;
            fenced = ground arith;
            timely = λ x y p q. ground arith;
            settled = settled;
          };
    }

pub delivered-Delivers :
    (row : ContactOutboxMessage) (clock : ℕ)
    → is_pending row ≡ true
    → Delivers row (record (unlocked row) { delivered_at = some clock; last_error_code = none })
unfolding unlocked is_pending is_null
delivered-Delivers row clock h =
    unlocked-Delivers row
      (record (unlocked row) { delivered_at = some clock; last_error_code = none }) refl refl refl
      refl refl refl refl (λ p. ground arith) (inr (ground arith))

pub retried-Delivers :
    (row : ContactOutboxMessage) (at : ℕ) (code : Text)
    → is_pending row ≡ true
    → Delivers row (record (unlocked row) { available_at = at; last_error_code = some code })
unfolding unlocked is_pending is_null
retried-Delivers row at code h =
    unlocked-Delivers row (record (unlocked row) { available_at = at; last_error_code = some code })
      refl refl refl refl refl refl refl (λ p. p) (inr (ground arith))

pub mark_outbox_delivered-Writes :
    (input : ProcessClaimedOutboxInput) (clock : ℕ) (store : Store)
    → Writes store (mark_outbox_delivered input clock store).1
unfolding mark_outbox_delivered
mark_outbox_delivered-Writes input clock store =
    alter-Writes input.scope input.message_id _ _ store
      (λ row g. delivered-Delivers row clock (holds_fence-pending input row (ground arith)))

pub mark_outbox_retry-Writes :
    (input : ProcessClaimedOutboxInput) (code : Text) (store : Store)
    → Writes store (mark_outbox_retry input code store).1
unfolding mark_outbox_retry
mark_outbox_retry-Writes input code store =
    alter-Writes input.scope input.message_id (holds_fence input) _ store (λ row g.
      retried-Delivers row input.retry_available_at code (holds_fence-pending input row g))

pub after_retry-Writes :
    (input : ProcessClaimedOutboxInput) (store : Store) (r : Option ContactOutboxMessage × Store)
    → Writes store r.1
    → Writes store (after_retry input r).1
unfolding after_retry
after_retry-Writes input store (some row, later) w = w
after_retry-Writes input store (none, later) w = w

pub after_delivered-Writes :
    (input : ProcessClaimedOutboxInput) (store : Store) (r : Option ContactOutboxMessage × Store)
    → Writes store r.1
    → Writes store (after_delivered input r).1
unfolding after_delivered
after_delivered-Writes input store (some row, later) w = w
after_delivered-Writes input store (none, later) w =
    after_retry-Writes input store _ (trans w (mark_outbox_retry-Writes input _ later))

pub finalize-Writes :
    (input : ProcessClaimedOutboxInput) (result : DeliveryResult) (clock : ℕ) (store : Store)
    → Writes store (finalize input result clock store).1
unfolding finalize
finalize-Writes input DeliveryResult.sent clock store =
    after_delivered-Writes input store _ (mark_outbox_delivered-Writes input clock store)
finalize-Writes input DeliveryResult.unavailable clock store =
    after_retry-Writes input store _ (mark_outbox_retry-Writes input input.error_code store)

pub process_claimed_outbox-Writes :
    (input : ProcessClaimedOutboxInput) (deliver : ContactOutboxMessage → DeliveryResult)
    (meanwhile : Store → Store) (clock : ℕ) (store : Store)
    → input.now < input.delivery_deadline_at
    → ((s : Store) → Writes s (meanwhile s))
    → Writes store (process_claimed_outbox input deliver meanwhile clock store).1
unfolding process_claimed_outbox prepared
process_claimed_outbox-Writes input deliver meanwhile clock store later others =
    finished (reserve_outbox_delivery input store)
      (reserve_outbox_delivery-Writes input store later)
  where
    finished :
        (r : Option ContactOutboxMessage × Store)
        → Writes store r.1
        → Writes store (prepared input deliver meanwhile clock r).1
    finished (none, s) w = w
    finished (some message, s) w =
        trans w (trans (others s) (finalize-Writes input (deliver message) clock (meanwhile s)))
