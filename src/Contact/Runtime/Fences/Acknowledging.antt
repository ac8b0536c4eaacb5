-- ===== src/Contact/Runtime/Fences/Acknowledging.antt =====
-- contact-orchestration-postgres.ts: the finalization of a delivery under its fence.
use ros_road_operating_syste.Prelude.{
  ℕ, ◌≤◌, Bool, true, ◌&&◌, Option, none, some, ◌≡◌, ◌≢◌, ◌↔◌, inl, inr, refl, ap, arith,
  Bool-cases,
}
use ros_road_operating_syste.Prelude.Text.{Text, units}
use ros_road_operating_syste.Contact.Runtime.Records.{
  ContactScope, ContactOutboxMessage, ProcessClaimedOutboxInput, DeliveryResult,
  OutboxDeliveryDisposition,
}
use ros_road_operating_syste.Contact.Runtime.Store.{Store, is_pending, is_null}
use ros_road_operating_syste.Contact.Runtime.Rows.{same_nullable-eq, same_nullable_refl}
use ros_road_operating_syste.Contact.Runtime.Delivery.{
  find_message, put_message, alter_found, alter, not_before, holds_fence, mark_outbox_delivered,
  mark_outbox_retry, disposition_of, read_disposition, after_retry, after_delivered, finalize,
}
use ros_road_operating_syste.Contact.Runtime.Fences.Cancelling.{
  mark_outbox_retry-refused, mark_outbox_delivered-refused,
}

pub alter-accepted :
    (scope : ContactScope) (id : Text) (guard : ContactOutboxMessage → Bool)
    (change : ContactOutboxMessage → ContactOutboxMessage) (store : Store)
    (row : ContactOutboxMessage)
    → find_message scope id store ≡ some row
    → guard row ≡ true
    → alter scope id guard change store ≡ (
      some (change row),
      record store { outbox = put_message scope id (change row) store.outbox },
    )
unfolding alter alter_found
alter-accepted scope id guard change store row found h = rw found (rw h refl)

pub mark_outbox_retry-accepted :
    (input : ProcessClaimedOutboxInput) (code : Text) (store : Store) (row : ContactOutboxMessage)
    → find_message input.scope input.message_id store ≡ some row
    → holds_fence input row ≡ true
    → (message : ContactOutboxMessage) × ((mark_outbox_retry input code store).0 ≡ some message)
unfolding mark_outbox_retry
mark_outbox_retry-accepted input code store row found h = (
  _,
  ap (λ r. r.0)
      (alter-accepted input.scope input.message_id (holds_fence input) _ store row found h),
)

pub mark_outbox_delivered-accepted :
    (input : ProcessClaimedOutboxInput) (clock : ℕ) (store : Store) (row : ContactOutboxMessage)
    → find_message input.scope input.message_id store ≡ some row
    → (holds_fence input row && not_before row.delivery_deadline_at clock) ≡ true
    → (message : ContactOutboxMessage) × ((mark_outbox_delivered input clock store).0
        ≡ some message)
unfolding mark_outbox_delivered
mark_outbox_delivered-accepted input clock store row found h =
    (_, ap (λ r. r.0) (alter-accepted input.scope input.message_id _ _ store row found h))

pub after_retry-some :
    (input : ProcessClaimedOutboxInput) (r : Option ContactOutboxMessage × Store)
    (message : ContactOutboxMessage)
    → r.0 ≡ some message
    → (after_retry input r).0 ≡ OutboxDeliveryDisposition.retry
unfolding after_retry
after_retry-some input (some row, store) message h = refl
after_retry-some input (none, store) message h = let f : ⊥ = ground arith in absurd f

pub after_delivered-some :
    (input : ProcessClaimedOutboxInput) (r : Option ContactOutboxMessage × Store)
    (message : ContactOutboxMessage)
    → r.0 ≡ some message
    → (after_delivered input r).0 ≡ OutboxDeliveryDisposition.delivered
unfolding after_delivered
after_delivered-some input (some row, store) message h = refl
after_delivered-some input (none, store) message h = let f : ⊥ = ground arith in absurd f

pub read_disposition-pending :
    (input : ProcessClaimedOutboxInput) (store : Store) (row : ContactOutboxMessage)
    → find_message input.scope input.message_id store ≡ some row
    → is_pending row ≡ true
    → read_disposition input store ≡ OutboxDeliveryDisposition.conflict
unfolding read_disposition disposition_of is_pending is_null
read_disposition-pending input store row found h = ground arith

pub after_retry-pending :
    (input : ProcessClaimedOutboxInput) (code : Text) (store : Store) (row : ContactOutboxMessage)
    → find_message input.scope input.message_id store ≡ some row
    → is_pending row ≡ true
    → (after_retry input (mark_outbox_retry input code store)).0
      ≢ OutboxDeliveryDisposition.delivered
unfolding after_retry
after_retry-pending input code store row found pending h =
    elim (Bool-cases (holds_fence input row)) [
      | inl e ↦
          let (message, w) = mark_outbox_retry-accepted input code store row found e in
          let r = after_retry-some input (mark_outbox_retry input code store) message w in
          ground arith
      | inr e ↦
          let w = mark_outbox_retry-refused input code store row found e in
          let r = read_disposition-pending input store row found pending in ground arith
    ]

-- What the acknowledgement of a delivery needs.
pub record Acknowledges (input : ProcessClaimedOutboxInput) (result : DeliveryResult) (clock : ℕ)
    (row : ContactOutboxMessage) : Type 0 where
  pub answer : result ≡ DeliveryResult.sent
  pub owner : row.lease_owner ≡ some input.worker_id
  pub token : row.delivery_token ≡ some input.delivery_token
  pub deadline : ℕ
  pub fenced : row.delivery_deadline_at ≡ some deadline
  pub punctual : clock ≤ deadline

pub fence-Acknowledges :
    (input : ProcessClaimedOutboxInput) (clock : ℕ) (row : ContactOutboxMessage)
    → is_pending row ≡ true
    → ((holds_fence input row && not_before row.delivery_deadline_at clock) ≡ true)
      ↔ Acknowledges input DeliveryResult.sent clock row
unfolding holds_fence not_before
fence-Acknowledges input clock row pending = (
  λ h.
      let a = same_nullable-eq row.lease_owner (some input.worker_id) in
      let b = same_nullable-eq row.delivery_token (some input.delivery_token) in
      let (deadline, fenced) = fenced_at row.delivery_deadline_at (ground arith) in
      record {
        answer = refl;
        owner = ground arith;
        token = ground arith;
        deadline = deadline;
        fenced = fenced;
        punctual = ground arith;
      },
  λ ak.
      let a = ak.owner in
      let b = ak.token in
      let c = ak.fenced in
      let d = ak.punctual in
      let e = same_nullable_refl (some input.worker_id) in
      let f = same_nullable_refl (some input.delivery_token) in ground arith,
)
  where
    fenced_at : (o : Option ℕ) → not_before o clock ≡ true → (deadline : ℕ) × (o ≡ some deadline)
    fenced_at none h = let f : ⊥ = ground arith in absurd f
    fenced_at (some deadline) h = (deadline, refl)

-- A message that waits for its delivery is acknowledged exactly if the channel answered SENT, the worker still holds the
-- lease and its token, and the clock of the database has not passed the deadline of the reservation.
pub finalize-delivered_iff :
    (input : ProcessClaimedOutboxInput) (result : DeliveryResult) (clock : ℕ) (store : Store)
    (row : ContactOutboxMessage)
    → find_message input.scope input.message_id store ≡ some row
    → is_pending row ≡ true
    → ((finalize input result clock store).0 ≡ OutboxDeliveryDisposition.delivered)
      ↔ Acknowledges input result clock row
unfolding finalize after_delivered
finalize-delivered_iff input DeliveryResult.unavailable clock store row found pending = (
  λ h. absurd (after_retry-pending input input.error_code store row found pending h),
  λ ak. let f = ak.answer in ground arith,
)
finalize-delivered_iff input DeliveryResult.sent clock store row found pending = (
  λ h. elim (Bool-cases (holds_fence input row && not_before row.delivery_deadline_at clock)) [
    | inl e ↦ (fence-Acknowledges input clock row pending).0 e
    | inr e ↦
        let w = mark_outbox_delivered-refused input clock store row found e in
        let r =
          after_retry-pending input (units "delivery_deadline_expired") store row found pending in
        let f : ⊥ = ground arith in absurd f
  ],
  λ ak.
      let e = (fence-Acknowledges input clock row pending).1 ak in
      let (message, w) = mark_outbox_delivered-accepted input clock store row found e in
      after_delivered-some input (mark_outbox_delivered input clock store) message w,
)
