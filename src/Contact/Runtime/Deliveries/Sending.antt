-- ===== src/Contact/Runtime/Deliveries/Sending.antt =====
-- contact-orchestration.ts: the writes of `runOutbox`.
use ros_road_operating_syste.Prelude.{
  ℕ, ◌<◌, true, ◌&&◌, leb, Option, none, some, List, [], ◌∷◌, ◌≡◌, inl, inr, refl, arith,
  Bool-cases,
}
use ros_road_operating_syste.Prelude.Text.{Text}
use ros_road_operating_syste.Contact.Runtime.Records.{
  ContactScope, ContactOutboxMessage, RuntimeIds,
}
use ros_road_operating_syste.Contact.Runtime.Store.{Store, is_null, is_pending}
use ros_road_operating_syste.Contact.Runtime.Steps.{valid_id}
use ros_road_operating_syste.Contact.Runtime.Delivery.{
  claim_due_outbox, release_outbox_lease, ContactRuntimeOptions, valid_options, ChannelOutcome,
  delivery_input, deliver_claimed, run_outbox_at, run_outbox,
}
use ros_road_operating_syste.Contact.Runtime.Writes.{Delivers, Writes, nothing, trans}
use ros_road_operating_syste.Contact.Runtime.Deliveries.Rows.{claim_due_outbox-Writes, alter-Writes}
use ros_road_operating_syste.Contact.Runtime.Deliveries.Fencing.{process_claimed_outbox-Writes}

pub released-Delivers :
    (row : ContactOutboxMessage)
    → Delivers row (record row { lease_owner = none; lease_expires_at = none })
unfolding is_null is_pending
released-Delivers row = record {
  scope = refl;
  pending = λ h. h;
  constrained = λ m. record {
    attempted = m.attempted;
    bounded = m.bounded;
    leased = refl;
    started = m.started;
    fenced = m.fenced;
    timely = m.timely;
    settled = m.settled;
  };
}

pub release_outbox_lease-Writes :
    (scope : ContactScope) (id worker_id : Text) (clock : ℕ) (store : Store)
    → Writes store (release_outbox_lease scope id worker_id clock store)
unfolding release_outbox_lease
release_outbox_lease-Writes scope id worker_id clock store =
    alter-Writes scope id _ _ store (λ row g. released-Delivers row)

pub delivery_input-timely :
    (ids : RuntimeIds) (options : ContactRuntimeOptions)
    (channel : ContactOutboxMessage → ℕ → ChannelOutcome)
    (meanwhile : ContactOutboxMessage → Store → Store)
    (clock release_clock : ContactOutboxMessage → ℕ) (message : ContactOutboxMessage)
    (worker_id : Text) (now : ℕ)
    → valid_options options ≡ true
    → (delivery_input ids options channel meanwhile clock release_clock message worker_id now).now
      < (delivery_input ids options channel meanwhile clock release_clock message worker_id
          now).delivery_deadline_at
unfolding delivery_input valid_options
delivery_input-timely ids options channel meanwhile clock release_clock message worker_id now h =
    ground arith

pub deliver_claimed-Writes :
    (ids : RuntimeIds) (options : ContactRuntimeOptions)
    (channel : ContactOutboxMessage → ℕ → ChannelOutcome)
    (meanwhile : ContactOutboxMessage → Store → Store)
    (clock release_clock : ContactOutboxMessage → ℕ) (messages : List ContactOutboxMessage)
    (worker_id : Text) (now : ℕ) (store : Store)
    → valid_options options ≡ true
    → ((m : ContactOutboxMessage) (s : Store) → Writes s (meanwhile m s))
    → Writes store
        (deliver_claimed ids options channel meanwhile clock release_clock messages worker_id now
          store).1
unfolding deliver_claimed
deliver_claimed-Writes ids options channel meanwhile clock release_clock [] worker_id now store
      valid others =
    nothing
deliver_claimed-Writes ids options channel meanwhile clock release_clock (m ∷ rest) worker_id now
      store valid others =
    let input = delivery_input ids options channel meanwhile clock release_clock m worker_id now in
    let timely =
      delivery_input-timely ids options channel meanwhile clock release_clock m worker_id now
        valid in
    trans (process_claimed_outbox-Writes input _ (meanwhile m) (clock m) store timely (others m)) (
      trans (release_outbox_lease-Writes m.scope m.message_id worker_id (release_clock m) _) (
        deliver_claimed-Writes ids options channel meanwhile clock release_clock rest worker_id now
          _ valid others))

pub run_outbox-Writes :
    (ids : RuntimeIds) (options : ContactRuntimeOptions)
    (channel : ContactOutboxMessage → ℕ → ChannelOutcome)
    (meanwhile : ContactOutboxMessage → Store → Store)
    (clock release_clock : ContactOutboxMessage → ℕ) (worker_id : Text) (now : Option ℕ) (limit : ℕ)
    (store : Store)
    → valid_options options ≡ true
    → ((m : ContactOutboxMessage) (s : Store) → Writes s (meanwhile m s))
    → Writes store
        (run_outbox ids options channel meanwhile clock release_clock worker_id now limit store).1
unfolding run_outbox run_outbox_at
run_outbox-Writes ids options channel meanwhile clock release_clock worker_id now limit store valid
      others =
    elim (Bool-cases (valid_id worker_id && leb 1 limit && leb limit 500)) [
      | inl e ↦ rw e (timed now)
      | inr e ↦ rw e nothing
    ]
  where
    timed :
        (now : Option ℕ)
        → Writes store
            (run_outbox_at ids options channel meanwhile clock release_clock worker_id now limit
              store).1
    timed none = nothing
    timed (some at) =
        trans (claim_due_outbox-Writes worker_id at options.outbox_lease_ms limit store) (
          deliver_claimed-Writes ids options channel meanwhile clock release_clock
            (claim_due_outbox worker_id at options.outbox_lease_ms limit store).0 worker_id at
            (claim_due_outbox worker_id at options.outbox_lease_ms limit store).1 valid others)
