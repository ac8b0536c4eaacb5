-- ===== src/Contact/Runtime/Interleavings.antt =====
-- Sequences of transactions of the contact runtime, of one worker or of many.
use ros_road_operating_syste.Prelude.{ℕ, ◌<◌, some, List, [], ◌∷◌, ◌++◌, ◌≡◌}
use ros_road_operating_syste.Prelude.Text.{Text}
use ros_road_operating_syste.Contact.Runtime.Records.{
  ContactScope, ContactSessionRecord, ContactAuditEvent, RuntimeIds, OpenContactInput,
  CallbackInput, OperatorTakeoverInput, ProcessClaimedOutboxInput, DeliveryResult,
}
use ros_road_operating_syste.Contact.Runtime.Store.{Store, get_session_for_update}
use ros_road_operating_syste.Contact.Runtime.Service.{
  open_contact, handle_callback, operator_takeover,
}
use ros_road_operating_syste.Contact.Runtime.Due.{claim_due_sessions, process_due, release_lease}
use ros_road_operating_syste.Contact.Runtime.Delivery.{
  claim_due_outbox, reserve_outbox_delivery, finalize, release_outbox_lease,
}
use ros_road_operating_syste.Contact.Runtime.Writes.{IsStored, Writes, nothing, trans}
use ros_road_operating_syste.Contact.Runtime.Invariants.{
  Writes-IsStored, Writes-audit, Continues, Writes-Continues,
}
use ros_road_operating_syste.Contact.Runtime.Commands.{
  open_contact-Writes, handle_callback-Completes, operator_takeover-Completes,
}
use ros_road_operating_syste.Contact.Runtime.Worker.{process_due-Completes}
use ros_road_operating_syste.Contact.Runtime.Leases.{
  claim_due_sessions-Writes, release_lease-Writes,
}
use ros_road_operating_syste.Contact.Runtime.Deliveries.{
  claim_due_outbox-Writes, reserve_outbox_delivery-Writes, finalize-Writes,
  release_outbox_lease-Writes,
}

-- The transactions that the service and its workers run. A delivery is two of them, with the call of the channel
-- between them.
pub data Transaction : Type 0 where
  opens : OpenContactInput → Transaction
  calls_back : CallbackInput → Transaction
  takes_over : OperatorTakeoverInput → Transaction
  claims_sessions : (worker_id : Text) (now lease_ms limit : ℕ) → Transaction
  processes : ContactSessionRecord → (worker_id : Text) (now : ℕ) → Transaction
  releases_session : ContactScope → (worker_id : Text) → Transaction
  claims_messages : (worker_id : Text) (now lease_ms limit : ℕ) → Transaction
  -- A reservation ends after it starts: `valid_options` makes the timeout positive.
  reserves :
      (input : ProcessClaimedOutboxInput) → input.now < input.delivery_deadline_at → Transaction
  finalizes : ProcessClaimedOutboxInput → DeliveryResult → (clock : ℕ) → Transaction
  releases_message : ContactScope → (message_id worker_id : Text) (clock : ℕ) → Transaction

module _ (ids : RuntimeIds) where
  unfoldable pub perform : Transaction → Store → Store
  perform (opens input) store = (open_contact ids input store).1
  perform (calls_back input) store = (handle_callback ids input store).1
  perform (takes_over input) store = (operator_takeover ids input store).1
  perform (claims_sessions worker_id now lease_ms limit) store =
      (claim_due_sessions worker_id now lease_ms limit store).1
  perform (processes session worker_id now) store = (process_due ids session worker_id now store).1
  perform (releases_session scope worker_id) store = release_lease scope worker_id store
  perform (claims_messages worker_id now lease_ms limit) store =
      (claim_due_outbox worker_id now lease_ms limit store).1
  perform (reserves input later) store = (reserve_outbox_delivery input store).1
  perform (finalizes input result clock) store = (finalize input result clock store).1
  perform (releases_message scope message_id worker_id clock) store =
      release_outbox_lease scope message_id worker_id clock store

  unfoldable pub perform_all : List Transaction → Store → Store
  unfolding perform
  perform_all [] store = store
  perform_all (t ∷ rest) store = perform_all rest (perform t store)

  perform-Writes : (t : Transaction) (store : Store) → Writes store (perform t store)
  unfolding perform
  perform-Writes (opens input) store = open_contact-Writes ids input store
  perform-Writes (calls_back input) store = (handle_callback-Completes ids input store).writes
  perform-Writes (takes_over input) store = (operator_takeover-Completes ids input store).writes
  perform-Writes (claims_sessions worker_id now lease_ms limit) store =
      claim_due_sessions-Writes worker_id now lease_ms limit store
  perform-Writes (processes session worker_id now) store =
      (process_due-Completes ids session worker_id now store).writes
  perform-Writes (releases_session scope worker_id) store =
      release_lease-Writes scope worker_id store
  perform-Writes (claims_messages worker_id now lease_ms limit) store =
      claim_due_outbox-Writes worker_id now lease_ms limit store
  perform-Writes (reserves input later) store = reserve_outbox_delivery-Writes input store later
  perform-Writes (finalizes input result clock) store = finalize-Writes input result clock store
  perform-Writes (releases_message scope message_id worker_id clock) store =
      release_outbox_lease-Writes scope message_id worker_id clock store

  pub perform_all-Writes :
      (ts : List Transaction) (store : Store) → Writes store (perform_all ts store)
  unfolding perform_all
  perform_all-Writes [] store = nothing
  perform_all-Writes (t ∷ rest) store =
      trans (perform-Writes t store) (perform_all-Writes rest (perform t store))

-- No sequence of transactions violates a constraint of the tables: a session keeps a positive version and between one
-- and three attempts, a suppressed session has no schedule, leases and fences are whole, a fence ends after it starts,
-- and no message is both delivered and cancelled.
pub perform_all-IsStored :
    (ids : RuntimeIds) (ts : List Transaction) (store : Store)
    → IsStored store
    → IsStored (perform_all ids ts store)
perform_all-IsStored ids ts store s = Writes-IsStored (perform_all-Writes ids ts store) s

-- A session stays through every sequence of transactions: its owner never changes, its version never decreases, and
-- automation once suppressed stays suppressed.
pub perform_all-Continues :
    (ids : RuntimeIds) (ts : List Transaction) (store : Store) (scope : ContactScope)
    (session : ContactSessionRecord)
    → get_session_for_update scope store ≡ some session
    → Continues session scope (perform_all ids ts store)
perform_all-Continues ids ts store scope session found =
    Writes-Continues scope session (perform_all-Writes ids ts store) found

-- The audit trail is append-only under every sequence of transactions.
pub perform_all-audit :
    (ids : RuntimeIds) (ts : List Transaction) (store : Store)
    → (recent : List ContactAuditEvent) × ((perform_all ids ts store).audit ≡ recent ++ store.audit)
perform_all-audit ids ts store = Writes-audit (perform_all-Writes ids ts store)
