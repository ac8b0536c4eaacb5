-- ===== src/Contact/Runtime/Writes.antt =====
-- The transactions of the contact runtime as chains of single writes, and the constraints of the tables in
-- database/migrations/0006_ros_eye_contact_runtime.sql.
use ros_road_operating_syste.Prelude.{
  ℕ, ◌+◌, ◌≤◌, ◌<◌, true, false, none, some, List, [], ◌∷◌, All, ◌≡◌, ◌⊎◌,
}
use ros_road_operating_syste.Contact.Protocol.{HumanContactState, allows}
use ros_road_operating_syste.Contact.Runtime.Records.{
  ContactSessionRecord, ContactAuditEvent, ContactOutboxMessage,
}
use ros_road_operating_syste.Contact.Runtime.Store.{
  InboxRow, Store, get_session_for_update, insert_session, replace_row, is_pending, is_null,
}

-- The constraints on a row of ros_eye_contact_sessions. The first attempt is the opening itself.
pub record IsSession (row : ContactSessionRecord) : Type 0 where
  pub versioned : 1 ≤ row.version
  pub attempted : 1 ≤ row.attempt_count
  pub bounded : row.attempt_count ≤ 3
  pub unscheduled :
      row.automation_suppressed ≡ true
      → (row.next_action_at ≡ none) × (row.response_deadline_at ≡ none)
  pub leased : is_null row.lease_owner ≡ is_null row.lease_expires_at

-- The constraints on a row of ros_eye_contact_outbox.
pub record IsMessage (row : ContactOutboxMessage) : Type 0 where
  pub attempted : 1 ≤ row.attempt
  pub bounded : row.attempt ≤ 3
  pub leased : is_null row.lease_owner ≡ is_null row.lease_expires_at
  pub started : is_null row.delivery_token ≡ is_null row.delivery_started_at
  pub fenced : is_null row.delivery_token ≡ is_null row.delivery_deadline_at
  pub timely :
      (a b : ℕ) → row.delivery_started_at ≡ some a → row.delivery_deadline_at ≡ some b → a < b
  pub settled : (row.delivered_at ≡ none) ⊎ (row.cancelled_at ≡ none)

pub record IsStored (store : Store) : Type 0 where
  pub sessions : All IsSession store.sessions
  pub outbox : All IsMessage store.outbox

-- How a step of the service changes the session that it has read.
pub record Succeeds (current next : ContactSessionRecord) : Type 0 where
  pub scope : next.scope ≡ current.scope
  pub owner : next.owner_actor_id ≡ current.owner_actor_id
  pub version : next.version ≡ current.version + 1
  pub moved :
      (allows current.state next.state ≡ true) ⊎ (next.state ≡ HumanContactState.human_review)
  pub suppressed : current.automation_suppressed ≡ true → next.automation_suppressed ≡ true
  pub constrained : IsSession current → IsSession next

-- A change of the lease alone.
pub record Leases (row next : ContactSessionRecord) : Type 0 where
  pub scope : next.scope ≡ row.scope
  pub owner : next.owner_actor_id ≡ row.owner_actor_id
  pub version : next.version ≡ row.version
  pub state : next.state ≡ row.state
  pub suppressed : next.automation_suppressed ≡ row.automation_suppressed
  pub attempts : next.attempt_count ≡ row.attempt_count
  pub schedule : next.next_action_at ≡ row.next_action_at
  pub constrained : IsSession row → IsSession next

-- A change of an outbox row, which never makes it wait for a delivery again.
pub record Delivers (row next : ContactOutboxMessage) : Type 0 where
  pub scope : next.scope ≡ row.scope
  pub pending : is_pending next ≡ true → is_pending row ≡ true
  pub constrained : IsMessage row → IsMessage next

-- Two lists whose entries are related one by one.
abbrev pub Pointwise : {A : Type 0} → (A → A → Type 0) → List A → List A → Type 0
Pointwise R [] [] = Unit
Pointwise R (x ∷ xs) (y ∷ ys) = R x y × Pointwise R xs ys
Pointwise R _ _ = ⊥

-- One statement that changes a table.
pub data Write (store : Store) : Store → Type 0 where
  opens :
      (session : ContactSessionRecord)
      → get_session_for_update session.scope store ≡ none
      → IsSession session
      → session.automation_suppressed ≡ false
      → Write store (insert_session session store)
  advances :
      (current next : ContactSessionRecord)
      → get_session_for_update next.scope store ≡ some current
      → Succeeds current next
      → Write store (record store { sessions = replace_row next store.sessions })
  leases :
      (rows : List ContactSessionRecord)
      → Pointwise Leases store.sessions rows
      → Write store (record store { sessions = rows })
  notes : (row : InboxRow) → Write store (record store { inbox = row ∷ store.inbox })
  audits : (event : ContactAuditEvent) → Write store (record store { audit = event ∷ store.audit })
  sends :
      (session : ContactSessionRecord) (message : ContactOutboxMessage)
      → get_session_for_update message.scope store ≡ some session
      → session.automation_suppressed ≡ false
      → (IsStored store → IsMessage message)
      → Write store (record store { outbox = message ∷ store.outbox })
  delivers :
      (rows : List ContactOutboxMessage)
      → Pointwise Delivers store.outbox rows
      → Write store (record store { outbox = rows })

pub data Writes (store : Store) : Store → Type 0 where
  nothing : Writes store store
  step : {middle last : Store} → Writes store middle → Write middle last → Writes store last

pub trans : {a b c : Store} → Writes a b → Writes b c → Writes a c
trans h nothing = h
trans h (step k w) = step (trans h k) w

pub one : {a b : Store} → Write a b → Writes a b
one w = step nothing w
