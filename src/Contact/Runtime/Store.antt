-- ===== src/Contact/Runtime/Store.antt =====
-- apps/api/src/ros-eye/contact-orchestration-postgres.ts, lines 255-344: the four tables and the statements of a
-- transaction. The primary keys are those of database/migrations/0006_ros_eye_contact_runtime.sql: a table has at
-- most one row of a key, and an operation finds the first.
use ros_road_operating_syste.Prelude.{
  ℕ, Bool, true, false, ◌&&◌, ◌||◌, ◌==◌, Option, none, some, List, [], ◌∷◌, map, any,
  if◌then◌else◌,
}
use ros_road_operating_syste.Prelude.Text.{Text, text_eq}
use ros_road_operating_syste.Contact.Protocol.{ContactCallbackKind}
use ros_road_operating_syste.Contact.Runtime.Records.{
  ContactScope, same_scope, ContactSessionRecord, ContactAuditEvent, ContactOutboxMessage,
  MessageKey, AuditEventType, ContactChannel, ContactPromptId,
}

pub record InboxRow : Type 0 where
  pub scope : ContactScope
  pub idempotency_key : Text

pub record Store : Type 0 where
  pub sessions : List ContactSessionRecord
  pub inbox : List InboxRow
  pub outbox : List ContactOutboxMessage
  pub audit : List ContactAuditEvent

pub data Insertion : Type 0 where
  inserted exists : Insertion

pub data Update : Type 0 where
  updated conflict : Update

-- `IS NOT DISTINCT FROM` on a nullable text, and `===` on `string | null`.
unfoldable pub same_nullable : Option Text → Option Text → Bool
same_nullable none none = true
same_nullable (some a) (some b) = text_eq a b
same_nullable _ _ = false

unfoldable pub is_null : {A : Type 0} → Option A → Bool
is_null none = true
is_null (some a) = false

unfoldable pub session_row : ContactScope → List ContactSessionRecord → Option ContactSessionRecord
session_row scope [] = none
session_row scope (row ∷ rows) =
    if same_scope scope row.scope then some row else session_row scope rows

unfoldable pub get_session_for_update : ContactScope → Store → Option ContactSessionRecord
unfolding session_row
get_session_for_update scope store = session_row scope store.sessions

unfoldable pub insert_session : ContactSessionRecord → Store → Store
insert_session session store = record store { sessions = session ∷ store.sessions }

unfoldable pub replace_row :
    ContactSessionRecord → List ContactSessionRecord → List ContactSessionRecord
replace_row session [] = []
replace_row session (row ∷ rows) =
    if same_scope session.scope row.scope then session ∷ rows else row ∷ replace_row session rows

unfoldable pub update_row :
    ContactSessionRecord → ℕ → Store → Option ContactSessionRecord → Update × Store
unfolding replace_row
update_row session expected_version store none = (conflict, store)
update_row session expected_version store (some row) =
    if same_nullable row.owner_actor_id session.owner_actor_id && row.version == expected_version
    then (updated, record store { sessions = replace_row session store.sessions })
    else (conflict, store)

unfoldable pub update_session : ContactSessionRecord → ℕ → Store → Update × Store
unfolding update_row
update_session session expected_version store =
    update_row session expected_version store (get_session_for_update session.scope store)

unfoldable pub in_inbox : ContactScope → Text → List InboxRow → Bool
in_inbox scope key rows =
    any (λ row. same_scope scope row.scope && text_eq key row.idempotency_key) rows

unfoldable pub insert_inbox_if_absent : ContactScope → Text → Store → Insertion × Store
insert_inbox_if_absent scope key store =
    if in_inbox scope key store.inbox then (exists, store) else (
      inserted,
      record store { inbox = (record { scope = scope; idempotency_key = key }) ∷ store.inbox },
    )

kind_rank : ContactCallbackKind → ℕ
kind_rank ContactCallbackKind.consent_granted = 0
kind_rank ContactCallbackKind.consent_declined = 1
kind_rank ContactCallbackKind.language_selected = 2
kind_rank ContactCallbackKind.partial_response = 3
kind_rank ContactCallbackKind.response = 4
kind_rank ContactCallbackKind.contradictory = 5
kind_rank ContactCallbackKind.disconnected = 6
kind_rank ContactCallbackKind.channel_failure = 7
kind_rank ContactCallbackKind.accessibility_unavailable = 8

event_type_rank : AuditEventType → ℕ
unfolding kind_rank
event_type_rank AuditEventType.operator_takeover = 9
event_type_rank AuditEventType.contact_consent_pending = 10
event_type_rank AuditEventType.contact_awaiting_response = 11
event_type_rank AuditEventType.contact_no_response = 12
event_type_rank AuditEventType.contact_partial_followup = 13
event_type_rank AuditEventType.contact_escalated = 14
event_type_rank AuditEventType.contact_retry_contacting = 15
event_type_rank AuditEventType.contact_runtime_rejected = 16
event_type_rank (AuditEventType.callback kind) = kind_rank kind

-- PRIMARY KEY (scope, event_id) and UNIQUE (scope, session_version, event_type).
unfoldable pub clashes_event : ContactAuditEvent → ContactAuditEvent → Bool
unfolding event_type_rank
clashes_event event row =
    same_scope event.scope row.scope
    && (text_eq event.event_id row.event_id
        || event.version == row.version
          && event_type_rank event.event_type == event_type_rank row.event_type)

unfoldable pub insert_audit_if_absent : ContactAuditEvent → Store → Insertion × Store
insert_audit_if_absent event store =
    if any (clashes_event event) store.audit
    then (exists, store)
    else (inserted, record store { audit = event ∷ store.audit })

channel_rank : ContactChannel → ℕ
channel_rank ContactChannel.in_app = 0
channel_rank ContactChannel.push = 1
channel_rank ContactChannel.sms_sim = 2
channel_rank ContactChannel.telephony_sim = 3

prompt_rank : ContactPromptId → ℕ
prompt_rank ContactPromptId.consent = 0
prompt_rank ContactPromptId.language = 1
prompt_rank ContactPromptId.response = 2
prompt_rank ContactPromptId.accessibility = 3
prompt_rank ContactPromptId.handoff = 4

same_message_key : MessageKey → MessageKey → Bool
unfolding channel_rank prompt_rank
same_message_key a b =
    same_scope a.scope b.scope
    && a.version == b.version
    && channel_rank a.channel == channel_rank b.channel
    && prompt_rank a.prompt_id == prompt_rank b.prompt_id

-- PRIMARY KEY (scope, message_id) and UNIQUE (scope, idempotency_key).
unfoldable pub clashes_message : ContactOutboxMessage → ContactOutboxMessage → Bool
unfolding same_message_key
clashes_message message row =
    same_scope message.scope row.scope
    && (text_eq message.message_id row.message_id
        || same_message_key message.idempotency_key row.idempotency_key)

unfoldable pub insert_outbox_if_absent : ContactOutboxMessage → Store → Insertion × Store
insert_outbox_if_absent message store =
    if any (clashes_message message) store.outbox
    then (exists, store)
    else (inserted, record store { outbox = message ∷ store.outbox })

-- `delivered_at IS NULL AND cancelled_at IS NULL`
unfoldable pub is_pending : ContactOutboxMessage → Bool
is_pending row = is_null row.delivered_at && is_null row.cancelled_at

unfoldable pub cancel_row : ContactScope → ℕ → ContactOutboxMessage → ContactOutboxMessage
cancel_row scope occurred_at row =
    if same_scope scope row.scope && is_pending row
    then record row {
      cancelled_at = some occurred_at;
      lease_owner = none;
      lease_expires_at = none;
      delivery_token = none;
      delivery_started_at = none;
      delivery_deadline_at = none;
    }
    else row

unfoldable pub cancel_pending_automation : ContactScope → ℕ → Store → Store
cancel_pending_automation scope occurred_at store = record store {
  outbox = map (cancel_row scope occurred_at) store.outbox;
}
