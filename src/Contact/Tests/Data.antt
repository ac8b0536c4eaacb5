-- ===== src/Contact/Tests/Data.antt =====
-- A session of the contact runtime, its message, and requests about it.
use ros_road_operating_syste.Prelude.{false, none, some, [], ◌∷◌, known}
use ros_road_operating_syste.Prelude.Text.{units}
use ros_road_operating_syste.Contact.Protocol.{
  HumanContactState, HumanContactLanguage, HumanContactIdentityConfidence, HumanSafetyActorRole,
  ContactCallbackKind,
}
use ros_road_operating_syste.Contact.Runtime.Records.{
  ContactScope, ContactSessionRecord, ContactOutboxMessage, MessageKey, ContactChannel,
  HumanSafetyChannel, ContactPromptId, RuntimeIds, OpenContactInput, CallbackInput,
  OperatorTakeoverInput, ProcessClaimedOutboxInput,
}
use ros_road_operating_syste.Contact.Runtime.Store.{Store}
use ros_road_operating_syste.Contact.Runtime.Service.{authority_policy}

abbrev pub scope : ContactScope
scope = record {
  tenant_id = units "tenant-1";
  case_id = units "case-1";
  session_id = units "session-1";
}

abbrev pub ids : RuntimeIds
ids = record {
  contact_outbox = λ key. key.version ∷ [];
  contact_audit = λ key. key.version ∷ [];
  contact_delivery = λ key worker_id time. time ∷ worker_id;
}

abbrev pub waiting : ContactSessionRecord
waiting = record {
  scope = scope;
  owner_actor_id = some (units "driver-1");
  state = HumanContactState.awaiting_response;
  version = 5;
  language = HumanContactLanguage.ar;
  identity_confidence = HumanContactIdentityConfidence.unverified;
  active_channel = some HumanSafetyChannel.push_channel;
  attempt_count = 1;
  response_deadline_at = some 40000;
  last_interaction_at = 10000;
  assigned_operator_id = none;
  automation_suppressed = false;
  next_action_at = some 40000;
  lease_owner = some (units "worker-1");
  lease_expires_at = some 80000;
  updated_at = 10000;
}

abbrev pub key : MessageKey
key = record {
  scope = scope;
  version = 5;
  channel = ContactChannel.push;
  prompt_id = ContactPromptId.response;
}

abbrev pub prompt : ContactOutboxMessage
prompt = record {
  scope = scope;
  message_id = 5 ∷ [];
  channel = ContactChannel.push;
  prompt_id = ContactPromptId.response;
  idempotency_key = key;
  available_at = 10000;
  attempt = 1;
  lease_owner = some (units "worker-1");
  lease_expires_at = some 60000;
  delivered_at = none;
  cancelled_at = none;
  last_error_code = none;
  delivery_token = none;
  delivery_started_at = none;
  delivery_deadline_at = none;
}

abbrev pub waiting_store : Store
waiting_store = record { sessions = waiting ∷ []; inbox = []; outbox = prompt ∷ []; audit = [] }

abbrev pub empty_store : Store
empty_store = record { sessions = []; inbox = []; outbox = []; audit = [] }

abbrev pub opening : OpenContactInput
opening = record {
  scope = scope;
  owner_actor_id = some (units "driver-1");
  language = known HumanContactLanguage.ar;
  trace_id = units "trace-1";
  occurred_at = some 1000;
  idempotency_key = units "open-1";
  preferred_channel = ContactChannel.in_app;
}

abbrev pub response : CallbackInput
response = record {
  scope = scope;
  owner_actor_id = some (units "driver-1");
  authenticated_tenant_id = units "tenant-1";
  authenticated_case_id = units "case-1";
  callback_id = units "callback-1";
  trace_id = units "trace-2";
  occurred_at = some 20000;
  idempotency_key = units "reply-1";
  kind = ContactCallbackKind.response;
  selected_language = none;
  identity_confidence = some HumanContactIdentityConfidence.partial;
}

abbrev pub forged : CallbackInput
forged = record response { owner_actor_id = some (units "driver-2") }

abbrev pub taking : OperatorTakeoverInput
taking = record {
  scope = scope;
  operator_id = units "operator-1";
  authenticated_tenant_id = units "tenant-1";
  authenticated_case_id = units "case-1";
  authorized_role = HumanSafetyActorRole.operator;
  trace_id = units "trace-3";
  occurred_at = some 30000;
  idempotency_key = units "takeover-1";
  authority_policy_version = authority_policy;
}

abbrev pub delivery : ProcessClaimedOutboxInput
delivery = record {
  scope = scope;
  message_id = 5 ∷ [];
  worker_id = units "worker-1";
  now = 11000;
  retry_available_at = 26000;
  error_code = units "channel_delivery_failed_or_timed_out";
  delivery_token = units "token-1";
  delivery_deadline_at = 16000;
}
