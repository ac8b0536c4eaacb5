-- ===== src/Contact/Runtime/Steps.antt =====
-- apps/api/src/ros-eye/contact-orchestration.ts, lines 475-595: what the operations of the service share.
use ros_road_operating_syste.Prelude.{
  ℕ, ◌+◌, ◌*◌, min, max, Bool, true, false, ◌&&◌, ◌==◌, leb, Option, none, some, [], ◌∷◌, ◌++◌,
  if◌then◌else◌, Loose, known, unknown,
}
use ros_road_operating_syste.Prelude.Text.{Text, units, matches_id}
use ros_road_operating_syste.Contact.Protocol.{
  retry_base_delay_ms, HumanContactState, HumanContactLanguage, HumanSafetyActorRole, ReasonCode,
  ContactCallbackKind, SessionView, HumanContactTransitionDecision, decide_human_contact_transition,
}
use ros_road_operating_syste.Contact.Runtime.Records.{
  ContactScope, ContactSessionRecord, ContactAuditEvent, ContactOutboxMessage, MessageKey,
  AuditEventType, ActorType, ContactChannel, HumanSafetyChannel, ContactPromptId,
  RuntimeDisposition, RuntimeIds,
}
use ros_road_operating_syste.Contact.Runtime.Store.{
  Store, Update, update_session, insert_audit_if_absent, cancel_pending_automation,
}

unfoldable pub valid_id : Text → Bool
valid_id value = matches_id 2 127 value

unfoldable pub valid_scope : ContactScope → Bool
valid_scope scope = valid_id scope.tenant_id && valid_id scope.case_id && valid_id scope.session_id

unfoldable pub valid_nullable_owner_actor_id : Option Text → Bool
valid_nullable_owner_actor_id none = true
valid_nullable_owner_actor_id (some value) = valid_id value

unfoldable pub valid_language : Loose HumanContactLanguage → Bool
valid_language (known language) = true
valid_language unknown = false

unfoldable pub human_operator_role : HumanSafetyActorRole → Bool
human_operator_role HumanSafetyActorRole.operator = true
human_operator_role HumanSafetyActorRole.supervisor = true
human_operator_role HumanSafetyActorRole.safety_lead = true
human_operator_role _ = false

unfoldable pub bounded_outbox_backoff : ℕ → ℕ
bounded_outbox_backoff attempt = min 60000 (retry_base_delay_ms * max 1 attempt)

unfoldable pub to_safety_channel : ContactChannel → HumanSafetyChannel
to_safety_channel ContactChannel.in_app = HumanSafetyChannel.in_app_chat
to_safety_channel ContactChannel.push = HumanSafetyChannel.push_channel
to_safety_channel ContactChannel.sms_sim = HumanSafetyChannel.sms_simulation
to_safety_channel ContactChannel.telephony_sim = HumanSafetyChannel.telephony_simulation

unfoldable pub channel_of : Option HumanSafetyChannel → ContactChannel
channel_of (some HumanSafetyChannel.in_app_chat) = ContactChannel.in_app
channel_of (some HumanSafetyChannel.in_app_voice) = ContactChannel.in_app
channel_of (some HumanSafetyChannel.sms_simulation) = ContactChannel.sms_sim
channel_of (some HumanSafetyChannel.telephony_simulation) = ContactChannel.telephony_sim
channel_of _ = ContactChannel.push

unfoldable pub channel_from_session : ContactSessionRecord → ContactChannel
channel_from_session session = channel_of session.active_channel

is_in_app : Option HumanSafetyChannel → Bool
is_in_app (some HumanSafetyChannel.in_app_chat) = true
is_in_app (some HumanSafetyChannel.in_app_voice) = true
is_in_app _ = false

unfoldable pub fallback_channel : Option HumanSafetyChannel → ℕ → ContactChannel
unfolding is_in_app
fallback_channel active attempt =
    if leb attempt 1
    then if is_in_app active then ContactChannel.in_app else ContactChannel.push
    else if attempt == 2
    then ContactChannel.push
    else ContactChannel.sms_sim

unfoldable pub kind_text : ContactCallbackKind → Text
kind_text ContactCallbackKind.consent_granted = units "consent_granted"
kind_text ContactCallbackKind.consent_declined = units "consent_declined"
kind_text ContactCallbackKind.language_selected = units "language_selected"
kind_text ContactCallbackKind.partial_response = units "partial_response"
kind_text ContactCallbackKind.response = units "response"
kind_text ContactCallbackKind.contradictory = units "contradictory"
kind_text ContactCallbackKind.disconnected = units "disconnected"
kind_text ContactCallbackKind.channel_failure = units "channel_failure"
kind_text ContactCallbackKind.accessibility_unavailable = units "accessibility_unavailable"

unfoldable pub reason_text : ReasonCode → Text
unfolding kind_text
reason_text ReasonCode.approved = units "approved"
reason_text ReasonCode.invalid_or_stale_transition_context =
    units "invalid_or_stale_transition_context"
reason_text ReasonCode.invalid_contact_transition = units "invalid_contact_transition"
reason_text ReasonCode.transition_authority_undefined = units "transition_authority_undefined"
reason_text ReasonCode.actor_role_not_authorized = units "actor_role_not_authorized"
reason_text ReasonCode.channel_unavailable = units "channel_unavailable"
reason_text ReasonCode.accessibility_path_unavailable = units "accessibility_path_unavailable"
reason_text ReasonCode.retry_limit_exhausted = units "retry_limit_exhausted"
reason_text ReasonCode.identity_not_confirmed = units "identity_not_confirmed"
reason_text ReasonCode.protocol_started_with_consent = units "protocol_started_with_consent"
reason_text ReasonCode.invalid_callback_transition = units "invalid_callback_transition"
reason_text ReasonCode.consent_deadline_elapsed = units "consent_deadline_elapsed"
reason_text ReasonCode.language_selection_deadline_elapsed =
    units "language_selection_deadline_elapsed"
reason_text ReasonCode.contact_channel_ready = units "contact_channel_ready"
reason_text ReasonCode.response_deadline_elapsed = units "response_deadline_elapsed"
reason_text ReasonCode.partial_response_followup_due = units "partial_response_followup_due"
reason_text ReasonCode.unexpected_due_state = units "unexpected_due_state"
reason_text ReasonCode.channel_disconnected_retry = units "channel_disconnected_retry"
reason_text ReasonCode.no_response_retry_due = units "no_response_retry_due"
reason_text ReasonCode.operator_takeover_reason = units "operator_takeover"
reason_text (ReasonCode.callback kind) = kind_text kind

unfoldable pub worker_trace : Text → Text
worker_trace worker_id = units "worker-" ++ worker_id

unfoldable pub view : ContactSessionRecord → SessionView
view session = record {
  state = session.state;
  version = session.version;
  identity_confidence = session.identity_confidence;
  attempt_count = session.attempt_count;
}

unfoldable pub system_transition :
    ContactSessionRecord
    → HumanContactState
    → Text
    → ℕ
    → ReasonCode
    → HumanContactTransitionDecision
system_transition current requested_state worker_id occurred_at reason =
    decide_human_contact_transition (view current) requested_state (record {
      actor_id = worker_id;
      actor_roles = HumanSafetyActorRole.system ∷ [];
      occurred_at = some occurred_at;
      reason = reason_text reason;
      trace_id = worker_trace worker_id;
      channel_healthy = true;
      accessibility_satisfied = true;
      expected_version = current.version;
    })

module _ (ids : RuntimeIds) where
  unfoldable pub outbox :
      ContactSessionRecord → ContactChannel → ContactPromptId → ℕ → ContactOutboxMessage
  outbox session channel prompt_id available_at =
      let key : MessageKey = record {
        scope = session.scope;
        version = session.version;
        channel = channel;
        prompt_id = prompt_id;
      } in
      record {
        scope = session.scope;
        message_id = ids.contact_outbox key;
        channel = channel;
        prompt_id = prompt_id;
        idempotency_key = key;
        available_at = available_at;
        attempt = session.attempt_count;
        lease_owner = none;
        lease_expires_at = none;
        delivered_at = none;
        cancelled_at = none;
        last_error_code = none;
        delivery_token = none;
        delivery_started_at = none;
        delivery_deadline_at = none;
      }

  unfoldable pub audit :
      ContactSessionRecord
      → AuditEventType
      → ReasonCode
      → Text
      → ℕ
      → ActorType
      → Text
      → HumanSafetyActorRole
      → ContactAuditEvent
  audit session event_type reason_code trace_id occurred_at actor_type actor_id role = record {
    scope = session.scope;
    event_id =
        ids.contact_audit
          (record { scope = session.scope; version = session.version; event_type = event_type });
    event_type = event_type;
    state = session.state;
    version = session.version;
    actor_type = actor_type;
    actor_id = actor_id;
    authorized_by_role = role;
    reason_code = reason_code;
    occurred_at = occurred_at;
    trace_id = trace_id;
  }

-- What follows every `updateSession` of the service: CONFLICT ends the transaction's work, otherwise the
-- message, if the step sends one, and the audit event are inserted.
unfoldable pub after_update :
    Update × Store
    → (Store → Store)
    → ContactAuditEvent
    → RuntimeDisposition
    → RuntimeDisposition × Store
after_update (Update.conflict, store) send event disposition = (RuntimeDisposition.conflict, store)
after_update (Update.updated, store) send event disposition =
    (disposition, (insert_audit_if_absent event (send store)).1)

-- A step that sends nothing.
abbrev pub sends_nothing : Store → Store
sends_nothing store = store

unfoldable pub review_decision :
    ContactSessionRecord → Text → ℕ → ReasonCode → HumanContactTransitionDecision
review_decision current trace_id occurred_at reason_code =
    decide_human_contact_transition (view current) HumanContactState.human_review (record {
      actor_id = units "runtime";
      actor_roles = HumanSafetyActorRole.system ∷ [];
      occurred_at = some occurred_at;
      reason = reason_text reason_code;
      trace_id = trace_id;
      channel_healthy = false;
      accessibility_satisfied = false;
      expected_version = current.version;
    })

unfoldable pub reviewed : ContactSessionRecord → Text → ℕ → ReasonCode → ContactSessionRecord
reviewed current trace_id occurred_at reason_code =
    let decision : HumanContactTransitionDecision =
      review_decision current trace_id occurred_at reason_code in
    record current {
      state = if decision.allowed then decision.next_state else HumanContactState.human_review;
      next_action_at = none;
      response_deadline_at = none;
      version = current.version + 1;
      updated_at = occurred_at;
    }

module _ (ids : RuntimeIds) where
  unfoldable pub fail_to_review :
      ContactSessionRecord → Text → ℕ → ReasonCode → Store → RuntimeDisposition × Store
  fail_to_review current trace_id occurred_at reason_code store =
      let review : ContactSessionRecord = reviewed current trace_id occurred_at reason_code in
      after_update
        (update_session review current.version
          (cancel_pending_automation current.scope occurred_at store))
        sends_nothing
        (audit ids review AuditEventType.contact_runtime_rejected reason_code trace_id occurred_at
          ActorType.system (units "runtime") HumanSafetyActorRole.system)
        RuntimeDisposition.human_review
