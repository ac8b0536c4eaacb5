-- ===== src/Contact/Runtime/Service/Callbacks.antt =====
-- contact-orchestration.ts: `validCallback`, `callbackSession` and `handleCallback`.
use ros_road_operating_syste.Prelude.{
  ℕ, ◌+◌, Bool, true, false, not, ◌&&◌, ◌||◌, Option, none, some, [], ◌∷◌, if◌then◌else◌,
}
use ros_road_operating_syste.Prelude.Text.{Text, text_eq, units}
use ros_road_operating_syste.Contact.Protocol.{
  response_deadline_ms, retry_base_delay_ms, HumanContactState, HumanContactLanguage,
  HumanContactIdentityConfidence, HumanSafetyActorRole, ReasonCode, ContactCallbackKind,
  HumanContactTransitionDecision, decide_human_contact_transition, same_state,
}
use ros_road_operating_syste.Contact.Runtime.Records.{
  ContactSessionRecord, AuditEventType, ActorType, ContactPromptId, RuntimeDisposition,
  CallbackInput, RuntimeIds,
}
use ros_road_operating_syste.Contact.Runtime.Store.{
  Store, Insertion, update_session, get_session_for_update, insert_inbox_if_absent,
  cancel_pending_automation, same_nullable, is_null,
}
use ros_road_operating_syste.Contact.Runtime.Steps.{
  valid_id, valid_scope, valid_nullable_owner_actor_id, channel_from_session, reason_text, view,
  audit, after_update, fail_to_review,
}
use ros_road_operating_syste.Contact.Runtime.Service.Opening.{scoped_key, send_message}

unfoldable pub callback_key : CallbackInput → Text
unfolding scoped_key
callback_key input = scoped_key (units "callback") input.scope input.callback_id

unfoldable pub is_language : Option HumanContactLanguage → Bool
is_language (some HumanContactLanguage.ar) = true
is_language (some HumanContactLanguage.en) = true
is_language _ = false

-- The confidence that a callback may carry, if it carries one.
unfoldable pub is_automated_confidence : Option HumanContactIdentityConfidence → Bool
is_automated_confidence (some HumanContactIdentityConfidence.confirmed) = false
is_automated_confidence _ = true

unfoldable pub is_response : ContactCallbackKind → Bool
is_response ContactCallbackKind.response = true
is_response ContactCallbackKind.partial_response = true
is_response _ = false

unfoldable pub valid_callback_extras : CallbackInput → ContactCallbackKind → Bool
unfolding is_language is_automated_confidence is_response
valid_callback_extras input ContactCallbackKind.language_selected =
    is_language input.selected_language
valid_callback_extras input kind =
    is_null input.selected_language
    && (is_null input.identity_confidence || is_response kind)
    && is_automated_confidence input.identity_confidence

unfoldable pub valid_callback : CallbackInput → Bool
unfolding valid_callback_extras
valid_callback input =
    valid_scope input.scope
    && valid_nullable_owner_actor_id input.owner_actor_id
    && text_eq input.authenticated_tenant_id input.scope.tenant_id
    && text_eq input.authenticated_case_id input.scope.case_id
    && valid_id input.callback_id
    && valid_id input.trace_id
    && valid_id input.idempotency_key
    && not (is_null input.occurred_at)
    && valid_callback_extras input input.kind

-- `['AWAITING_RESPONSE', 'PARTIAL_RESPONSE'].includes(current)`
unfoldable pub awaits_reply : HumanContactState → Bool
unfolding same_state
awaits_reply current =
    same_state current HumanContactState.awaiting_response
    || same_state current HumanContactState.partial_response

unfoldable pub only_if : Bool → HumanContactState → Option HumanContactState
only_if true state = some state
only_if false state = none

unfoldable pub callback_requested_state :
    HumanContactState → ContactCallbackKind → Option HumanContactState
unfolding only_if awaits_reply same_state
callback_requested_state current ContactCallbackKind.consent_granted =
    only_if (same_state current HumanContactState.consent_pending)
      HumanContactState.language_selection
callback_requested_state current ContactCallbackKind.consent_declined =
    only_if (same_state current HumanContactState.consent_pending) HumanContactState.human_review
callback_requested_state current ContactCallbackKind.language_selected =
    only_if (same_state current HumanContactState.language_selection) HumanContactState.contacting
callback_requested_state current ContactCallbackKind.partial_response =
    only_if (same_state current HumanContactState.awaiting_response)
      HumanContactState.partial_response
callback_requested_state current ContactCallbackKind.contradictory =
    some HumanContactState.human_review
callback_requested_state current ContactCallbackKind.channel_failure =
    some HumanContactState.human_review
callback_requested_state current ContactCallbackKind.accessibility_unavailable =
    some HumanContactState.human_review
callback_requested_state current ContactCallbackKind.disconnected =
    only_if (awaits_reply current) HumanContactState.disconnected
callback_requested_state current ContactCallbackKind.response =
    only_if (awaits_reply current) HumanContactState.response_confirmed

unfoldable pub stronger_identity :
    HumanContactIdentityConfidence
    → Option HumanContactIdentityConfidence
    → HumanContactIdentityConfidence
stronger_identity HumanContactIdentityConfidence.confirmed candidate =
    HumanContactIdentityConfidence.confirmed
stronger_identity current (some HumanContactIdentityConfidence.partial) =
    HumanContactIdentityConfidence.partial
stronger_identity current _ = current

unfoldable pub selected :
    ContactCallbackKind → Option HumanContactLanguage → HumanContactLanguage → HumanContactLanguage
selected ContactCallbackKind.language_selected (some language) current = language
selected _ _ current = current

unfoldable pub followup_deadline : ContactCallbackKind → ℕ → Option ℕ → Option ℕ
followup_deadline ContactCallbackKind.partial_response occurred_at deadline =
    some (occurred_at + response_deadline_ms)
followup_deadline _ occurred_at deadline = deadline

unfoldable pub or_retry : Option ℕ → ℕ → ℕ
or_retry (some deadline) occurred_at = deadline
or_retry none occurred_at = occurred_at + retry_base_delay_ms

unfoldable pub next_action : HumanContactState → Option ℕ → ℕ → Option ℕ
unfolding or_retry
next_action HumanContactState.language_selection deadline occurred_at =
    some (or_retry deadline occurred_at)
next_action HumanContactState.partial_response deadline occurred_at =
    some (or_retry deadline occurred_at)
next_action HumanContactState.disconnected deadline occurred_at =
    some (or_retry deadline occurred_at)
next_action HumanContactState.contacting deadline occurred_at = some occurred_at
next_action _ deadline occurred_at = none

unfoldable pub response_deadline : HumanContactState → Option ℕ → Option ℕ
response_deadline HumanContactState.language_selection deadline = deadline
response_deadline HumanContactState.partial_response deadline = deadline
response_deadline _ deadline = none

unfoldable pub callback_session :
    ContactSessionRecord → CallbackInput → ℕ → HumanContactState → Option ℕ → ContactSessionRecord
unfolding selected followup_deadline next_action response_deadline
callback_session current input occurred_at state protocol_deadline =
    let followup : Option ℕ = followup_deadline input.kind occurred_at protocol_deadline in
    record current {
      state = state;
      version = current.version + 1;
      language = selected input.kind input.selected_language current.language;
      identity_confidence = stronger_identity current.identity_confidence input.identity_confidence;
      last_interaction_at = occurred_at;
      next_action_at = next_action state followup occurred_at;
      response_deadline_at = response_deadline state followup;
      updated_at = occurred_at;
    }

-- `['OPERATOR_TAKEOVER', 'ESCALATED', 'COMPLETED'].includes(state)`
unfoldable pub is_closed_to_callbacks : HumanContactState → Bool
is_closed_to_callbacks HumanContactState.operator_takeover = true
is_closed_to_callbacks HumanContactState.escalated = true
is_closed_to_callbacks HumanContactState.completed = true
is_closed_to_callbacks _ = false

unfoldable pub is_channel_failure : ContactCallbackKind → Bool
is_channel_failure ContactCallbackKind.channel_failure = true
is_channel_failure _ = false

unfoldable pub is_accessibility_unavailable : ContactCallbackKind → Bool
is_accessibility_unavailable ContactCallbackKind.accessibility_unavailable = true
is_accessibility_unavailable _ = false

unfoldable pub callback_decision :
    ContactSessionRecord → CallbackInput → ℕ → HumanContactState → HumanContactTransitionDecision
callback_decision current input occurred_at requested_state =
    decide_human_contact_transition (view current) requested_state (record {
      actor_id = units "callback";
      actor_roles = HumanSafetyActorRole.system ∷ [];
      occurred_at = some occurred_at;
      reason = reason_text (ReasonCode.callback input.kind);
      trace_id = input.trace_id;
      channel_healthy = not (is_channel_failure input.kind);
      accessibility_satisfied = not (is_accessibility_unavailable input.kind);
      expected_version = current.version;
    })

unfoldable pub review_or_applied : HumanContactState → RuntimeDisposition
review_or_applied HumanContactState.human_review = RuntimeDisposition.human_review
review_or_applied _ = RuntimeDisposition.applied

module _ (ids : RuntimeIds) where
  unfoldable pub language_prompt : ContactCallbackKind → ContactSessionRecord → ℕ → Store → Store
  language_prompt ContactCallbackKind.consent_granted next occurred_at store =
      send_message ids next (channel_from_session next) ContactPromptId.language occurred_at store
  language_prompt _ next occurred_at store = store

  unfoldable pub callback_applied :
      ContactSessionRecord
      → CallbackInput
      → ℕ
      → ContactSessionRecord
      → Store
      → RuntimeDisposition × Store
  unfolding language_prompt review_or_applied
  callback_applied current input occurred_at next store =
      after_update
        (update_session next current.version
          (cancel_pending_automation input.scope occurred_at store))
        (language_prompt input.kind next occurred_at)
        (audit ids next (AuditEventType.callback input.kind) (ReasonCode.callback input.kind)
          input.trace_id occurred_at ActorType.system (units "callback")
          HumanSafetyActorRole.system)
        (review_or_applied next.state)

  unfoldable pub callback_allowed :
      ContactSessionRecord
      → CallbackInput
      → ℕ
      → HumanContactTransitionDecision
      → Store
      → RuntimeDisposition × Store
  unfolding callback_applied
  callback_allowed current input occurred_at decision store =
      if not decision.allowed
      then fail_to_review ids current input.trace_id occurred_at decision.reason_code store
      else callback_applied current input occurred_at
          (callback_session current input occurred_at decision.next_state decision.deadline_at)
          store

  unfoldable pub callback_requested :
      ContactSessionRecord
      → CallbackInput
      → ℕ
      → Option HumanContactState
      → Store
      → RuntimeDisposition × Store
  unfolding callback_allowed
  callback_requested current input occurred_at none store =
      fail_to_review ids current input.trace_id occurred_at ReasonCode.invalid_callback_transition
        store
  callback_requested current input occurred_at (some requested_state) store =
      callback_allowed current input occurred_at
        (callback_decision current input occurred_at requested_state) store

  unfoldable pub callback_recorded :
      ContactSessionRecord → CallbackInput → ℕ → Insertion × Store → RuntimeDisposition × Store
  unfolding callback_requested
  callback_recorded current input occurred_at (Insertion.exists, store) =
      (RuntimeDisposition.idempotent, store)
  callback_recorded current input occurred_at (Insertion.inserted, store) =
      if current.automation_suppressed || is_closed_to_callbacks current.state
      then (RuntimeDisposition.idempotent, store)
      else callback_requested current input occurred_at
          (callback_requested_state current.state input.kind) store

  unfoldable pub callback_found :
      Option ContactSessionRecord → CallbackInput → ℕ → Store → RuntimeDisposition × Store
  unfolding callback_recorded
  callback_found none input occurred_at store = (RuntimeDisposition.human_review, store)
  callback_found (some current) input occurred_at store =
      if not (same_nullable current.owner_actor_id input.owner_actor_id)
      then (RuntimeDisposition.human_review, store)
      else callback_recorded current input occurred_at
          (insert_inbox_if_absent input.scope (callback_key input) store)

  unfoldable pub callback_at : CallbackInput → Option ℕ → Store → RuntimeDisposition × Store
  unfolding callback_found
  callback_at input none store = (RuntimeDisposition.human_review, store)
  callback_at input (some occurred_at) store =
      callback_found (get_session_for_update input.scope store) input occurred_at store

  unfoldable pub handle_callback : CallbackInput → Store → RuntimeDisposition × Store
  unfolding callback_at
  handle_callback input store =
      if valid_callback input
      then callback_at input input.occurred_at store
      else (RuntimeDisposition.human_review, store)
