-- ===== src/Contact/Tests/Runs.antt =====
-- Runs of the commands of the contact runtime.
use ros_road_operating_syste.Prelude.{
  ℕ, ◌+◌, ◌<◌, ◌≤◌, Bool, true, false, Option, none, some, List, [], ◌∷◌, ◌++◌, known, ◌≡◌, ◌≢◌,
  ◌↔◌, ◌⊎◌, inl, inr, refl, arith,
}
use ros_road_operating_syste.Prelude.Text.{Text, units}
use ros_road_operating_syste.Contact.Protocol.{
  HumanContactState, HumanContactLanguage, HumanContactIdentityConfidence, HumanSafetyActorRole,
  ReasonCode, ContactCallbackKind, SessionView, HumanContactTransitionContext,
  decide_human_contact_transition, allows, transition_authority, includes_role,
}
use ros_road_operating_syste.Contact.Runtime.Records.{
  ContactScope, ContactSessionRecord, ContactAuditEvent, ContactOutboxMessage, MessageKey, AuditKey,
  ContactChannel, HumanSafetyChannel, ContactPromptId, RuntimeDisposition,
  OutboxDeliveryDisposition, DeliveryResult, RuntimeIds, OpenContactInput, CallbackInput,
  OperatorTakeoverInput, ProcessClaimedOutboxInput,
}
use ros_road_operating_syste.Contact.Runtime.Store.{
  Store, get_session_for_update, is_pending, is_null,
}
use ros_road_operating_syste.Contact.Runtime.Service.{
  open_contact, handle_callback, operator_takeover, authority_policy, valid_callback,
  valid_takeover,
}
use ros_road_operating_syste.Contact.Tests.Data.{
  ids, waiting_store, empty_store, opening, response, taking,
}

opening_applies : (open_contact ids opening empty_store).0 ≡ RuntimeDisposition.applied
unfolding open_contact ros_road_operating_syste.Contact.Runtime.Service.valid_open
    ros_road_operating_syste.Contact.Runtime.Steps.valid_scope
    ros_road_operating_syste.Contact.Runtime.Steps.valid_id
    ros_road_operating_syste.Prelude.Text.matches_id
    ros_road_operating_syste.Contact.Runtime.Steps.valid_nullable_owner_actor_id is_null
    ros_road_operating_syste.Contact.Runtime.Steps.valid_language
    ros_road_operating_syste.Contact.Runtime.Store.insert_inbox_if_absent
    ros_road_operating_syste.Contact.Runtime.Store.in_inbox get_session_for_update
opening_applies = refl

response_applies : (handle_callback ids response waiting_store).0 ≡ RuntimeDisposition.applied
unfolding handle_callback valid_callback ros_road_operating_syste.Contact.Runtime.Steps.valid_scope
    ros_road_operating_syste.Contact.Runtime.Steps.valid_id
    ros_road_operating_syste.Prelude.Text.matches_id
    ros_road_operating_syste.Contact.Runtime.Steps.valid_nullable_owner_actor_id
    ros_road_operating_syste.Prelude.Text.text_eq is_null get_session_for_update
    ros_road_operating_syste.Contact.Runtime.Records.same_scope
    ros_road_operating_syste.Contact.Runtime.Store.same_nullable
    ros_road_operating_syste.Contact.Runtime.Store.insert_inbox_if_absent
    ros_road_operating_syste.Contact.Runtime.Store.in_inbox
    ros_road_operating_syste.Contact.Runtime.Service.is_closed_to_callbacks
    ros_road_operating_syste.Contact.Runtime.Service.callback_requested_state
    ros_road_operating_syste.Contact.Runtime.Service.callback_decision
    decide_human_contact_transition ros_road_operating_syste.Contact.Runtime.Steps.view
    ros_road_operating_syste.Contact.Protocol.allow
    ros_road_operating_syste.Contact.Protocol.decide_at
    ros_road_operating_syste.Contact.Protocol.decide_authority
    ros_road_operating_syste.Contact.Protocol.decide_authorized
    ros_road_operating_syste.Contact.Protocol.decide_role
    ros_road_operating_syste.Contact.Protocol.deny
    ros_road_operating_syste.Contact.Protocol.is_confirmed
    ros_road_operating_syste.Contact.Protocol.is_human_state
    ros_road_operating_syste.Contact.Protocol.non_empty
    ros_road_operating_syste.Contact.Protocol.allowed_states allows
    ros_road_operating_syste.Contact.Protocol.authority_rank
    ros_road_operating_syste.Contact.Protocol.authorized_role
    ros_road_operating_syste.Contact.Protocol.first_authorized
    ros_road_operating_syste.Contact.Protocol.holds includes_role
    ros_road_operating_syste.Contact.Protocol.role_authorities
    ros_road_operating_syste.Contact.Protocol.same_state
    ros_road_operating_syste.Contact.Protocol.state_rank transition_authority
    ros_road_operating_syste.Contact.Runtime.Service.callback_allowed
    ros_road_operating_syste.Contact.Runtime.Service.callback_applied
    ros_road_operating_syste.Contact.Runtime.Service.callback_at
    ros_road_operating_syste.Contact.Runtime.Service.callback_found
    ros_road_operating_syste.Contact.Runtime.Service.callback_key
    ros_road_operating_syste.Contact.Runtime.Service.callback_recorded
    ros_road_operating_syste.Contact.Runtime.Service.callback_requested
    ros_road_operating_syste.Contact.Runtime.Service.callback_session
    ros_road_operating_syste.Contact.Runtime.Service.is_accessibility_unavailable
    ros_road_operating_syste.Contact.Runtime.Service.is_channel_failure
    ros_road_operating_syste.Contact.Runtime.Service.language_prompt
    ros_road_operating_syste.Contact.Runtime.Service.review_or_applied
    ros_road_operating_syste.Contact.Runtime.Service.send_message
    ros_road_operating_syste.Contact.Runtime.Service.stronger_identity
    ros_road_operating_syste.Contact.Runtime.Steps.after_update
    ros_road_operating_syste.Contact.Runtime.Steps.audit
    ros_road_operating_syste.Contact.Runtime.Steps.channel_from_session
    ros_road_operating_syste.Contact.Runtime.Steps.channel_of
    ros_road_operating_syste.Contact.Runtime.Steps.fail_to_review
    ros_road_operating_syste.Contact.Runtime.Steps.kind_text
    ros_road_operating_syste.Contact.Runtime.Steps.outbox
    ros_road_operating_syste.Contact.Runtime.Steps.reason_text
    ros_road_operating_syste.Contact.Runtime.Steps.review_decision
    ros_road_operating_syste.Contact.Runtime.Steps.reviewed
    ros_road_operating_syste.Contact.Runtime.Store.cancel_pending_automation
    ros_road_operating_syste.Contact.Runtime.Store.cancel_row
    ros_road_operating_syste.Contact.Runtime.Store.clashes_event
    ros_road_operating_syste.Contact.Runtime.Store.clashes_message
    ros_road_operating_syste.Contact.Runtime.Store.insert_audit_if_absent
    ros_road_operating_syste.Contact.Runtime.Store.insert_outbox_if_absent is_pending
    ros_road_operating_syste.Contact.Runtime.Store.replace_row
    ros_road_operating_syste.Contact.Runtime.Store.session_row
    ros_road_operating_syste.Contact.Runtime.Store.update_row
    ros_road_operating_syste.Contact.Runtime.Store.update_session
    ros_road_operating_syste.Prelude.Text.is_id_char ros_road_operating_syste.Prelude.Text.is_space
    ros_road_operating_syste.Prelude.Text.trim
response_applies = refl

pub taking_applies : (operator_takeover ids taking waiting_store).0 ≡ RuntimeDisposition.applied
unfolding operator_takeover valid_takeover
    ros_road_operating_syste.Contact.Runtime.Steps.valid_scope
    ros_road_operating_syste.Contact.Runtime.Steps.valid_id
    ros_road_operating_syste.Prelude.Text.matches_id ros_road_operating_syste.Prelude.Text.text_eq
    ros_road_operating_syste.Contact.Runtime.Steps.human_operator_role is_null
    get_session_for_update ros_road_operating_syste.Contact.Runtime.Records.same_scope
    ros_road_operating_syste.Contact.Runtime.Store.insert_inbox_if_absent
    ros_road_operating_syste.Contact.Runtime.Store.in_inbox
    ros_road_operating_syste.Contact.Runtime.Service.takeover_decision
    decide_human_contact_transition ros_road_operating_syste.Contact.Runtime.Steps.view
    ros_road_operating_syste.Contact.Protocol.non_empty ros_road_operating_syste.Prelude.Text.trim
    ros_road_operating_syste.Contact.Runtime.Steps.reason_text
    ros_road_operating_syste.Contact.Protocol.allow
    ros_road_operating_syste.Contact.Protocol.decide_at
    ros_road_operating_syste.Contact.Protocol.decide_authority
    ros_road_operating_syste.Contact.Protocol.decide_authorized
    ros_road_operating_syste.Contact.Protocol.decide_role
    ros_road_operating_syste.Contact.Protocol.deny
    ros_road_operating_syste.Contact.Protocol.is_confirmed
    ros_road_operating_syste.Contact.Protocol.is_human_state
    ros_road_operating_syste.Contact.Protocol.allowed_states allows
    ros_road_operating_syste.Contact.Protocol.authority_rank
    ros_road_operating_syste.Contact.Protocol.authorized_role
    ros_road_operating_syste.Contact.Protocol.first_authorized
    ros_road_operating_syste.Contact.Protocol.holds includes_role
    ros_road_operating_syste.Contact.Protocol.role_authorities
    ros_road_operating_syste.Contact.Protocol.same_state
    ros_road_operating_syste.Contact.Protocol.state_rank transition_authority
    ros_road_operating_syste.Contact.Runtime.Service.taken_over
    ros_road_operating_syste.Contact.Runtime.Service.takeover_applied
    ros_road_operating_syste.Contact.Runtime.Service.takeover_at
    ros_road_operating_syste.Contact.Runtime.Service.takeover_found
    ros_road_operating_syste.Contact.Runtime.Service.takeover_key
    ros_road_operating_syste.Contact.Runtime.Service.takeover_recorded
    ros_road_operating_syste.Contact.Runtime.Steps.after_update
    ros_road_operating_syste.Contact.Runtime.Steps.audit
    ros_road_operating_syste.Contact.Runtime.Steps.fail_to_review
    ros_road_operating_syste.Contact.Runtime.Steps.kind_text
    ros_road_operating_syste.Contact.Runtime.Steps.review_decision
    ros_road_operating_syste.Contact.Runtime.Steps.reviewed
    ros_road_operating_syste.Contact.Runtime.Store.cancel_pending_automation
    ros_road_operating_syste.Contact.Runtime.Store.cancel_row
    ros_road_operating_syste.Contact.Runtime.Store.clashes_event
    ros_road_operating_syste.Contact.Runtime.Store.insert_audit_if_absent is_pending
    ros_road_operating_syste.Contact.Runtime.Store.replace_row
    ros_road_operating_syste.Contact.Runtime.Store.same_nullable
    ros_road_operating_syste.Contact.Runtime.Store.session_row
    ros_road_operating_syste.Contact.Runtime.Store.update_row
    ros_road_operating_syste.Contact.Runtime.Store.update_session
    ros_road_operating_syste.Prelude.Text.is_id_char ros_road_operating_syste.Prelude.Text.is_space
taking_applies = refl

-- A second operator does not take the session over from the first: the session falls to review.
second_operator_reviews :
    (operator_takeover ids
      (record taking { operator_id = units "operator-2" })
      (operator_takeover ids taking waiting_store).1).0
    ≡ RuntimeDisposition.human_review
unfolding operator_takeover valid_takeover
    ros_road_operating_syste.Contact.Runtime.Steps.valid_scope
    ros_road_operating_syste.Contact.Runtime.Steps.valid_id
    ros_road_operating_syste.Prelude.Text.matches_id ros_road_operating_syste.Prelude.Text.text_eq
    ros_road_operating_syste.Contact.Runtime.Steps.human_operator_role is_null
    get_session_for_update ros_road_operating_syste.Contact.Runtime.Records.same_scope
    ros_road_operating_syste.Contact.Runtime.Store.insert_inbox_if_absent
    ros_road_operating_syste.Contact.Runtime.Store.in_inbox
    ros_road_operating_syste.Contact.Runtime.Service.takeover_decision
    decide_human_contact_transition ros_road_operating_syste.Contact.Runtime.Steps.view
    ros_road_operating_syste.Contact.Protocol.non_empty ros_road_operating_syste.Prelude.Text.trim
    ros_road_operating_syste.Contact.Runtime.Steps.reason_text
    ros_road_operating_syste.Contact.Protocol.allow
    ros_road_operating_syste.Contact.Protocol.decide_at
    ros_road_operating_syste.Contact.Protocol.decide_authority
    ros_road_operating_syste.Contact.Protocol.decide_authorized
    ros_road_operating_syste.Contact.Protocol.decide_role
    ros_road_operating_syste.Contact.Protocol.deny
    ros_road_operating_syste.Contact.Protocol.is_confirmed
    ros_road_operating_syste.Contact.Protocol.is_human_state
    ros_road_operating_syste.Contact.Protocol.allowed_states allows
    ros_road_operating_syste.Contact.Protocol.authority_rank
    ros_road_operating_syste.Contact.Protocol.authorized_role
    ros_road_operating_syste.Contact.Protocol.first_authorized
    ros_road_operating_syste.Contact.Protocol.holds includes_role
    ros_road_operating_syste.Contact.Protocol.role_authorities
    ros_road_operating_syste.Contact.Protocol.same_state
    ros_road_operating_syste.Contact.Protocol.state_rank transition_authority
    ros_road_operating_syste.Contact.Runtime.Service.taken_over
    ros_road_operating_syste.Contact.Runtime.Service.takeover_applied
    ros_road_operating_syste.Contact.Runtime.Service.takeover_at
    ros_road_operating_syste.Contact.Runtime.Service.takeover_found
    ros_road_operating_syste.Contact.Runtime.Service.takeover_key
    ros_road_operating_syste.Contact.Runtime.Service.takeover_recorded
    ros_road_operating_syste.Contact.Runtime.Steps.after_update
    ros_road_operating_syste.Contact.Runtime.Steps.audit
    ros_road_operating_syste.Contact.Runtime.Steps.fail_to_review
    ros_road_operating_syste.Contact.Runtime.Steps.kind_text
    ros_road_operating_syste.Contact.Runtime.Steps.review_decision
    ros_road_operating_syste.Contact.Runtime.Steps.reviewed
    ros_road_operating_syste.Contact.Runtime.Store.cancel_pending_automation
    ros_road_operating_syste.Contact.Runtime.Store.cancel_row
    ros_road_operating_syste.Contact.Runtime.Store.clashes_event
    ros_road_operating_syste.Contact.Runtime.Store.insert_audit_if_absent is_pending
    ros_road_operating_syste.Contact.Runtime.Store.replace_row
    ros_road_operating_syste.Contact.Runtime.Store.same_nullable
    ros_road_operating_syste.Contact.Runtime.Store.session_row
    ros_road_operating_syste.Contact.Runtime.Store.update_row
    ros_road_operating_syste.Contact.Runtime.Store.update_session
    ros_road_operating_syste.Prelude.Text.is_id_char ros_road_operating_syste.Prelude.Text.is_space
second_operator_reviews = refl
