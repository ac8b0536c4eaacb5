-- ===== src/Contact/Runtime/Service/Takeover.antt =====
-- contact-orchestration.ts: `operatorTakeover`.
use ros_road_operating_syste.Prelude.{
  ℕ, ◌+◌, Bool, true, not, ◌&&◌, Option, none, some, [], ◌∷◌, if◌then◌else◌,
}
use ros_road_operating_syste.Prelude.Text.{Text, text_eq, units}
use ros_road_operating_syste.Contact.Protocol.{
  HumanContactState, ReasonCode, HumanContactTransitionDecision, decide_human_contact_transition,
}
use ros_road_operating_syste.Contact.Runtime.Records.{
  ContactSessionRecord, AuditEventType, ActorType, RuntimeDisposition, OperatorTakeoverInput,
  RuntimeIds,
}
use ros_road_operating_syste.Contact.Runtime.Store.{
  Store, Insertion, update_session, get_session_for_update, insert_inbox_if_absent,
  cancel_pending_automation, same_nullable, is_null,
}
use ros_road_operating_syste.Contact.Runtime.Steps.{
  valid_id, valid_scope, human_operator_role, reason_text, view, audit, after_update, sends_nothing,
  fail_to_review,
}
use ros_road_operating_syste.Contact.Runtime.Service.Opening.{bar, scoped_key}

unfoldable pub takeover_key : OperatorTakeoverInput → Text
unfolding scoped_key
takeover_key input =
    scoped_key (units "takeover") input.scope (bar input.operator_id input.idempotency_key)

unfoldable pub taken_over : ContactSessionRecord → OperatorTakeoverInput → ℕ → ContactSessionRecord
taken_over current input occurred_at = record current {
  state = HumanContactState.operator_takeover;
  assigned_operator_id = some input.operator_id;
  automation_suppressed = true;
  next_action_at = none;
  response_deadline_at = none;
  lease_owner = none;
  lease_expires_at = none;
  version = current.version + 1;
  updated_at = occurred_at;
}

unfoldable pub takeover_decision :
    ContactSessionRecord → OperatorTakeoverInput → ℕ → HumanContactTransitionDecision
takeover_decision current input occurred_at =
    decide_human_contact_transition (view current) HumanContactState.operator_takeover (record {
      actor_id = input.operator_id;
      actor_roles = input.authorized_role ∷ [];
      occurred_at = some occurred_at;
      reason = reason_text ReasonCode.operator_takeover_reason;
      trace_id = input.trace_id;
      channel_healthy = true;
      accessibility_satisfied = true;
      expected_version = current.version;
    })

-- `CONTACT_OPERATOR_AUTHORITY_POLICY_VERSION`
abbrev pub authority_policy : Text
authority_policy = units "ros-eye.contact-authority.v1"

unfoldable pub valid_takeover : OperatorTakeoverInput → Bool
valid_takeover input =
    valid_scope input.scope
    && text_eq input.authenticated_tenant_id input.scope.tenant_id
    && text_eq input.authenticated_case_id input.scope.case_id
    && human_operator_role input.authorized_role
    && valid_id input.operator_id
    && valid_id input.trace_id
    && valid_id input.idempotency_key
    && not (is_null input.occurred_at)
    && text_eq input.authority_policy_version authority_policy

module _ (ids : RuntimeIds) where
  unfoldable pub takeover_applied :
      ContactSessionRecord
      → OperatorTakeoverInput
      → ℕ
      → ContactSessionRecord
      → Store
      → RuntimeDisposition × Store
  takeover_applied current input occurred_at next store =
      after_update
        (update_session next current.version
          (cancel_pending_automation input.scope occurred_at store))
        sends_nothing
        (audit ids next AuditEventType.operator_takeover ReasonCode.operator_takeover_reason
          input.trace_id occurred_at ActorType.operator input.operator_id input.authorized_role)
        RuntimeDisposition.applied

  unfoldable pub takeover_recorded :
      ContactSessionRecord
      → OperatorTakeoverInput
      → ℕ
      → Insertion × Store
      → RuntimeDisposition × Store
  unfolding takeover_applied
  takeover_recorded current input occurred_at (Insertion.exists, store) =
      (RuntimeDisposition.idempotent, store)
  takeover_recorded current input occurred_at (Insertion.inserted, store) =
      if current.automation_suppressed
        && same_nullable current.assigned_operator_id (some input.operator_id)
      then (RuntimeDisposition.idempotent, store)
      else if not (takeover_decision current input occurred_at).allowed
      then fail_to_review ids current input.trace_id occurred_at
          (takeover_decision current input occurred_at).reason_code store
      else takeover_applied current input occurred_at (taken_over current input occurred_at) store

  unfoldable pub takeover_found :
      Option ContactSessionRecord → OperatorTakeoverInput → ℕ → Store → RuntimeDisposition × Store
  unfolding takeover_recorded
  takeover_found none input occurred_at store = (RuntimeDisposition.human_review, store)
  takeover_found (some current) input occurred_at store =
      takeover_recorded current input occurred_at
        (insert_inbox_if_absent input.scope (takeover_key input) store)

  unfoldable pub takeover_at : OperatorTakeoverInput → Option ℕ → Store → RuntimeDisposition × Store
  unfolding takeover_found
  takeover_at input none store = (RuntimeDisposition.human_review, store)
  takeover_at input (some occurred_at) store =
      takeover_found (get_session_for_update input.scope store) input occurred_at store

  unfoldable pub operator_takeover : OperatorTakeoverInput → Store → RuntimeDisposition × Store
  unfolding takeover_at
  operator_takeover input store =
      if valid_takeover input
      then takeover_at input input.occurred_at store
      else (RuntimeDisposition.human_review, store)
