-- ===== src/Contact/Runtime/Due/Processing.antt =====
-- contact-orchestration.ts: `processDue` and `runDue`.
use ros_road_operating_syste.Prelude.{
  ℕ, not, ◌&&◌, ◌||◌, leb, Option, none, some, List, [], ◌∷◌, if◌then◌else◌,
}
use ros_road_operating_syste.Prelude.Text.{Text}
use ros_road_operating_syste.Contact.Protocol.{
  max_automated_attempts, HumanContactState, HumanSafetyActorRole, ReasonCode,
  HumanContactTransitionDecision,
}
use ros_road_operating_syste.Contact.Runtime.Records.{
  ContactScope, ContactSessionRecord, AuditEventType, ActorType, ContactChannel, ContactPromptId,
  RuntimeDisposition, RuntimeIds,
}
use ros_road_operating_syste.Contact.Runtime.Store.{
  Store, update_session, get_session_for_update, same_nullable,
}
use ros_road_operating_syste.Contact.Runtime.Steps.{
  valid_id, worker_trace, channel_from_session, fallback_channel, system_transition, audit,
  after_update, sends_nothing, fail_to_review,
}
use ros_road_operating_syste.Contact.Runtime.Service.{send_message}
use ros_road_operating_syste.Contact.Runtime.Due.Claims.{due_by, claim_due_sessions, release_lease}
use ros_road_operating_syste.Contact.Runtime.Due.Stages.{
  awaiting_on, awaiting_again, unanswered, escalated_session, contacting_again,
}

module _ (ids : RuntimeIds) where
  -- A step of the worker from its decision on.
  unfoldable pub due_step :
      ContactSessionRecord
      → Text
      → ℕ
      → HumanContactTransitionDecision
      → ContactSessionRecord
      → (Store → Store)
      → AuditEventType
      → ReasonCode
      → RuntimeDisposition
      → Store
      → RuntimeDisposition × Store
  due_step current worker_id now decision next send event_type reason disposition store =
      if not decision.allowed
      then fail_to_review ids current (worker_trace worker_id) now decision.reason_code store
      else after_update (update_session next current.version store) send
          (audit ids next event_type reason (worker_trace worker_id) now ActorType.system worker_id
            HumanSafetyActorRole.system)
          disposition

  unfoldable pub retry_step :
      ContactSessionRecord → Text → ℕ → ReasonCode → Store → RuntimeDisposition × Store
  unfolding due_step
  retry_step current worker_id now reason store =
      if leb max_automated_attempts current.attempt_count
      then due_step current worker_id now
          (system_transition current HumanContactState.escalated worker_id now
            ReasonCode.retry_limit_exhausted)
          (escalated_session current now) sends_nothing AuditEventType.contact_escalated
          ReasonCode.retry_limit_exhausted RuntimeDisposition.escalated store
      else due_step current worker_id now
          (system_transition current HumanContactState.contacting worker_id now reason)
          (contacting_again current now) sends_nothing AuditEventType.contact_retry_contacting
          reason RuntimeDisposition.applied store

  unfoldable pub channel_ready_step :
      ContactSessionRecord
      → Text
      → ℕ
      → HumanContactTransitionDecision
      → ContactChannel
      → Store
      → RuntimeDisposition × Store
  unfolding due_step
  channel_ready_step current worker_id now decision channel store =
      due_step current worker_id now decision (awaiting_on current channel decision.deadline_at now)
        (send_message ids (awaiting_on current channel decision.deadline_at now) channel
          ContactPromptId.response now)
        AuditEventType.contact_awaiting_response ReasonCode.contact_channel_ready
        RuntimeDisposition.applied store

  unfoldable pub no_response_step :
      ContactSessionRecord
      → Text
      → ℕ
      → HumanContactTransitionDecision
      → Store
      → RuntimeDisposition × Store
  unfolding due_step
  no_response_step current worker_id now decision store =
      due_step current worker_id now decision (unanswered current decision.deadline_at now)
        sends_nothing AuditEventType.contact_no_response ReasonCode.response_deadline_elapsed
        RuntimeDisposition.applied store

  unfoldable pub followup_step :
      ContactSessionRecord
      → Text
      → ℕ
      → HumanContactTransitionDecision
      → ContactSessionRecord
      → Store
      → RuntimeDisposition × Store
  unfolding due_step
  followup_step current worker_id now decision next store =
      due_step current worker_id now decision next
        (send_message ids next (channel_from_session next) ContactPromptId.response now)
        AuditEventType.contact_partial_followup ReasonCode.partial_response_followup_due
        RuntimeDisposition.applied store

  unfoldable pub by_state :
      HumanContactState → ContactSessionRecord → Text → ℕ → Store → RuntimeDisposition × Store
  unfolding retry_step channel_ready_step no_response_step followup_step
  by_state HumanContactState.consent_pending current worker_id now store =
      fail_to_review ids current (worker_trace worker_id) now ReasonCode.consent_deadline_elapsed
        store
  by_state HumanContactState.language_selection current worker_id now store =
      fail_to_review ids current (worker_trace worker_id) now
        ReasonCode.language_selection_deadline_elapsed store
  by_state HumanContactState.contacting current worker_id now store =
      channel_ready_step current worker_id now
        (system_transition current HumanContactState.awaiting_response worker_id now
          ReasonCode.contact_channel_ready)
        (fallback_channel current.active_channel current.attempt_count) store
  by_state HumanContactState.awaiting_response current worker_id now store =
      no_response_step current worker_id now
        (system_transition current HumanContactState.no_response worker_id now
          ReasonCode.response_deadline_elapsed)
        store
  by_state HumanContactState.partial_response current worker_id now store =
      let decision : HumanContactTransitionDecision =
        system_transition current HumanContactState.awaiting_response worker_id now
          ReasonCode.partial_response_followup_due in
      followup_step current worker_id now decision (awaiting_again current decision.deadline_at now)
        store
  by_state HumanContactState.no_response current worker_id now store =
      retry_step current worker_id now ReasonCode.no_response_retry_due store
  by_state HumanContactState.disconnected current worker_id now store =
      retry_step current worker_id now ReasonCode.channel_disconnected_retry store
  by_state _ current worker_id now store =
      fail_to_review ids current (worker_trace worker_id) now ReasonCode.unexpected_due_state store

  unfoldable pub due_found :
      Option ContactSessionRecord → Text → ℕ → Store → RuntimeDisposition × Store
  unfolding by_state
  due_found none worker_id now store = (RuntimeDisposition.idempotent, store)
  due_found (some current) worker_id now store =
      if not (same_nullable current.lease_owner (some worker_id)) || current.automation_suppressed
      then (RuntimeDisposition.idempotent, store)
      else if not (due_by current.next_action_at now)
      then (RuntimeDisposition.idempotent, store)
      else by_state current.state current worker_id now store

  unfoldable pub process_due : ContactSessionRecord → Text → ℕ → Store → RuntimeDisposition × Store
  unfolding due_found
  process_due claimed worker_id now store =
      due_found (get_session_for_update claimed.scope store) worker_id now store

  unfoldable pub run_claimed :
      List ContactSessionRecord
      → Text
      → ℕ
      → Store
      → List (ContactScope × RuntimeDisposition) × Store
  run_claimed [] worker_id now store = ([], store)
  run_claimed (session ∷ rest) worker_id now store =
      let step : RuntimeDisposition × Store = process_due session worker_id now store in
      let later : List (ContactScope × RuntimeDisposition) × Store =
        run_claimed rest worker_id now (release_lease session.scope worker_id step.1) in
      ((session.scope, step.0) ∷ later.0, later.1)

  unfoldable pub run_due_at :
      Text → Option ℕ → ℕ → Store → List (ContactScope × RuntimeDisposition) × Store
  unfolding run_claimed
  run_due_at worker_id none limit store = ([], store)
  run_due_at worker_id (some now) limit store =
      let claimed : List ContactSessionRecord × Store =
        claim_due_sessions worker_id now 30000 limit store in
      run_claimed claimed.0 worker_id now claimed.1

  unfoldable pub run_due :
      Text → Option ℕ → ℕ → Store → List (ContactScope × RuntimeDisposition) × Store
  unfolding run_due_at
  run_due worker_id now limit store =
      if valid_id worker_id && leb 1 limit && leb limit 500
      then run_due_at worker_id now limit store
      else ([], store)
