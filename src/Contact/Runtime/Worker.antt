-- ===== src/Contact/Runtime/Worker.antt =====
-- The worker of the contact runtime: `runDue` and its claims as chains of writes.
use ros_road_operating_syste.Prelude.{
  ℕ, true, false, not, ◌||◌, leb, Option, some, ◌≡◌, ◌≢◌, inl, inr, refl, arith, Bool-cases,
  Option-cases,
}
use ros_road_operating_syste.Prelude.Text.{Text}
use ros_road_operating_syste.Contact.Protocol.{
  max_automated_attempts, HumanContactState, ReasonCode, allows,
}
use ros_road_operating_syste.Contact.Protocol.Laws.{decide_human_contact_transition_iff}
use ros_road_operating_syste.Contact.Runtime.Records.{
  ContactSessionRecord, ContactChannel, ContactPromptId, RuntimeDisposition, RuntimeIds,
  AuditEventType,
}
use ros_road_operating_syste.Contact.Runtime.Store.{Store, get_session_for_update, same_nullable}
use ros_road_operating_syste.Contact.Runtime.Steps.{
  sends_nothing, view, system_transition, worker_trace,
}
use ros_road_operating_syste.Contact.Runtime.Due.{
  due_by, awaiting_on, awaiting_again, unanswered, escalated_session, contacting_again, due_step,
  retry_step, channel_ready_step, no_response_step, followup_step, by_state, due_found, process_due,
}
use ros_road_operating_syste.Contact.Runtime.Writes.{Succeeds, Writes, nothing}
use ros_road_operating_syste.Contact.Runtime.Transactions.{
  send_message-Writes, rescheduled-Succeeds,
}
use ros_road_operating_syste.Contact.Runtime.Commands.{
  Completes, stays, fail_to_review-Completes, after_update-Completes, own_scope,
}

system_transition-permitted :
    (current : ContactSessionRecord) (requested : HumanContactState) (worker_id : Text) (now : ℕ)
    (reason : ReasonCode)
    → (system_transition current requested worker_id now reason).allowed ≡ true
    → allows current.state requested ≡ true
unfolding system_transition view
system_transition-permitted current requested worker_id now reason h =
    ((decide_human_contact_transition_iff (view current) requested _).0 h).permitted

-- The next session of a step, if all that the step changes of the constrained columns is the schedule and one more
-- attempt within the limit.
due_step-Completes :
    (ids : RuntimeIds) (current : ContactSessionRecord) (worker_id : Text) (now : ℕ)
    (requested : HumanContactState) (asked : ReasonCode) (next : ContactSessionRecord)
    (send : Store → Store) (event : AuditEventType) (reason : ReasonCode)
    (disposition : RuntimeDisposition) (store : Store)
    → get_session_for_update current.scope store ≡ some current
    → (allows current.state requested ≡ true → Succeeds current next)
    → ((later : Store)
        → get_session_for_update next.scope later ≡ some next
        → Writes later (send later))
    → disposition ≢ RuntimeDisposition.conflict
    → Completes store (
        due_step ids current worker_id now
          (system_transition current requested worker_id now asked)
          next
          send
          event
          reason
          disposition
          store)
unfolding due_step
due_step-Completes ids current worker_id now requested asked next send event reason disposition
      store found succeeds sent h =
    elim (Bool-cases (system_transition current requested worker_id now asked).allowed) [
      | inr e ↦ rw e (
          fail_to_review-Completes ids current (worker_trace worker_id) now
            (system_transition current requested worker_id now asked).reason_code store found)
      | inl e ↦ rw e (
          after_update-Completes current next send _ disposition store found
            (succeeds (system_transition-permitted current requested worker_id now asked e)) sent h)
    ]

module _ (current : ContactSessionRecord) (now : ℕ)
    (active : current.automation_suppressed ≡ false) where
  awaiting_on-Succeeds :
      (channel : ContactChannel) (deadline : Option ℕ)
      → allows current.state HumanContactState.awaiting_response ≡ true
      → Succeeds current (awaiting_on current channel deadline now)
  unfolding awaiting_on
  awaiting_on-Succeeds channel deadline permitted =
      rescheduled-Succeeds current (awaiting_on current channel deadline now) active refl refl refl
        permitted refl refl refl refl

  awaiting_again-Succeeds :
      (deadline : Option ℕ)
      → allows current.state HumanContactState.awaiting_response ≡ true
      → Succeeds current (awaiting_again current deadline now)
  unfolding awaiting_again
  awaiting_again-Succeeds deadline permitted =
      rescheduled-Succeeds current (awaiting_again current deadline now) active refl refl refl
        permitted refl refl refl refl

  unanswered-Succeeds :
      (deadline : Option ℕ)
      → allows current.state HumanContactState.no_response ≡ true
      → Succeeds current (unanswered current deadline now)
  unfolding unanswered
  unanswered-Succeeds deadline permitted =
      rescheduled-Succeeds current (unanswered current deadline now) active refl refl refl permitted
        refl refl refl refl

  escalated_session-Succeeds :
      allows current.state HumanContactState.escalated ≡ true
      → Succeeds current (escalated_session current now)
  unfolding escalated_session
  escalated_session-Succeeds permitted =
      rescheduled-Succeeds current (escalated_session current now) active refl refl refl permitted
        refl refl refl refl

  contacting_again-Succeeds :
      leb max_automated_attempts current.attempt_count ≡ false
      → allows current.state HumanContactState.contacting ≡ true
      → Succeeds current (contacting_again current now)
  unfolding contacting_again
  contacting_again-Succeeds few permitted = record {
    scope = refl;
    owner = refl;
    version = refl;
    moved = inl permitted;
    suppressed = λ h. h;
    constrained = λ s.
        let b = s.bounded in
        record {
          versioned = omega arith;
          attempted = omega arith;
          bounded = ground arith;
          unscheduled = λ h. ground arith;
          leased = s.leased;
        };
  }

module _ (ids : RuntimeIds) (current : ContactSessionRecord) (worker_id : Text) (now : ℕ)
    (store : Store) where
  retry_step-Completes :
      (reason : ReasonCode)
      → get_session_for_update current.scope store ≡ some current
      → current.automation_suppressed ≡ false
      → Completes store (retry_step ids current worker_id now reason store)
  unfolding retry_step
  retry_step-Completes reason found active =
      elim (Bool-cases (leb max_automated_attempts current.attempt_count)) [
        | inl e ↦ rw e (
            due_step-Completes ids current worker_id now HumanContactState.escalated _
              (escalated_session current now) sends_nothing _ _ RuntimeDisposition.escalated store
              found (escalated_session-Succeeds current now active) (λ later h. nothing)
              (λ h. ground arith))
        | inr e ↦ rw e (
            due_step-Completes ids current worker_id now HumanContactState.contacting _
              (contacting_again current now) sends_nothing _ _ RuntimeDisposition.applied store
              found (contacting_again-Succeeds current now active e) (λ later h. nothing)
              (λ h. ground arith))
      ]

  channel_ready_step-Completes :
      (asked : ReasonCode) (channel : ContactChannel)
      → get_session_for_update current.scope store ≡ some current
      → current.automation_suppressed ≡ false
      → Completes store (
          channel_ready_step ids current worker_id now
            (system_transition current HumanContactState.awaiting_response worker_id now asked)
            channel
            store)
  unfolding channel_ready_step awaiting_on
  channel_ready_step-Completes asked channel found active =
      let deadline =
        (system_transition current HumanContactState.awaiting_response worker_id now
          asked).deadline_at in
      due_step-Completes ids current worker_id now HumanContactState.awaiting_response asked
        (awaiting_on current channel deadline now) _ _ _ RuntimeDisposition.applied store found
        (awaiting_on-Succeeds current now active channel deadline)
        (λ later h.
          send_message-Writes ids (awaiting_on current channel deadline now) channel
            ContactPromptId.response now later h active)
        (λ h. ground arith)

  no_response_step-Completes :
      (asked : ReasonCode)
      → get_session_for_update current.scope store ≡ some current
      → current.automation_suppressed ≡ false
      → Completes store (
          no_response_step ids current worker_id now
            (system_transition current HumanContactState.no_response worker_id now asked)
            store)
  unfolding no_response_step
  no_response_step-Completes asked found active =
      let deadline =
        (system_transition current HumanContactState.no_response worker_id now asked).deadline_at in
      due_step-Completes ids current worker_id now HumanContactState.no_response asked
        (unanswered current deadline now) sends_nothing _ _ RuntimeDisposition.applied store found
        (unanswered-Succeeds current now active deadline) (λ later h. nothing) (λ h. ground arith)

  followup_step-Completes :
      (asked : ReasonCode) (deadline : Option ℕ)
      → get_session_for_update current.scope store ≡ some current
      → current.automation_suppressed ≡ false
      → Completes store (
          followup_step ids current worker_id now
            (system_transition current HumanContactState.awaiting_response worker_id now asked)
            (awaiting_again current deadline now)
            store)
  unfolding followup_step awaiting_again
  followup_step-Completes asked deadline found active =
      due_step-Completes ids current worker_id now HumanContactState.awaiting_response asked
        (awaiting_again current deadline now) _ _ _ RuntimeDisposition.applied store found
        (awaiting_again-Succeeds current now active deadline)
        (λ later h.
          send_message-Writes ids (awaiting_again current deadline now) _ ContactPromptId.response
            now later h active)
        (λ h. ground arith)

  by_state-Completes :
      (state : HumanContactState)
      → get_session_for_update current.scope store ≡ some current
      → current.automation_suppressed ≡ false
      → Completes store (by_state ids state current worker_id now store)
  unfolding by_state
  by_state-Completes HumanContactState.contacting found active =
      channel_ready_step-Completes _ _ found active
  by_state-Completes HumanContactState.awaiting_response found active =
      no_response_step-Completes _ found active
  by_state-Completes HumanContactState.partial_response found active =
      followup_step-Completes _ _ found active
  by_state-Completes HumanContactState.no_response found active =
      retry_step-Completes _ found active
  by_state-Completes HumanContactState.disconnected found active =
      retry_step-Completes _ found active
  by_state-Completes HumanContactState.consent_pending found active =
      fail_to_review-Completes ids current _ now _ store found
  by_state-Completes HumanContactState.language_selection found active =
      fail_to_review-Completes ids current _ now _ store found
  by_state-Completes HumanContactState.created found active =
      fail_to_review-Completes ids current _ now _ store found
  by_state-Completes HumanContactState.response_confirmed found active =
      fail_to_review-Completes ids current _ now _ store found
  by_state-Completes HumanContactState.unreachable found active =
      fail_to_review-Completes ids current _ now _ store found
  by_state-Completes HumanContactState.operator_takeover found active =
      fail_to_review-Completes ids current _ now _ store found
  by_state-Completes HumanContactState.human_review found active =
      fail_to_review-Completes ids current _ now _ store found
  by_state-Completes HumanContactState.escalated found active =
      fail_to_review-Completes ids current _ now _ store found
  by_state-Completes HumanContactState.completed found active =
      fail_to_review-Completes ids current _ now _ store found

pub process_due-Completes :
    (ids : RuntimeIds) (claimed : ContactSessionRecord) (worker_id : Text) (now : ℕ) (store : Store)
    → Completes store (process_due ids claimed worker_id now store)
unfolding process_due due_found
process_due-Completes ids claimed worker_id now store =
    elim (Option-cases (get_session_for_update claimed.scope store)) [
      | inl e ↦ rw e (stays store RuntimeDisposition.idempotent (λ h. ground arith))
      | inr (current, e) ↦ rw e (found current (own_scope claimed.scope store current e))
    ]
  where
    found :
        (current : ContactSessionRecord)
        → get_session_for_update current.scope store ≡ some current
        → Completes store (due_found ids (some current) worker_id now store)
    found current here =
        elim (Bool-cases (
          not (same_nullable current.lease_owner (some worker_id))
          || current.automation_suppressed)) [
            | inl e ↦ rw e (stays store RuntimeDisposition.idempotent (λ h. ground arith))
            | inr e ↦ elim (Bool-cases (due_by current.next_action_at now)) [
              | inr d ↦ rw e (rw d (stays store RuntimeDisposition.idempotent (λ h. ground arith)))
              | inl d ↦
                  let active : current.automation_suppressed ≡ false = ground arith in
                  rw e (
                    rw d (
                      by_state-Completes ids current worker_id now store current.state here active))
            ]
          ]
