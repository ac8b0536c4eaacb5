-- ===== src/Contact/Runtime/Progress/Ending.antt =====
-- contact-orchestration.ts: a step of `processDue` and the measure of its session.
use ros_road_operating_syste.Prelude.{
  ℕ, ◌+◌, ◌-◌, ◌*◌, ◌<◌, ◌≤◌, true, false, leb, Option, none, some, ◌≡◌, ◌⊎◌, inl, inr, refl, sym,
  subst, arith, Bool-cases,
}
use ros_road_operating_syste.Prelude.Text.{Text}
use ros_road_operating_syste.Contact.Protocol.{
  max_automated_attempts, HumanContactState, created, consent_pending, language_selection,
  contacting, awaiting_response, partial_response, response_confirmed, disconnected, no_response,
  unreachable, operator_takeover, human_review, escalated, completed, ReasonCode,
}
use ros_road_operating_syste.Contact.Runtime.Records.{ContactSessionRecord, RuntimeIds}
use ros_road_operating_syste.Contact.Runtime.Store.{Store, get_session_for_update, same_nullable}
use ros_road_operating_syste.Contact.Runtime.Rows.{same_nullable_refl}
use ros_road_operating_syste.Contact.Runtime.Steps.{
  sends_nothing, fail_to_review, system_transition, worker_trace, fallback_channel,
}
use ros_road_operating_syste.Contact.Runtime.Due.{
  due_by, awaiting_on, awaiting_again, unanswered, escalated_session, contacting_again, retry_step,
  channel_ready_step, no_response_step, followup_step, by_state, due_found, process_due,
}
use ros_road_operating_syste.Contact.Runtime.Writes.{IsSession}
use ros_road_operating_syste.Contact.Runtime.Commands.{own_scope}
use ros_road_operating_syste.Contact.Runtime.Progress.Measure.{
  stage, scheduled, remaining, Progresses,
}
use ros_road_operating_syste.Contact.Runtime.Progress.Writing.{
  send_message-sessions, fail_to_review-Progresses, due_step-Progresses,
}

-- The schedules of the worker's steps, each shorter than the one before.
module _ (current : ContactSessionRecord) (time now : ℕ)
    (due : current.next_action_at ≡ some time) where
  pub due-remaining : 1 ≤ remaining current
  unfolding remaining scheduled
  due-remaining = rw due (omega arith)

  pub awaiting-fewer :
      (next : ContactSessionRecord)
      → next.state ≡ awaiting_response
      → next.attempt_count ≡ current.attempt_count
      → (current.state ≡ contacting) ⊎ (current.state ≡ partial_response)
      → remaining next < remaining current
  unfolding remaining scheduled stage
  awaiting-fewer next state attempts from = ground arith

  pub unanswered-fewer :
      (deadline : Option ℕ)
      → current.state ≡ awaiting_response
      → remaining (unanswered current deadline now) < remaining current
  unfolding remaining scheduled stage unanswered
  unanswered-fewer deadline from = ground arith

  pub escalated-fewer : remaining (escalated_session current now) < remaining current
  unfolding remaining scheduled escalated_session
  escalated-fewer = rw due (omega arith)

  pub contacting-fewer :
      leb max_automated_attempts current.attempt_count ≡ false
      → (current.state ≡ no_response) ⊎ (current.state ≡ disconnected)
      → remaining (contacting_again current now) < remaining current
  unfolding remaining scheduled stage contacting_again
  contacting-fewer few from = ground arith

module _ (ids : RuntimeIds) (current : ContactSessionRecord) (worker_id : Text) (time now : ℕ)
    (store : Store) (found : get_session_for_update current.scope store ≡ some current)
    (due : current.next_action_at ≡ some time) where
  pub retry_step-Progresses :
      (reason : ReasonCode)
      → (current.state ≡ no_response) ⊎ (current.state ≡ disconnected)
      → Progresses current (retry_step ids current worker_id now reason store).1
  unfolding retry_step escalated_session contacting_again
  retry_step-Progresses reason from =
      elim (Bool-cases (leb max_automated_attempts current.attempt_count)) [
        | inl e ↦ rw e (
            due_step-Progresses ids current worker_id now
              (system_transition current escalated worker_id now ReasonCode.retry_limit_exhausted)
              (escalated_session current now) sends_nothing _ _ _ store found refl refl (λ s. refl)
              (due-remaining current time now due) (escalated-fewer current time now due))
        | inr e ↦ rw e (
            due_step-Progresses ids current worker_id now
              (system_transition current contacting worker_id now reason)
              (contacting_again current now) sends_nothing _ _ _ store found refl refl (λ s. refl)
              (due-remaining current time now due) (contacting-fewer current time now due e from))
      ]

  pub reviewed-Progresses :
      (reason : ReasonCode)
      → Progresses current (fail_to_review ids current (worker_trace worker_id) now reason store).1
  reviewed-Progresses reason =
      fail_to_review-Progresses ids current (worker_trace worker_id) now reason store found
        (due-remaining current time now due)

  pub by_state-Progresses :
      (state : HumanContactState)
      → current.state ≡ state
      → Progresses current (by_state ids state current worker_id now store).1
  unfolding by_state channel_ready_step no_response_step followup_step awaiting_on awaiting_again
      unanswered
  by_state-Progresses contacting from =
      let decision =
        system_transition current awaiting_response worker_id now
          ReasonCode.contact_channel_ready in
      due_step-Progresses ids current worker_id now decision
        (awaiting_on current (fallback_channel current.active_channel current.attempt_count)
          decision.deadline_at now)
        _ _ _ _ store found refl refl (send_message-sessions ids _ _ _ now)
        (due-remaining current time now due)
        (awaiting-fewer current time now due _ refl refl (inl from))
  by_state-Progresses partial_response from =
      let decision =
        system_transition current awaiting_response worker_id now
          ReasonCode.partial_response_followup_due in
      due_step-Progresses ids current worker_id now decision
        (awaiting_again current decision.deadline_at now) _ _ _ _ store found refl refl
        (send_message-sessions ids _ _ _ now) (due-remaining current time now due)
        (awaiting-fewer current time now due _ refl refl (inr from))
  by_state-Progresses awaiting_response from =
      let decision =
        system_transition current no_response worker_id now ReasonCode.response_deadline_elapsed in
      due_step-Progresses ids current worker_id now decision
        (unanswered current decision.deadline_at now) sends_nothing _ _ _ store found refl refl
        (λ s. refl) (due-remaining current time now due)
        (unanswered-fewer current time now due decision.deadline_at from)
  by_state-Progresses no_response from = retry_step-Progresses _ (inl from)
  by_state-Progresses disconnected from = retry_step-Progresses _ (inr from)
  by_state-Progresses created from = reviewed-Progresses _
  by_state-Progresses consent_pending from = reviewed-Progresses _
  by_state-Progresses language_selection from = reviewed-Progresses _
  by_state-Progresses response_confirmed from = reviewed-Progresses _
  by_state-Progresses unreachable from = reviewed-Progresses _
  by_state-Progresses operator_takeover from = reviewed-Progresses _
  by_state-Progresses human_review from = reviewed-Progresses _
  by_state-Progresses escalated from = reviewed-Progresses _
  by_state-Progresses completed from = reviewed-Progresses _

pub due_at : (o : Option ℕ) (now : ℕ) → due_by o now ≡ true → (time : ℕ) × (o ≡ some time)
unfolding due_by
due_at none now h = let f : ⊥ = ground arith in absurd f
due_at (some time) now h = (time, refl)

pub stage-bound : (state : HumanContactState) → stage state ≤ 3
unfolding stage
stage-bound state = ground arith

pub remaining-bound : (session : ContactSessionRecord) → IsSession session → remaining session ≤ 12
unfolding remaining scheduled
remaining-bound session ok = bounded session.next_action_at
  where
    bounded :
        (o : Option ℕ)
        → scheduled o (4 * (max_automated_attempts - session.attempt_count) + stage session.state)
          ≤ 12
    bounded none = omega arith
    bounded (some time) = let a = ok.attempted in let b = stage-bound session.state in omega arith

pub process_due-ready :
    (ids : RuntimeIds) (claimed current : ContactSessionRecord) (worker_id : Text) (now : ℕ)
    (store : Store)
    → get_session_for_update claimed.scope store ≡ some current
    → current.lease_owner ≡ some worker_id
    → current.automation_suppressed ≡ false
    → due_by current.next_action_at now ≡ true
    → process_due ids claimed worker_id now store
      ≡ by_state ids current.state current worker_id now store
unfolding process_due due_found
process_due-ready ids claimed current worker_id now store found leased active ready =
    let mine : same_nullable current.lease_owner (some worker_id) ≡ true =
      subst (λ q. same_nullable current.lease_owner q ≡ true) leased
        (same_nullable_refl current.lease_owner) in
    ground arith

-- When a worker that holds the lease processes a session whose time has come, fewer worker steps remain in it.
pub process_due-Progresses :
    (ids : RuntimeIds) (claimed current : ContactSessionRecord) (worker_id : Text) (now : ℕ)
    (store : Store)
    → get_session_for_update claimed.scope store ≡ some current
    → current.lease_owner ≡ some worker_id
    → current.automation_suppressed ≡ false
    → due_by current.next_action_at now ≡ true
    → Progresses current (process_due ids claimed worker_id now store).1
process_due-Progresses ids claimed current worker_id now store found leased active ready =
    let (time, scheduled) = due_at current.next_action_at now ready in
    subst (λ q. Progresses current q.1)
      (sym (process_due-ready ids claimed current worker_id now store found leased active ready))
      (by_state-Progresses ids current worker_id time now store
        (own_scope claimed.scope store current found) scheduled current.state refl)
