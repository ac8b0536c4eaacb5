-- ===== src/Contact/Runtime/Progress/Writing.antt =====
-- contact-orchestration.ts: the writes of one step of the worker.
use ros_road_operating_syste.Prelude.{
  ℕ, ◌<◌, ◌≤◌, some, any, ◌≡◌, inl, inr, refl, sym, ap, subst, ◌∙◌, arith, Bool-cases,
}
use ros_road_operating_syste.Prelude.Text.{Text}
use ros_road_operating_syste.Contact.Protocol.{HumanContactTransitionDecision, ReasonCode}
use ros_road_operating_syste.Contact.Runtime.Records.{
  ContactSessionRecord, ContactScope, ContactAuditEvent, ContactOutboxMessage, ContactChannel,
  ContactPromptId, RuntimeDisposition, RuntimeIds, AuditEventType,
}
use ros_road_operating_syste.Contact.Runtime.Store.{
  Store, get_session_for_update, insert_audit_if_absent, insert_outbox_if_absent,
  cancel_pending_automation, update_session, replace_row, session_row, clashes_event,
  clashes_message,
}
use ros_road_operating_syste.Contact.Runtime.Rows.{
  update_session-read, get_session-replace_row, same_scope_refl,
}
use ros_road_operating_syste.Contact.Runtime.Steps.{
  sends_nothing, after_update, reviewed, fail_to_review, worker_trace, outbox,
}
use ros_road_operating_syste.Contact.Runtime.Service.{send_message}
use ros_road_operating_syste.Contact.Runtime.Due.{due_step}
use ros_road_operating_syste.Contact.Runtime.Progress.Measure.{scheduled, remaining, Progresses}

pub audit-sessions :
    (event : ContactAuditEvent) (store : Store)
    → (insert_audit_if_absent event store).1.sessions ≡ store.sessions
unfolding insert_audit_if_absent
audit-sessions event store = elim (Bool-cases (any (clashes_event event) store.audit)) [
  | inl e ↦ rw e refl
  | inr e ↦ rw e refl
]

pub outbox-sessions :
    (message : ContactOutboxMessage) (store : Store)
    → (insert_outbox_if_absent message store).1.sessions ≡ store.sessions
unfolding insert_outbox_if_absent
outbox-sessions message store = elim (Bool-cases (any (clashes_message message) store.outbox)) [
  | inl e ↦ rw e refl
  | inr e ↦ rw e refl
]

pub send_message-sessions :
    (ids : RuntimeIds) (session : ContactSessionRecord) (channel : ContactChannel)
    (prompt : ContactPromptId) (at : ℕ) (store : Store)
    → (send_message ids session channel prompt at store).sessions ≡ store.sessions
unfolding send_message
send_message-sessions ids session channel prompt at store =
    outbox-sessions (outbox ids session channel prompt at) store

pub same_sessions :
    (scope : ContactScope) (a b : Store)
    → b.sessions ≡ a.sessions
    → get_session_for_update scope b ≡ get_session_for_update scope a
unfolding get_session_for_update
same_sessions scope a b h = ap (session_row scope) h

pub after_update-Progresses :
    (current next : ContactSessionRecord) (send : Store → Store) (event : ContactAuditEvent)
    (disposition : RuntimeDisposition) (store : Store)
    → get_session_for_update current.scope store ≡ some current
    → next.scope ≡ current.scope
    → next.owner_actor_id ≡ current.owner_actor_id
    → ((s : Store) → (send s).sessions ≡ s.sessions)
    → remaining next < remaining current
    → Progresses current
        (after_update (update_session next current.version store) send event disposition).1
unfolding after_update
after_update-Progresses current next send event disposition store found scope owner sent fewer =
    let here : get_session_for_update next.scope store ≡ some current =
      subst (λ q. get_session_for_update q store ≡ some current) (sym scope) found in
    let middle : Store = record store { sessions = replace_row next store.sessions } in
    let g = get_session-replace_row next.scope current next store here in
    let e = same_scope_refl next.scope in
    let there : get_session_for_update next.scope middle ≡ some next = ground arith in
    let there' : get_session_for_update current.scope middle ≡ some next =
      subst (λ q. get_session_for_update q middle ≡ some next) scope there in
    rw (update_session-read current next store here owner) (record {
      later = next;
      found =
          same_sessions current.scope middle (insert_audit_if_absent event (send middle)).1
            (audit-sessions event (send middle) ∙ sent middle)
          ∙ there';
      fewer = fewer;
    })

-- A session due for review has no step to go.
pub fail_to_review-Progresses :
    (ids : RuntimeIds) (current : ContactSessionRecord) (trace_id : Text) (at : ℕ)
    (reason : ReasonCode) (store : Store)
    → get_session_for_update current.scope store ≡ some current
    → 1 ≤ remaining current
    → Progresses current (fail_to_review ids current trace_id at reason store).1
unfolding fail_to_review reviewed remaining scheduled cancel_pending_automation
    get_session_for_update
fail_to_review-Progresses ids current trace_id at reason store found due =
    after_update-Progresses current (reviewed current trace_id at reason) sends_nothing _ _
      (cancel_pending_automation current.scope at store) found refl refl (λ s. refl) (omega arith)

pub due_step-Progresses :
    (ids : RuntimeIds) (current : ContactSessionRecord) (worker_id : Text) (now : ℕ)
    (decision : HumanContactTransitionDecision) (next : ContactSessionRecord) (send : Store → Store)
    (event : AuditEventType) (reason : ReasonCode) (disposition : RuntimeDisposition)
    (store : Store)
    → get_session_for_update current.scope store ≡ some current
    → next.scope ≡ current.scope
    → next.owner_actor_id ≡ current.owner_actor_id
    → ((s : Store) → (send s).sessions ≡ s.sessions)
    → 1 ≤ remaining current
    → remaining next < remaining current
    → Progresses current
        (due_step ids current worker_id now decision next send event reason disposition store).1
unfolding due_step
due_step-Progresses ids current worker_id now decision next send event reason disposition store
      found scope owner sent due fewer =
    elim (Bool-cases decision.allowed) [
      | inr e ↦ rw e (
          fail_to_review-Progresses ids current (worker_trace worker_id) now decision.reason_code
            store found due)
      | inl e ↦ rw e (
          after_update-Progresses current next send _ disposition store found scope owner sent
            fewer)
    ]
