-- ===== src/Contact/Runtime/Transactions.antt =====
-- The work of each transaction of apps/api/src/ros-eye/contact-orchestration.ts as a chain of writes.
use ros_road_operating_syste.Prelude.{
  ℕ, ◌+◌, true, false, some, List, [], ◌∷◌, map, any, if◌then◌else◌, ◌≡◌, inl, inr, refl, sym, ap,
  subst, ◌∙◌, arith, Bool-cases,
}
use ros_road_operating_syste.Prelude.Text.{Text}
use ros_road_operating_syste.Contact.Protocol.{
  HumanContactState, HumanContactTransitionDecision, ReasonCode, allows,
}
use ros_road_operating_syste.Contact.Protocol.Laws.{decide_human_contact_transition-allowed}
use ros_road_operating_syste.Contact.Runtime.Records.{
  ContactScope, ContactSessionRecord, ContactAuditEvent, ContactOutboxMessage, ContactChannel,
  ContactPromptId, RuntimeDisposition, RuntimeIds,
}
use ros_road_operating_syste.Contact.Runtime.Store.{
  Store, get_session_for_update, insert_audit_if_absent, insert_inbox_if_absent, in_inbox,
  clashes_event, insert_outbox_if_absent, clashes_message, cancel_row, cancel_pending_automation,
  update_session, replace_row, is_pending, is_null,
}
use ros_road_operating_syste.Contact.Runtime.Rows.{
  update_session-read, get_session-replace_row, same_scope_refl,
}
use ros_road_operating_syste.Contact.Runtime.Steps.{
  outbox, after_update, sends_nothing, review_decision, reviewed, fail_to_review, view,
}
use ros_road_operating_syste.Contact.Runtime.Service.{send_message}
use ros_road_operating_syste.Contact.Runtime.Writes.{
  IsSession, IsMessage, IsStored, Succeeds, Delivers, Pointwise, advances, notes, audits, sends,
  delivers, Writes, nothing, trans, one,
}
use ros_road_operating_syste.Contact.Runtime.Invariants.{session_row-All}

pub insert_audit_if_absent-Writes :
    (event : ContactAuditEvent) (store : Store)
    → Writes store (insert_audit_if_absent event store).1
unfolding insert_audit_if_absent
insert_audit_if_absent-Writes event store =
    elim (Bool-cases (any (clashes_event event) store.audit)) [
      | inl e ↦ rw e nothing
      | inr e ↦ rw e (one (audits event))
    ]

pub insert_inbox_if_absent-Writes :
    (scope : ContactScope) (key : Text) (store : Store)
    → Writes store (insert_inbox_if_absent scope key store).1
unfolding insert_inbox_if_absent
insert_inbox_if_absent-Writes scope key store = elim (Bool-cases (in_inbox scope key store.inbox)) [
  | inl e ↦ rw e nothing
  | inr e ↦ rw e (one (notes (record { scope = scope; idempotency_key = key })))
]

cancel_row-Delivers :
    (scope : ContactScope) (at : ℕ) (row : ContactOutboxMessage)
    → Delivers row (cancel_row scope at row)
unfolding cancel_row is_pending is_null
cancel_row-Delivers scope at row = record {
  scope = ground arith;
  pending = λ h. ground arith;
  constrained = λ m.
      let a = m.attempted in
      let b = m.bounded in
      let c = m.leased in
      let d = m.started in
      let e = m.fenced in
      let f = m.settled in
      record {
        attempted = ground arith;
        bounded = ground arith;
        leased = ground arith;
        started = ground arith;
        fenced = ground arith;
        timely = λ x y s t. let g = m.timely x y in ground arith;
        settled = ground arith;
      };
}

pub map-Delivers :
    (f : ContactOutboxMessage → ContactOutboxMessage)
    → ((row : ContactOutboxMessage) → Delivers row (f row))
    → (rows : List ContactOutboxMessage) → Pointwise Delivers rows (map f rows)
map-Delivers f h [] = tt
map-Delivers f h (row ∷ rows) = (h row, map-Delivers f h rows)

pub cancel_pending_automation-Writes :
    (scope : ContactScope) (at : ℕ) (store : Store)
    → Writes store (cancel_pending_automation scope at store)
unfolding cancel_pending_automation
cancel_pending_automation-Writes scope at store = one (
    delivers (map (cancel_row scope at) store.outbox)
      (map-Delivers (cancel_row scope at) (cancel_row-Delivers scope at) store.outbox))

outbox-IsMessage :
    (ids : RuntimeIds) (session : ContactSessionRecord) (channel : ContactChannel)
    (prompt : ContactPromptId) (at : ℕ)
    → IsSession session
    → IsMessage (outbox ids session channel prompt at)
unfolding outbox is_null
outbox-IsMessage ids session channel prompt at s = record {
  attempted = s.attempted;
  bounded = s.bounded;
  leased = refl;
  started = refl;
  fenced = refl;
  timely = λ a b p q. ground arith;
  settled = inl refl;
}

read-IsSession :
    (session : ContactSessionRecord) (store : Store)
    → IsStored store
    → get_session_for_update session.scope store ≡ some session
    → IsSession session
unfolding get_session_for_update
read-IsSession session store s found =
    session_row-All session.scope store.sessions session s.sessions found

insert_outbox_if_absent-Writes :
    (session : ContactSessionRecord) (message : ContactOutboxMessage) (store : Store)
    → get_session_for_update message.scope store ≡ some session
    → session.automation_suppressed ≡ false
    → (IsStored store → IsMessage message)
    → Writes store (insert_outbox_if_absent message store).1
unfolding insert_outbox_if_absent
insert_outbox_if_absent-Writes session message store found active ok =
    elim (Bool-cases (any (clashes_message message) store.outbox)) [
      | inl e ↦ rw e nothing
      | inr e ↦ rw e (one (sends session message found active ok))
    ]

-- A message of a session that automation still has.
pub send_message-Writes :
    (ids : RuntimeIds) (session : ContactSessionRecord) (channel : ContactChannel)
    (prompt : ContactPromptId) (at : ℕ) (store : Store)
    → get_session_for_update session.scope store ≡ some session
    → session.automation_suppressed ≡ false
    → Writes store (send_message ids session channel prompt at store)
unfolding send_message outbox
send_message-Writes ids session channel prompt at store found active =
    insert_outbox_if_absent-Writes session (outbox ids session channel prompt at) store found active
      (λ s. outbox-IsMessage ids session channel prompt at (read-IsSession session store s found))

-- An update of the session that was read, then its message and its audit event.
pub after_update-Writes :
    (current next : ContactSessionRecord) (send : Store → Store) (event : ContactAuditEvent)
    (disposition : RuntimeDisposition) (store : Store)
    → get_session_for_update current.scope store ≡ some current
    → Succeeds current next
    → ((later : Store)
        → get_session_for_update next.scope later ≡ some next
        → Writes later (send later))
    → Writes store
        (after_update (update_session next current.version store) send event disposition).1
unfolding after_update
after_update-Writes current next send event disposition store found succeeds sent =
    let here : get_session_for_update next.scope store ≡ some current =
      subst (λ q. get_session_for_update q store ≡ some current) (sym succeeds.scope) found in
    let later : Store = record store { sessions = replace_row next store.sessions } in
    let changed : Writes store later = one (advances current next here succeeds) in
    let there : get_session_for_update next.scope later ≡ some next =
      (let g = get_session-replace_row next.scope current next store here in
        let e = same_scope_refl next.scope in ground arith) in
    rw (update_session-read current next store here succeeds.owner)
      (trans changed (trans (sent later there) (insert_audit_if_absent-Writes event (send later))))

-- The update of a session that the transaction has read does not conflict.
pub after_update-disposition :
    (current next : ContactSessionRecord) (send : Store → Store) (event : ContactAuditEvent)
    (disposition : RuntimeDisposition) (store : Store)
    → get_session_for_update current.scope store ≡ some current
    → Succeeds current next
    → (after_update (update_session next current.version store) send event disposition).0
      ≡ disposition
unfolding after_update
after_update-disposition current next send event disposition store found succeeds =
    let here : get_session_for_update next.scope store ≡ some current =
      subst (λ q. get_session_for_update q store ≡ some current) (sym succeeds.scope) found in
    rw (update_session-read current next store here succeeds.owner) refl

review_either_way :
    (d : HumanContactTransitionDecision)
    → (d.allowed ≡ true → d.next_state ≡ HumanContactState.human_review)
    → (if d.allowed then d.next_state else HumanContactState.human_review)
      ≡ HumanContactState.human_review
review_either_way d h = ground arith

reviewed-state :
    (current : ContactSessionRecord) (trace_id : Text) (at : ℕ) (reason : ReasonCode)
    → (reviewed current trace_id at reason).state ≡ HumanContactState.human_review
unfolding reviewed review_decision
reviewed-state current trace_id at reason =
    review_either_way (review_decision current trace_id at reason)
      (decide_human_contact_transition-allowed (view current) HumanContactState.human_review _)

pub reviewed-Succeeds :
    (current : ContactSessionRecord) (trace_id : Text) (at : ℕ) (reason : ReasonCode)
    → Succeeds current (reviewed current trace_id at reason)
unfolding reviewed
reviewed-Succeeds current trace_id at reason = record {
  scope = refl;
  owner = refl;
  version = refl;
  moved = inr (reviewed-state current trace_id at reason);
  suppressed = λ h. h;
  constrained = λ s. record {
    versioned = omega arith;
    attempted = s.attempted;
    bounded = s.bounded;
    unscheduled = λ h. (refl, refl);
    leased = s.leased;
  };
}

pub fail_to_review-Writes :
    (ids : RuntimeIds) (current : ContactSessionRecord) (trace_id : Text) (at : ℕ)
    (reason : ReasonCode) (store : Store)
    → get_session_for_update current.scope store ≡ some current
    → Writes store (fail_to_review ids current trace_id at reason store).1
unfolding fail_to_review cancel_pending_automation get_session_for_update
fail_to_review-Writes ids current trace_id at reason store found =
    trans (cancel_pending_automation-Writes current.scope at store) (
      after_update-Writes current (reviewed current trace_id at reason) sends_nothing _ _
        (cancel_pending_automation current.scope at store) found
        (reviewed-Succeeds current trace_id at reason) (λ later h. nothing))

pub fail_to_review-disposition :
    (ids : RuntimeIds) (current : ContactSessionRecord) (trace_id : Text) (at : ℕ)
    (reason : ReasonCode) (store : Store)
    → get_session_for_update current.scope store ≡ some current
    → (fail_to_review ids current trace_id at reason store).0 ≡ RuntimeDisposition.human_review
unfolding fail_to_review cancel_pending_automation get_session_for_update
fail_to_review-disposition ids current trace_id at reason store found =
    after_update-disposition current (reviewed current trace_id at reason) sends_nothing _ _
      (cancel_pending_automation current.scope at store) found
      (reviewed-Succeeds current trace_id at reason)

-- A step that reschedules a session which automation has, and changes no other column that a constraint reads.
pub rescheduled-Succeeds :
    (current next : ContactSessionRecord)
    → current.automation_suppressed ≡ false
    → next.scope ≡ current.scope
    → next.owner_actor_id ≡ current.owner_actor_id
    → next.version ≡ current.version + 1
    → allows current.state next.state ≡ true
    → next.automation_suppressed ≡ current.automation_suppressed
    → next.attempt_count ≡ current.attempt_count
    → next.lease_owner ≡ current.lease_owner
    → next.lease_expires_at ≡ current.lease_expires_at
    → Succeeds current next
rescheduled-Succeeds current next active scope owner version permitted same attempts leaser
      expires =
    record {
      scope = scope;
      owner = owner;
      version = version;
      moved = inl permitted;
      suppressed = λ h. same ∙ h;
      constrained = λ s.
          let a = s.attempted in
          let b = s.bounded in
          let l = s.leased in
          record {
            versioned = omega arith;
            attempted = omega arith;
            bounded = omega arith;
            unscheduled = λ h. ground arith;
            leased = ap is_null leaser ∙ l ∙ sym (ap is_null expires);
          };
    }
