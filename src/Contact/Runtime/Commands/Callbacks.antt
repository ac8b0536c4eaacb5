-- ===== src/Contact/Runtime/Commands/Callbacks.antt =====
-- contact-orchestration.ts: the writes of `handleCallback`.
use ros_road_operating_syste.Prelude.{
  ℕ, true, false, ◌||◌, Option, none, some, ◌≡◌, ◌≢◌, inl, inr, refl, sym, subst, arith, Bool-cases,
  Option-cases,
}
use ros_road_operating_syste.Prelude.Text.{Text}
use ros_road_operating_syste.Contact.Protocol.{
  HumanContactState, ReasonCode, ContactCallbackKind, allows,
}
use ros_road_operating_syste.Contact.Protocol.Laws.{
  decide_human_contact_transition_iff, decide_human_contact_transition-allowed,
}
use ros_road_operating_syste.Contact.Runtime.Records.{
  ContactScope, ContactSessionRecord, ContactPromptId, RuntimeDisposition, RuntimeIds,
  CallbackInput,
}
use ros_road_operating_syste.Contact.Runtime.Store.{
  Store, Insertion, get_session_for_update, insert_inbox_if_absent, cancel_pending_automation,
  same_nullable,
}
use ros_road_operating_syste.Contact.Runtime.Steps.{view, channel_from_session}
use ros_road_operating_syste.Contact.Runtime.Service.{
  language_prompt, review_or_applied, callback_session, callback_decision, callback_applied,
  callback_allowed, callback_requested, callback_recorded, callback_found, callback_at,
  handle_callback, callback_key, valid_callback, callback_requested_state, is_closed_to_callbacks,
}
use ros_road_operating_syste.Contact.Runtime.Writes.{Succeeds, Writes, nothing}
use ros_road_operating_syste.Contact.Runtime.Transactions.{
  insert_inbox_if_absent-Writes, cancel_pending_automation-Writes, send_message-Writes,
  rescheduled-Succeeds,
}
use ros_road_operating_syste.Contact.Runtime.Commands.Completing.{
  Completes, stays, after, fail_to_review-Completes, after_update-Completes, own_scope,
}

pub callback_session-Succeeds :
    (current : ContactSessionRecord) (input : CallbackInput) (at : ℕ)
    (requested : HumanContactState) (deadline : Option ℕ)
    → current.automation_suppressed ≡ false
    → allows current.state requested ≡ true
    → Succeeds current (callback_session current input at requested deadline)
unfolding callback_session
callback_session-Succeeds current input at requested deadline active permitted =
    rescheduled-Succeeds current (callback_session current input at requested deadline) active refl
      refl refl permitted refl refl refl refl

pub language_prompt-Writes :
    (ids : RuntimeIds) (kind : ContactCallbackKind) (next : ContactSessionRecord) (at : ℕ)
    (store : Store)
    → get_session_for_update next.scope store ≡ some next
    → next.automation_suppressed ≡ false
    → Writes store (language_prompt ids kind next at store)
unfolding language_prompt
language_prompt-Writes ids kind next at store found active = prompted kind
  where
    prompted : (kind : ContactCallbackKind) → Writes store (language_prompt ids kind next at store)
    prompted ContactCallbackKind.consent_granted =
        send_message-Writes ids next (channel_from_session next) ContactPromptId.language at store
          found active
    prompted ContactCallbackKind.consent_declined = nothing
    prompted ContactCallbackKind.language_selected = nothing
    prompted ContactCallbackKind.partial_response = nothing
    prompted ContactCallbackKind.response = nothing
    prompted ContactCallbackKind.contradictory = nothing
    prompted ContactCallbackKind.disconnected = nothing
    prompted ContactCallbackKind.channel_failure = nothing
    prompted ContactCallbackKind.accessibility_unavailable = nothing

pub review_or_applied-settled :
    (state : HumanContactState) → review_or_applied state ≢ RuntimeDisposition.conflict
unfolding review_or_applied
review_or_applied-settled state h = ground arith

pub callback_decision-allowed :
    (current : ContactSessionRecord) (input : CallbackInput) (at : ℕ)
    (requested : HumanContactState)
    → (callback_decision current input at requested).allowed ≡ true
    → allows current.state (callback_decision current input at requested).next_state ≡ true
unfolding callback_decision view
callback_decision-allowed current input at requested h =
    let entered = decide_human_contact_transition-allowed (view current) requested _ h in
    let permitted =
      ((decide_human_contact_transition_iff (view current) requested _).0 h).permitted in
    subst (λ q. allows current.state q ≡ true) (sym entered) permitted

-- The insertion into the inbox changes no session.
pub inbox-found :
    (scope in_scope : ContactScope) (key : Text) (store : Store) (current : ContactSessionRecord)
    → get_session_for_update scope store ≡ some current
    → get_session_for_update scope (insert_inbox_if_absent in_scope key store).1 ≡ some current
unfolding insert_inbox_if_absent get_session_for_update
inbox-found scope in_scope key store current h = ground arith

pub callback_allowed-Completes :
    (ids : RuntimeIds) (current : ContactSessionRecord) (input : CallbackInput) (at : ℕ)
    (requested : HumanContactState) (store : Store)
    → get_session_for_update current.scope store ≡ some current
    → current.automation_suppressed ≡ false
    → Completes store
        (callback_allowed ids current input at (callback_decision current input at requested) store)
unfolding callback_allowed callback_applied cancel_pending_automation get_session_for_update
    callback_session
callback_allowed-Completes ids current input at requested store found active =
    elim (Bool-cases (callback_decision current input at requested).allowed) [
      | inr e ↦ rw e (
          fail_to_review-Completes ids current input.trace_id at
            (callback_decision current input at requested).reason_code store found)
      | inl e ↦
          let decision = callback_decision current input at requested in
          let enters = callback_decision-allowed current input at requested e in
          let next : ContactSessionRecord =
            callback_session current input at decision.next_state decision.deadline_at in
          rw e (
            after (cancel_pending_automation-Writes input.scope at store) (
              after_update-Completes current next (language_prompt ids input.kind next at) _
                (review_or_applied next.state) (cancel_pending_automation input.scope at store)
                found
                (callback_session-Succeeds current input at decision.next_state decision.deadline_at
                  active enters)
                (λ later h. language_prompt-Writes ids input.kind next at later h active)
                (review_or_applied-settled next.state)))
    ]

pub callback_recorded-Completes :
    (ids : RuntimeIds) (current : ContactSessionRecord) (input : CallbackInput) (at : ℕ)
    (result : Insertion × Store)
    → get_session_for_update current.scope result.1 ≡ some current
    → Completes result.1 (callback_recorded ids current input at result)
unfolding callback_recorded callback_requested
callback_recorded-Completes ids current input at (Insertion.exists, store) found =
    stays store RuntimeDisposition.idempotent (λ h. ground arith)
callback_recorded-Completes ids current input at (Insertion.inserted, store) found =
    elim (Bool-cases (current.automation_suppressed || is_closed_to_callbacks current.state)) [
      | inl e ↦ rw e (stays store RuntimeDisposition.idempotent (λ h. ground arith))
      | inr e ↦ elim (Option-cases (callback_requested_state current.state input.kind)) [
        | inl n ↦ rw e (
            rw n (
              fail_to_review-Completes ids current input.trace_id at
                ReasonCode.invalid_callback_transition store found))
        | inr (requested, n) ↦
            let active : current.automation_suppressed ≡ false = ground arith in
            rw e
              (rw n (callback_allowed-Completes ids current input at requested store found active))
      ]
    ]

pub handle_callback-Completes :
    (ids : RuntimeIds) (input : CallbackInput) (store : Store)
    → Completes store (handle_callback ids input store)
unfolding handle_callback callback_at callback_found
handle_callback-Completes ids input store = elim (Bool-cases (valid_callback input)) [
  | inl e ↦ rw e (timed input.occurred_at)
  | inr e ↦ rw e (stays store RuntimeDisposition.human_review (λ h. ground arith))
]
  where
    seen :
        (current : ContactSessionRecord) (at : ℕ)
        → get_session_for_update input.scope store ≡ some current
        → Completes store (callback_found ids (some current) input at store)
    seen current at found =
        elim (Bool-cases (same_nullable current.owner_actor_id input.owner_actor_id)) [
          | inl e ↦ rw e (
              after (insert_inbox_if_absent-Writes input.scope (callback_key input) store) (
                callback_recorded-Completes ids current input at
                  (insert_inbox_if_absent input.scope (callback_key input) store)
                  (inbox-found current.scope input.scope (callback_key input) store current
                    (own_scope input.scope store current found))))
          | inr e ↦ rw e (stays store RuntimeDisposition.human_review (λ h. ground arith))
        ]

    timed : (at : Option ℕ) → Completes store (callback_at ids input at store)
    timed none = stays store RuntimeDisposition.human_review (λ h. ground arith)
    timed (some at) = elim (Option-cases (get_session_for_update input.scope store)) [
      | inl e ↦ rw e (stays store RuntimeDisposition.human_review (λ h. ground arith))
      | inr (current, e) ↦ rw e (seen current at e)
    ]
