-- ===== src/Contact/Runtime/Commands/Takeover.antt =====
-- contact-orchestration.ts: the writes of `operatorTakeover`.
use ros_road_operating_syste.Prelude.{
  ℕ, true, ◌&&◌, Option, none, some, ◌≡◌, inl, inr, refl, arith, Bool-cases, Option-cases,
}
use ros_road_operating_syste.Contact.Protocol.{HumanContactState, allows}
use ros_road_operating_syste.Contact.Protocol.Laws.{decide_human_contact_transition_iff}
use ros_road_operating_syste.Contact.Runtime.Records.{
  ContactSessionRecord, RuntimeDisposition, RuntimeIds, OperatorTakeoverInput,
}
use ros_road_operating_syste.Contact.Runtime.Store.{
  Store, Insertion, get_session_for_update, insert_inbox_if_absent, cancel_pending_automation,
  is_null, same_nullable,
}
use ros_road_operating_syste.Contact.Runtime.Steps.{sends_nothing, view}
use ros_road_operating_syste.Contact.Runtime.Service.{
  taken_over, takeover_decision, takeover_applied, takeover_recorded, takeover_found, takeover_at,
  operator_takeover, takeover_key, valid_takeover,
}
use ros_road_operating_syste.Contact.Runtime.Writes.{Succeeds, nothing}
use ros_road_operating_syste.Contact.Runtime.Transactions.{
  insert_inbox_if_absent-Writes, cancel_pending_automation-Writes,
}
use ros_road_operating_syste.Contact.Runtime.Commands.Completing.{
  Completes, stays, after, fail_to_review-Completes, after_update-Completes, own_scope,
}
use ros_road_operating_syste.Contact.Runtime.Commands.Callbacks.{inbox-found}

pub takeover_decision-permitted :
    (current : ContactSessionRecord) (input : OperatorTakeoverInput) (at : ℕ)
    → (takeover_decision current input at).allowed ≡ true
    → allows current.state HumanContactState.operator_takeover ≡ true
unfolding takeover_decision view
takeover_decision-permitted current input at h =
    ((decide_human_contact_transition_iff (view current) HumanContactState.operator_takeover _).0
      h).permitted

pub taken_over-Succeeds :
    (current : ContactSessionRecord) (input : OperatorTakeoverInput) (at : ℕ)
    → allows current.state HumanContactState.operator_takeover ≡ true
    → Succeeds current (taken_over current input at)
unfolding taken_over is_null
taken_over-Succeeds current input at permitted = record {
  scope = refl;
  owner = refl;
  version = refl;
  moved = inl permitted;
  suppressed = λ h. refl;
  constrained = λ s. record {
    versioned = omega arith;
    attempted = s.attempted;
    bounded = s.bounded;
    unscheduled = λ h. (refl, refl);
    leased = refl;
  };
}

pub takeover_recorded-Completes :
    (ids : RuntimeIds) (current : ContactSessionRecord) (input : OperatorTakeoverInput) (at : ℕ)
    (result : Insertion × Store)
    → get_session_for_update current.scope result.1 ≡ some current
    → Completes result.1 (takeover_recorded ids current input at result)
unfolding takeover_recorded takeover_applied cancel_pending_automation get_session_for_update
takeover_recorded-Completes ids current input at (Insertion.exists, store) found =
    stays store RuntimeDisposition.idempotent (λ h. ground arith)
takeover_recorded-Completes ids current input at (Insertion.inserted, store) found =
    elim (Bool-cases (
      current.automation_suppressed
      && same_nullable current.assigned_operator_id (some input.operator_id))) [
        | inl e ↦ rw e (stays store RuntimeDisposition.idempotent (λ h. ground arith))
        | inr e ↦ elim (Bool-cases (takeover_decision current input at).allowed) [
          | inr d ↦ rw e (
              rw d (
                fail_to_review-Completes ids current input.trace_id at
                  (takeover_decision current input at).reason_code store found))
          | inl d ↦ rw e (
              rw d (
                after (cancel_pending_automation-Writes input.scope at store) (
                  after_update-Completes current (taken_over current input at) sends_nothing _
                    RuntimeDisposition.applied (cancel_pending_automation input.scope at store)
                    found
                    (taken_over-Succeeds current input at
                      (takeover_decision-permitted current input at d))
                    (λ later h. nothing) (λ h. ground arith))))
        ]
      ]

pub operator_takeover-Completes :
    (ids : RuntimeIds) (input : OperatorTakeoverInput) (store : Store)
    → Completes store (operator_takeover ids input store)
unfolding operator_takeover takeover_at takeover_found
operator_takeover-Completes ids input store = elim (Bool-cases (valid_takeover input)) [
  | inl e ↦ rw e (timed input.occurred_at)
  | inr e ↦ rw e (stays store RuntimeDisposition.human_review (λ h. ground arith))
]
  where
    timed : (at : Option ℕ) → Completes store (takeover_at ids input at store)
    timed none = stays store RuntimeDisposition.human_review (λ h. ground arith)
    timed (some at) = elim (Option-cases (get_session_for_update input.scope store)) [
      | inl e ↦ rw e (stays store RuntimeDisposition.human_review (λ h. ground arith))
      | inr (current, e) ↦ rw e (
          after (insert_inbox_if_absent-Writes input.scope (takeover_key input) store) (
            takeover_recorded-Completes ids current input at
              (insert_inbox_if_absent input.scope (takeover_key input) store)
              (inbox-found current.scope input.scope (takeover_key input) store current
                (own_scope input.scope store current e))))
    ]
