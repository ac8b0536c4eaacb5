-- ===== src/Contact/Runtime/Handover.antt =====
-- contact-orchestration.ts: `operatorTakeover`, with other transactions after it.
use ros_road_operating_syste.Prelude.{
  ℕ, false, ◌&&◌, Option, none, some, List, [], ◌∷◌, All, ◌≡◌, inl, inr, refl, sym, subst, arith,
  Bool-cases, Option-cases,
}
use ros_road_operating_syste.Prelude.Text.{Text}
use ros_road_operating_syste.Contact.Runtime.Records.{
  ContactScope, same_scope, ContactSessionRecord, ContactOutboxMessage, RuntimeIds,
  RuntimeDisposition, OperatorTakeoverInput, ProcessClaimedOutboxInput, DeliveryResult,
}
use ros_road_operating_syste.Contact.Runtime.Store.{
  Store, Insertion, get_session_for_update, same_nullable, is_pending, cancel_pending_automation,
  replace_row,
}
use ros_road_operating_syste.Contact.Runtime.Rows.{
  HasNoPending, cancel_pending_automation-HasNoPending, same_scope_refl,
  get_session_for_update-scope, update_session-read, get_session-replace_row,
}
use ros_road_operating_syste.Contact.Runtime.Steps.{after_update}
use ros_road_operating_syste.Contact.Runtime.Service.{
  operator_takeover, takeover_at, takeover_found, takeover_recorded, takeover_applied, takeover_key,
  takeover_decision, valid_takeover, taken_over,
}
use ros_road_operating_syste.Contact.Runtime.Delivery.{
  is_message, message_row, find_message, alter_found, alter, is_reservable, reserve_outbox_delivery,
  process_claimed_outbox, prepared, read_disposition,
}
use ros_road_operating_syste.Contact.Runtime.Invariants.{IsHandedOver, Writes-IsHandedOver}
use ros_road_operating_syste.Contact.Runtime.Transactions.{
  insert_audit_if_absent-Writes, fail_to_review-disposition,
}
use ros_road_operating_syste.Contact.Runtime.Commands.{inbox-found, own_scope}
use ros_road_operating_syste.Contact.Runtime.Interleavings.{
  Transaction, perform_all, perform_all-Writes,
}

takeover_applied-IsHandedOver :
    (ids : RuntimeIds) (current : ContactSessionRecord) (input : OperatorTakeoverInput) (at : ℕ)
    (store : Store)
    → get_session_for_update current.scope store ≡ some current
    → input.scope ≡ current.scope
    → IsHandedOver current.scope
        (takeover_applied ids current input at (taken_over current input at) store).1
unfolding takeover_applied after_update taken_over get_session_for_update cancel_pending_automation
takeover_applied-IsHandedOver ids current input at store found same =
    let next : ContactSessionRecord = taken_over current input at in
    let quiet : Store = cancel_pending_automation input.scope at store in
    let later : Store = record quiet { sessions = replace_row next store.sessions } in
    let e = same_scope_refl current.scope in
    let g = get_session-replace_row current.scope current next quiet found in
    let there : get_session_for_update current.scope later ≡ some next = ground arith in
    let calm : HasNoPending current.scope quiet =
      subst (λ q. HasNoPending q quiet) same
        (cancel_pending_automation-HasNoPending input.scope at store) in
    let handed : IsHandedOver current.scope later = record {
      session = next;
      found = there;
      suppressed = refl;
      quiet = record { settled = calm.settled };
    } in
    rw (update_session-read current next quiet found refl)
      (Writes-IsHandedOver current.scope (insert_audit_if_absent-Writes _ later) handed)

takeover_recorded-IsHandedOver :
    (ids : RuntimeIds) (current : ContactSessionRecord) (input : OperatorTakeoverInput) (at : ℕ)
    (result : Insertion × Store)
    → get_session_for_update current.scope result.1 ≡ some current
    → input.scope ≡ current.scope
    → (takeover_recorded ids current input at result).0 ≡ RuntimeDisposition.applied
    → IsHandedOver current.scope (takeover_recorded ids current input at result).1
unfolding takeover_recorded
takeover_recorded-IsHandedOver ids current input at (Insertion.exists, store) found same h =
    let f : ⊥ = ground arith in absurd f
takeover_recorded-IsHandedOver ids current input at (Insertion.inserted, store) found same h =
    let review =
      fail_to_review-disposition ids current input.trace_id at
        (takeover_decision current input at).reason_code store found in
    elim (Bool-cases (
      current.automation_suppressed
      && same_nullable current.assigned_operator_id (some input.operator_id))) [
        | inl e ↦ let f : ⊥ = ground arith in absurd f
        | inr e ↦ elim (Bool-cases (takeover_decision current input at).allowed) [
          | inr d ↦ let f : ⊥ = ground arith in absurd f
          | inl d ↦
              rw e (rw d (takeover_applied-IsHandedOver ids current input at store found same))
        ]
      ]

takeover_found-IsHandedOver :
    (ids : RuntimeIds) (o : Option ContactSessionRecord) (input : OperatorTakeoverInput) (at : ℕ)
    (store : Store)
    → get_session_for_update input.scope store ≡ o
    → (takeover_found ids o input at store).0 ≡ RuntimeDisposition.applied
    → IsHandedOver input.scope (takeover_found ids o input at store).1
unfolding takeover_found
takeover_found-IsHandedOver ids none input at store found h = let f : ⊥ = ground arith in absurd f
takeover_found-IsHandedOver ids (some current) input at store found h =
    let scope = get_session_for_update-scope input.scope store current found in
    subst (λ q. IsHandedOver q (takeover_found ids (some current) input at store).1) scope
      (takeover_recorded-IsHandedOver ids current input at _
        (inbox-found current.scope input.scope (takeover_key input) store current
          (own_scope input.scope store current found))
        (sym scope) h)

takeover_at-IsHandedOver :
    (ids : RuntimeIds) (input : OperatorTakeoverInput) (at : Option ℕ) (store : Store)
    → (takeover_at ids input at store).0 ≡ RuntimeDisposition.applied
    → IsHandedOver input.scope (takeover_at ids input at store).1
unfolding takeover_at
takeover_at-IsHandedOver ids input none store h = let f : ⊥ = ground arith in absurd f
takeover_at-IsHandedOver ids input (some at) store h =
    takeover_found-IsHandedOver ids (get_session_for_update input.scope store) input at store refl h

pub operator_takeover-IsHandedOver :
    (ids : RuntimeIds) (input : OperatorTakeoverInput) (store : Store)
    → (operator_takeover ids input store).0 ≡ RuntimeDisposition.applied
    → IsHandedOver input.scope (operator_takeover ids input store).1
unfolding operator_takeover
operator_takeover-IsHandedOver ids input store h = elim (Bool-cases (valid_takeover input)) [
  | inr e ↦ let f : ⊥ = ground arith in absurd f
  | inl e ↦
      let went : (takeover_at ids input input.occurred_at store).0 ≡ RuntimeDisposition.applied =
        ground arith in
      rw e (takeover_at-IsHandedOver ids input input.occurred_at store went)
]

found-settled :
    (scope : ContactScope) (id : Text) (rows : List ContactOutboxMessage)
    (row : ContactOutboxMessage)
    → All (λ row. (same_scope scope row.scope && is_pending row) ≡ false) rows
    → message_row scope id rows ≡ some row
    → is_pending row ≡ false
unfolding message_row is_message
found-settled scope id [] row all h = ground arith
found-settled scope id (r ∷ rows) row (p, all) h =
    let ih = found-settled scope id rows row all in ground arith

reserve-settled :
    (input : ProcessClaimedOutboxInput) (store : Store)
    → HasNoPending input.scope store
    → reserve_outbox_delivery input store ≡ (none, store)
unfolding reserve_outbox_delivery alter alter_found find_message is_reservable
reserve-settled input store h =
    elim (Option-cases (message_row input.scope input.message_id store.outbox)) [
      | inl e ↦ rw e refl
      | inr (row, e) ↦
          let p = found-settled input.scope input.message_id store.outbox row h.settled e in
          ground arith
    ]

-- After an operator's takeover was APPLIED, and whatever transactions of whatever workers ran since, the session's
-- automation is still suppressed and a delivery of any of its messages ends without a call of the channel and without
-- a change of the tables: the outcome is the same for every channel, and is read from the message's row.
pub operator_takeover_silences :
    (ids : RuntimeIds) (takeover : OperatorTakeoverInput) (store : Store) (ts : List Transaction)
    (input : ProcessClaimedOutboxInput) (deliver : ContactOutboxMessage → DeliveryResult)
    (meanwhile : Store → Store) (clock : ℕ)
    → (operator_takeover ids takeover store).0 ≡ RuntimeDisposition.applied
    → input.scope ≡ takeover.scope
    → let later = perform_all ids ts (operator_takeover ids takeover store).1 in
      IsHandedOver takeover.scope later
      × (process_claimed_outbox input deliver meanwhile clock later
          ≡ (read_disposition input later, later))
unfolding process_claimed_outbox prepared
operator_takeover_silences ids takeover store ts input deliver meanwhile clock applied same =
    let later : Store = perform_all ids ts (operator_takeover ids takeover store).1 in
    let handed =
      Writes-IsHandedOver takeover.scope (perform_all-Writes ids ts _)
        (operator_takeover-IsHandedOver ids takeover store applied) in
    let quiet : HasNoPending input.scope later =
      subst (λ q. HasNoPending q later) (sym same) handed.quiet in
    (handed, rw (reserve-settled input later quiet) refl)
