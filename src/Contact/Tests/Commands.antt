-- ===== src/Contact/Tests/Commands.antt =====
-- The theorems about the commands and the worker of the contact runtime, at a concrete session.
use ros_road_operating_syste.Prelude.{
  ℕ, ◌+◌, ◌<◌, ◌≤◌, Bool, true, false, Option, none, some, List, [], ◌∷◌, ◌++◌, known, ◌≡◌, ◌≢◌,
  ◌↔◌, ◌⊎◌, inl, inr, refl, arith,
}
use ros_road_operating_syste.Prelude.Text.{Text, units}
use ros_road_operating_syste.Contact.Runtime.Records.{
  ContactScope, ContactSessionRecord, ContactAuditEvent, ContactOutboxMessage, MessageKey, AuditKey,
  ContactChannel, HumanSafetyChannel, ContactPromptId, RuntimeDisposition,
  OutboxDeliveryDisposition, DeliveryResult, RuntimeIds, OpenContactInput, CallbackInput,
  OperatorTakeoverInput, ProcessClaimedOutboxInput,
}
use ros_road_operating_syste.Contact.Runtime.Store.{get_session_for_update, is_null}
use ros_road_operating_syste.Contact.Runtime.Service.{
  handle_callback, operator_takeover, valid_callback, valid_takeover,
}
use ros_road_operating_syste.Contact.Runtime.Due.{process_due, due_by}
use ros_road_operating_syste.Contact.Runtime.Delivery.{process_claimed_outbox, read_disposition}
use ros_road_operating_syste.Contact.Runtime.Writes.{IsSession, IsStored}
use ros_road_operating_syste.Contact.Runtime.Invariants.{IsHandedOver, Continues}
use ros_road_operating_syste.Contact.Runtime.Interleavings.{
  Transaction, opens, calls_back, takes_over, finalizes, perform_all, perform_all-IsStored,
  perform_all-Continues, perform_all-audit,
}
use ros_road_operating_syste.Contact.Runtime.Replays.{
  handle_callback_replayed, operator_takeover_replayed,
}
use ros_road_operating_syste.Contact.Runtime.Handover.{operator_takeover_silences}
use ros_road_operating_syste.Contact.Runtime.Progress.{remaining, WorkerRun, WorkerRun-bound}
use ros_road_operating_syste.Contact.Runtime.Refusals.{other_owner, handle_callback_refuses_foreign}
use ros_road_operating_syste.Contact.Tests.Runs.{taking_applies}
use ros_road_operating_syste.Contact.Tests.Data.{
  scope, ids, waiting, waiting_store, empty_store, opening, response, forged, taking, delivery,
}

abbrev pub delivering : List Transaction
delivering = finalizes delivery DeliveryResult.sent 12000 ∷ calls_back response ∷ []

operator_takeover_silences_example :
    let later = perform_all ids delivering (operator_takeover ids taking waiting_store).1 in
    IsHandedOver scope later
    × (process_claimed_outbox delivery (λ m. DeliveryResult.sent) (λ s. s) 12000 later
        ≡ (read_disposition delivery later, later))
operator_takeover_silences_example =
    operator_takeover_silences ids taking waiting_store delivering delivery
      (λ m. DeliveryResult.sent) (λ s. s) 12000 taking_applies refl

perform_all-IsStored_example :
    IsStored
      (perform_all ids (opens opening ∷ calls_back response ∷ takes_over taking ∷ []) empty_store)
perform_all-IsStored_example =
    perform_all-IsStored ids (opens opening ∷ calls_back response ∷ takes_over taking ∷ [])
      empty_store (record { sessions = tt; outbox = tt })

waiting_found : get_session_for_update scope waiting_store ≡ some waiting
unfolding get_session_for_update ros_road_operating_syste.Contact.Runtime.Records.same_scope
    ros_road_operating_syste.Prelude.Text.text_eq
waiting_found = refl

perform_all-Continues_example :
    Continues waiting scope (perform_all ids (takes_over taking ∷ delivering) waiting_store)
perform_all-Continues_example =
    perform_all-Continues ids (takes_over taking ∷ delivering) waiting_store scope waiting
      waiting_found

perform_all-audit_example :
    (recent : List ContactAuditEvent) × ((perform_all ids delivering waiting_store).audit
      ≡ recent ++ waiting_store.audit)
perform_all-audit_example = perform_all-audit ids delivering waiting_store

response_valid : valid_callback response ≡ true
unfolding valid_callback ros_road_operating_syste.Contact.Runtime.Steps.valid_scope
    ros_road_operating_syste.Contact.Runtime.Steps.valid_id
    ros_road_operating_syste.Prelude.Text.matches_id
    ros_road_operating_syste.Contact.Runtime.Steps.valid_nullable_owner_actor_id
    ros_road_operating_syste.Prelude.Text.text_eq is_null
response_valid = refl

taking_valid : valid_takeover taking ≡ true
unfolding valid_takeover ros_road_operating_syste.Contact.Runtime.Steps.valid_scope
    ros_road_operating_syste.Contact.Runtime.Steps.valid_id
    ros_road_operating_syste.Prelude.Text.matches_id ros_road_operating_syste.Prelude.Text.text_eq
    ros_road_operating_syste.Contact.Runtime.Steps.human_operator_role is_null
taking_valid = refl

handle_callback_replayed_example :
    let later =
      perform_all ids (takes_over taking ∷ []) (handle_callback ids response waiting_store).1 in
    handle_callback ids response later ≡ (RuntimeDisposition.idempotent, later)
handle_callback_replayed_example =
    handle_callback_replayed ids response waiting_store waiting (takes_over taking ∷ [])
      response_valid waiting_found refl

operator_takeover_replayed_example :
    let later = perform_all ids delivering (operator_takeover ids taking waiting_store).1 in
    operator_takeover ids taking later ≡ (RuntimeDisposition.idempotent, later)
operator_takeover_replayed_example =
    operator_takeover_replayed ids taking waiting_store waiting delivering taking_valid
      waiting_found

handle_callback_refuses_foreign_example :
    handle_callback ids forged waiting_store ≡ (RuntimeDisposition.human_review, waiting_store)
handle_callback_refuses_foreign_example =
    handle_callback_refuses_foreign ids forged waiting_store
      (other_owner waiting waiting_found (λ h. ground arith))

waiting-IsSession : IsSession waiting
unfolding is_null
waiting-IsSession = record {
  versioned = omega arith;
  attempted = omega arith;
  bounded = omega arith;
  unscheduled = λ h. ground arith;
  leased = refl;
}

waiting_due : due_by waiting.next_action_at 50000 ≡ true
unfolding due_by
waiting_due = refl

WorkerRun-bound_example : (1 ≤ remaining waiting) × (remaining waiting ≤ 12)
WorkerRun-bound_example =
    WorkerRun-bound ids scope waiting_store
      (process_due ids waiting (units "worker-1") 50000 waiting_store).1 waiting 1 waiting_found
      waiting-IsSession
      (WorkerRun.processes waiting waiting (units "worker-1") 50000 refl waiting_found refl refl
        waiting_due WorkerRun.here)
