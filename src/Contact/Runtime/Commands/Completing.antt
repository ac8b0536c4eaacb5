-- ===== src/Contact/Runtime/Commands/Completing.antt =====
-- contact-orchestration.ts: the update of a session with its audit entry, and the failure to review.
use ros_road_operating_syste.Prelude.{ℕ, some, ◌≡◌, ◌≢◌, sym, subst, ◌∙◌, arith}
use ros_road_operating_syste.Prelude.Text.{Text}
use ros_road_operating_syste.Contact.Protocol.{ReasonCode}
use ros_road_operating_syste.Contact.Runtime.Records.{
  ContactScope, ContactSessionRecord, ContactAuditEvent, RuntimeDisposition, RuntimeIds,
}
use ros_road_operating_syste.Contact.Runtime.Store.{Store, get_session_for_update, update_session}
use ros_road_operating_syste.Contact.Runtime.Rows.{get_session_for_update-scope}
use ros_road_operating_syste.Contact.Runtime.Steps.{after_update, fail_to_review}
use ros_road_operating_syste.Contact.Runtime.Writes.{Succeeds, Writes, nothing, trans}
use ros_road_operating_syste.Contact.Runtime.Transactions.{
  after_update-Writes, after_update-disposition, fail_to_review-Writes, fail_to_review-disposition,
}

-- A transaction's work that changes the store by writes and does not end in CONFLICT.
pub record Completes (store : Store) (result : RuntimeDisposition × Store) : Type 0 where
  pub writes : Writes store result.1
  pub settled : result.0 ≢ RuntimeDisposition.conflict

pub stays :
    (store : Store) (d : RuntimeDisposition)
    → d ≢ RuntimeDisposition.conflict
    → Completes store (d, store)
stays store d h = record { writes = nothing; settled = h }

pub after :
    {a b : Store} {r : RuntimeDisposition × Store} → Writes a b → Completes b r → Completes a r
after w c = record { writes = trans w c.writes; settled = c.settled }

pub fail_to_review-Completes :
    (ids : RuntimeIds) (current : ContactSessionRecord) (trace_id : Text) (at : ℕ)
    (reason : ReasonCode) (store : Store)
    → get_session_for_update current.scope store ≡ some current
    → Completes store (fail_to_review ids current trace_id at reason store)
fail_to_review-Completes ids current trace_id at reason store found =
    let d = fail_to_review-disposition ids current trace_id at reason store found in
    record {
      writes = fail_to_review-Writes ids current trace_id at reason store found;
      settled = λ h. ground arith;
    }

pub after_update-Completes :
    (current next : ContactSessionRecord) (send : Store → Store) (event : ContactAuditEvent)
    (disposition : RuntimeDisposition) (store : Store)
    → get_session_for_update current.scope store ≡ some current
    → Succeeds current next
    → ((later : Store)
        → get_session_for_update next.scope later ≡ some next
        → Writes later (send later))
    → disposition ≢ RuntimeDisposition.conflict
    → Completes store
        (after_update (update_session next current.version store) send event disposition)
after_update-Completes current next send event disposition store found succeeds sent h = record {
  writes = after_update-Writes current next send event disposition store found succeeds sent;
  settled = λ c.
      h (
        sym (after_update-disposition current next send event disposition store found succeeds)
        ∙ c);
}

-- A session that a lookup by any scope has found is the one of its own scope.
pub own_scope :
    (scope : ContactScope) (store : Store) (current : ContactSessionRecord)
    → get_session_for_update scope store ≡ some current
    → get_session_for_update current.scope store ≡ some current
own_scope scope store current h =
    subst (λ q. get_session_for_update q store ≡ some current)
      (sym (get_session_for_update-scope scope store current h)) h
