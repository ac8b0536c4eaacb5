-- ===== src/Contact/Runtime/Service/Opening.antt =====
-- contact-orchestration.ts: `open`, the keys of the inbox, and the queueing of a message.
use ros_road_operating_syste.Prelude.{
  ℕ, ◌+◌, Bool, false, not, ◌&&◌, Option, none, some, ◌++◌, if◌then◌else◌, Loose, known,
}
use ros_road_operating_syste.Prelude.Text.{Text, units}
use ros_road_operating_syste.Contact.Protocol.{
  response_deadline_ms, HumanContactState, HumanContactLanguage, HumanContactIdentityConfidence,
  HumanSafetyActorRole, ReasonCode,
}
use ros_road_operating_syste.Contact.Runtime.Records.{
  ContactScope, ContactSessionRecord, AuditEventType, ActorType, ContactChannel, ContactPromptId,
  RuntimeDisposition, OpenContactInput, RuntimeIds,
}
use ros_road_operating_syste.Contact.Runtime.Store.{
  Store, Insertion, get_session_for_update, insert_session, insert_inbox_if_absent,
  insert_audit_if_absent, insert_outbox_if_absent, is_null,
}
use ros_road_operating_syste.Contact.Runtime.Steps.{
  valid_id, valid_scope, valid_nullable_owner_actor_id, valid_language, to_safety_channel, outbox,
  audit,
}

-- `A|B`
unfoldable pub bar : Text → Text → Text
bar a b = a ++ units "|" ++ b

unfoldable pub scoped_key : Text → ContactScope → Text → Text
unfolding bar
scoped_key prefix scope rest =
    bar prefix (bar scope.tenant_id (bar scope.case_id (bar scope.session_id rest)))

unfoldable pub open_key : OpenContactInput → Text
unfolding scoped_key
open_key input = scoped_key (units "open") input.scope input.idempotency_key

unfoldable pub opened : OpenContactInput → HumanContactLanguage → ℕ → ContactSessionRecord
opened input language occurred_at = record {
  scope = input.scope;
  owner_actor_id = input.owner_actor_id;
  state = HumanContactState.consent_pending;
  version = 1;
  language = language;
  identity_confidence = HumanContactIdentityConfidence.unverified;
  active_channel = some (to_safety_channel input.preferred_channel);
  attempt_count = 1;
  response_deadline_at = some (occurred_at + response_deadline_ms);
  last_interaction_at = occurred_at;
  assigned_operator_id = none;
  automation_suppressed = false;
  next_action_at = some (occurred_at + response_deadline_ms);
  lease_owner = none;
  lease_expires_at = none;
  updated_at = occurred_at;
}

unfoldable pub valid_open : OpenContactInput → Bool
valid_open input =
    valid_scope input.scope
    && valid_nullable_owner_actor_id input.owner_actor_id
    && valid_id input.trace_id
    && valid_id input.idempotency_key
    && not (is_null input.occurred_at)
    && valid_language input.language

module _ (ids : RuntimeIds) where
  unfoldable pub send_message :
      ContactSessionRecord → ContactChannel → ContactPromptId → ℕ → Store → Store
  send_message session channel prompt_id available_at store =
      (insert_outbox_if_absent (outbox ids session channel prompt_id available_at) store).1

  unfoldable pub open_in :
      OpenContactInput → HumanContactLanguage → ℕ → Store → RuntimeDisposition × Store
  open_in input language occurred_at store =
      let session : ContactSessionRecord = opened input language occurred_at in
      (
        RuntimeDisposition.applied,
        (insert_audit_if_absent
            (audit ids session AuditEventType.contact_consent_pending
              ReasonCode.protocol_started_with_consent input.trace_id occurred_at ActorType.system
              (units "runtime") HumanSafetyActorRole.system)
            (send_message session input.preferred_channel ContactPromptId.consent occurred_at
              (insert_session session store))).1,
      )

  -- The transaction's work, after the insertion into the inbox.
  unfoldable pub open_recorded :
      OpenContactInput → HumanContactLanguage → ℕ → Insertion × Store → RuntimeDisposition × Store
  unfolding open_in
  open_recorded input language occurred_at (Insertion.exists, store) =
      (RuntimeDisposition.idempotent, store)
  open_recorded input language occurred_at (Insertion.inserted, store) =
      if is_null (get_session_for_update input.scope store)
      then open_in input language occurred_at store
      else (RuntimeDisposition.conflict, store)

  unfoldable pub open_valid :
      OpenContactInput → Loose HumanContactLanguage → Option ℕ → Store → RuntimeDisposition × Store
  unfolding open_recorded
  open_valid input (known language) (some occurred_at) store =
      open_recorded input language occurred_at
        (insert_inbox_if_absent input.scope (open_key input) store)
  open_valid input _ _ store = (RuntimeDisposition.human_review, store)

  unfoldable pub open_contact : OpenContactInput → Store → RuntimeDisposition × Store
  unfolding open_valid
  open_contact input store =
      if valid_open input
      then open_valid input input.language input.occurred_at store
      else (RuntimeDisposition.human_review, store)
