-- ===== src/Oversight/Tests.antt =====
-- Runs of the access policy, and the theorems about it at concrete requests.
use ros_road_operating_syste.Prelude.{
  ℕ, Bool, true, false, Option, none, some, List, [], ◌∷◌, ◌≡◌, refl, arith, length,
}
use ros_road_operating_syste.Prelude.Text.{Text, units}
use ros_road_operating_syste.Oversight.Policy.{
  BreakGlassLease, AccessRequest, AccessDecision, evaluate_access, Role, Purpose, Lifecycle,
  DataKind, Action, minimum, restricted_raw, is_raw_token, requires_consent, is_export,
}
use ros_road_operating_syste.Oversight.Access.{
  GrantPorts, AbuseVerdict, GrantOutcome, BreakGlassGrantInput,
}
use ros_road_operating_syste.Oversight.Orchestrator.{authorize_access}
use ros_road_operating_syste.Oversight.Leases.{Leased, authorize_access-Leased}
use ros_road_operating_syste.Oversight.Laws.{
  authorize_access-evaluate_access, evaluate_access-minimum,
}

abbrev lease : BreakGlassLease
lease = record {
  tenant_id = units "tenant-1";
  case_id = units "case-1";
  lease_id = units "lease-1";
  actor_id = units "reviewer-1";
  role = Role.security_reviewer;
  purpose = Purpose.security_investigation;
  reason_code = units "intrusion";
  issued_at = some 1000;
  expires_at = some 901000;
  reviewed_at = none;
  revoked_at = none;
}

abbrev request : AccessRequest
request = record {
  tenant_id = units "tenant-1";
  case_id = units "case-1";
  actor_id = units "reviewer-1";
  actor_tenant_id = units "tenant-1";
  actor_case_id = units "case-1";
  role = Role.security_reviewer;
  purpose = Purpose.security_investigation;
  lifecycle = Lifecycle.active;
  data_kind = DataKind.evidence_raw;
  action = Action.read;
  now = some 2000;
  break_glass = some lease;
  session_id = none;
  subject_id = none;
  consent_grant_id = none;
  idempotency_key = some (units "access-0001");
}

abbrev plain_request : AccessRequest
plain_request = record request { data_kind = DataKind.signal }

-- The state is the list of the grants that were written; the lease is the one above.
abbrev ports : GrantPorts
ports = record {
  State = List Text;
  find_consent_grant = λ r. none;
  create_id = λ r lease_id. units "grant-1";
  find_lease_for_update = λ r lease_id s. some lease;
  find_authorized = λ r grant_id lease_id s. none;
  consume_abuse = λ input s. (AbuseVerdict.allow_verdict, s);
  reserve_alert = λ input s. (some (units "alert-1"), s);
  append_audit = λ input alert s. (some (units "audit-1"), s);
  finalize_grant =
      λ input alert audit s. ((GrantOutcome.authorized, some input.grant_id), input.grant_id ∷ s);
}

grants : (authorize_access ports request (some 2000) (some 2001) []).0.allowed ≡ true
unfolding authorize_access ros_road_operating_syste.Oversight.Policy.valid_time
    ros_road_operating_syste.Oversight.Policy.is_null
    ros_road_operating_syste.Oversight.Policy.validate_common
    ros_road_operating_syste.Prelude.Text.matches_id ros_road_operating_syste.Prelude.Text.text_eq
    ros_road_operating_syste.Oversight.Policy.role_purposes
    ros_road_operating_syste.Oversight.Policy.lifecycle_allows is_raw_token is_export
    requires_consent restricted_raw ros_road_operating_syste.Oversight.Access.or_empty
    ros_road_operating_syste.Oversight.Access.valid_break_glass
    ros_road_operating_syste.Oversight.Access.same_role
    ros_road_operating_syste.Oversight.Access.same_purpose
    ros_road_operating_syste.Oversight.Access.at_or_before
    ros_road_operating_syste.Oversight.Access.before
    ros_road_operating_syste.Oversight.Access.check_grant
    ros_road_operating_syste.Oversight.Access.grant_active
    ros_road_operating_syste.Oversight.Access.grant_bound
    ros_road_operating_syste.Oversight.Access.includes_action
    ros_road_operating_syste.Oversight.Access.includes_kind
    ros_road_operating_syste.Oversight.Access.is_active_grant
    ros_road_operating_syste.Oversight.Access.sequence_complete
    ros_road_operating_syste.Oversight.Orchestrator.alerted
    ros_road_operating_syste.Oversight.Orchestrator.audited
    ros_road_operating_syste.Oversight.Orchestrator.break_glass_access
    ros_road_operating_syste.Oversight.Orchestrator.checked
    ros_road_operating_syste.Oversight.Orchestrator.consented
    ros_road_operating_syste.Oversight.Orchestrator.finalized
    ros_road_operating_syste.Oversight.Orchestrator.finish
    ros_road_operating_syste.Oversight.Orchestrator.is_valid_lease
    ros_road_operating_syste.Oversight.Orchestrator.judged
    ros_road_operating_syste.Oversight.Orchestrator.leased
    ros_road_operating_syste.Oversight.Orchestrator.unless_authorized
    ros_road_operating_syste.Oversight.Orchestrator.verify_consent
    ros_road_operating_syste.Oversight.Policy.allow ros_road_operating_syste.Oversight.Policy.deny
    ros_road_operating_syste.Oversight.Policy.is_delete
    ros_road_operating_syste.Oversight.Policy.is_retention_admin
    ros_road_operating_syste.Oversight.Policy.is_retention_purpose minimum
    ros_road_operating_syste.Oversight.Policy.mode_of
    ros_road_operating_syste.Prelude.Text.is_id_char
grants = refl

-- A lease that expires while the grant is under way opens nothing.
lapsed_lease : (authorize_access ports request (some 2000) (some 901000) []).0.allowed ≡ false
unfolding authorize_access ros_road_operating_syste.Oversight.Policy.valid_time
    ros_road_operating_syste.Oversight.Policy.is_null
    ros_road_operating_syste.Oversight.Policy.validate_common
    ros_road_operating_syste.Prelude.Text.matches_id ros_road_operating_syste.Prelude.Text.text_eq
    ros_road_operating_syste.Oversight.Policy.role_purposes
    ros_road_operating_syste.Oversight.Policy.lifecycle_allows is_raw_token is_export
    requires_consent restricted_raw ros_road_operating_syste.Oversight.Access.or_empty
    ros_road_operating_syste.Oversight.Access.valid_break_glass
    ros_road_operating_syste.Oversight.Access.same_role
    ros_road_operating_syste.Oversight.Access.same_purpose
    ros_road_operating_syste.Oversight.Access.at_or_before
    ros_road_operating_syste.Oversight.Access.before
    ros_road_operating_syste.Oversight.Access.check_grant
    ros_road_operating_syste.Oversight.Access.grant_active
    ros_road_operating_syste.Oversight.Access.grant_bound
    ros_road_operating_syste.Oversight.Access.includes_action
    ros_road_operating_syste.Oversight.Access.includes_kind
    ros_road_operating_syste.Oversight.Access.is_active_grant
    ros_road_operating_syste.Oversight.Access.sequence_complete
    ros_road_operating_syste.Oversight.Orchestrator.alerted
    ros_road_operating_syste.Oversight.Orchestrator.audited
    ros_road_operating_syste.Oversight.Orchestrator.break_glass_access
    ros_road_operating_syste.Oversight.Orchestrator.checked
    ros_road_operating_syste.Oversight.Orchestrator.consented
    ros_road_operating_syste.Oversight.Orchestrator.finalized
    ros_road_operating_syste.Oversight.Orchestrator.finish
    ros_road_operating_syste.Oversight.Orchestrator.is_valid_lease
    ros_road_operating_syste.Oversight.Orchestrator.judged
    ros_road_operating_syste.Oversight.Orchestrator.leased
    ros_road_operating_syste.Oversight.Orchestrator.unless_authorized
    ros_road_operating_syste.Oversight.Orchestrator.verify_consent
    ros_road_operating_syste.Oversight.Policy.allow ros_road_operating_syste.Oversight.Policy.deny
    ros_road_operating_syste.Oversight.Policy.is_delete
    ros_road_operating_syste.Oversight.Policy.is_retention_admin
    ros_road_operating_syste.Oversight.Policy.is_retention_purpose minimum
    ros_road_operating_syste.Oversight.Policy.mode_of
    ros_road_operating_syste.Prelude.Text.is_id_char
lapsed_lease = refl

plain_allowed : (evaluate_access plain_request).allowed ≡ true
unfolding evaluate_access ros_road_operating_syste.Oversight.Policy.validate_common
    ros_road_operating_syste.Prelude.Text.matches_id ros_road_operating_syste.Prelude.Text.text_eq
    ros_road_operating_syste.Oversight.Policy.valid_time
    ros_road_operating_syste.Oversight.Policy.is_null
    ros_road_operating_syste.Oversight.Policy.role_purposes
    ros_road_operating_syste.Oversight.Policy.lifecycle_allows is_raw_token is_export
    ros_road_operating_syste.Oversight.Policy.is_delete requires_consent restricted_raw minimum
    ros_road_operating_syste.Oversight.Policy.allow
plain_allowed = refl

authorize_access-evaluate_access_example :
    authorize_access ports plain_request (some 2000) none []
    ≡ (evaluate_access (record plain_request { now = some 2000 }), [])
unfolding requires_consent restricted_raw
authorize_access-evaluate_access_example =
    authorize_access-evaluate_access ports plain_request 2000 none [] refl refl

authorize_access-Leased_example :
    (is_export request.action ≡ false)
    × Leased ports
        (record request { now = some 2000 })
        (some 2001)
        []
        (authorize_access ports request (some 2000) (some 2001) [])
unfolding restricted_raw
authorize_access-Leased_example =
    authorize_access-Leased ports request (some 2000) (some 2001) [] refl grants

evaluate_access-minimum_example :
    (minimum plain_request.purpose plain_request.data_kind ≡ true)
    × (restricted_raw plain_request.data_kind ≡ false)
    × (is_raw_token plain_request.data_kind ≡ false)
    × (requires_consent plain_request.purpose ≡ false)
evaluate_access-minimum_example = evaluate_access-minimum plain_request plain_allowed
