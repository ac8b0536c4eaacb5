-- ===== src/Oversight/Orchestrator.antt =====
-- apps/api/src/ros-eye/privacy-security-oversight.ts, lines 90-136: `PrivacyAccessOrchestrator`. The two readings of
-- the clock are arguments.
use ros_road_operating_syste.Prelude.{ℕ, Bool, false, not, ◌&&◌, Option, none, some, if◌then◌else◌}
use ros_road_operating_syste.Prelude.Text.{Text}
use ros_road_operating_syste.Oversight.Policy.{
  AccessRequest, AccessDecision, BreakGlassLease, full, raw_token_denied, restricted_export_denied,
  delete_role_denied, minimum_necessary_denied, policy_allow, trusted_clock_unavailable,
  break_glass_required, idempotency_required, break_glass_authoritative_lease_invalid,
  break_glass_authorized, break_glass_rate_limited, break_glass_anomaly_review,
  break_glass_alert_not_durable, break_glass_audit_not_durable, break_glass_lease_invalidated,
  break_glass_grant_conflict, consent_record_required, deny, allow, minimum, restricted_raw,
  requires_consent, valid_id, valid_time, is_delete, is_export, is_raw_token, is_retention_admin,
  mode_of, validate_common,
}
use ros_road_operating_syste.Oversight.Access.{
  valid_break_glass, or_empty, check_grant, BreakGlassGrantInput, AbuseVerdict, allow_verdict,
  rate_limit, anomaly_review, GrantOutcome, authorized, idempotent, GrantPorts,
}

unfoldable pub is_valid_lease : Option BreakGlassLease → AccessRequest → Option ℕ → Bool
is_valid_lease none r now = false
is_valid_lease (some lease) r now = valid_break_glass lease r now

module _ (ports : GrantPorts) where
  unfoldable pub verify_consent : AccessRequest → Option AccessDecision
  verify_consent r =
      if not (
        valid_id (or_empty r.consent_grant_id)
        && valid_id (or_empty r.session_id)
        && valid_id (or_empty r.subject_id))
      then some (deny consent_record_required)
      else check_grant r r.now (ports.find_consent_grant r)

  unfoldable pub finalized :
      (GrantOutcome × Option Text) × ports.State → AccessDecision × ports.State
  finalized ((authorized, some grant_id), s) =
      (allow full break_glass_authorized (some grant_id), s)
  finalized ((idempotent, some grant_id), s) =
      (allow full break_glass_authorized (some grant_id), s)
  finalized (_, s) = (deny break_glass_grant_conflict, s)

  -- The second check of the lease, at the second reading of the clock.
  unfoldable pub finish :
      AccessRequest
      → Text
      → BreakGlassGrantInput
      → Text
      → Text
      → Option ℕ
      → ports.State
      → AccessDecision × ports.State
  unfolding finalized is_valid_lease
  finish r lease_id input alert_receipt audit_event final_now s =
      if not (valid_time final_now)
      then (deny trusted_clock_unavailable, s)
      else if not (is_valid_lease (ports.find_lease_for_update r lease_id s) r final_now)
      then (deny break_glass_lease_invalidated, s)
      else finalized (
          ports.finalize_grant (record input { occurred_at = final_now }) alert_receipt audit_event
            s)

  unfoldable pub audited :
      AccessRequest
      → Text
      → BreakGlassGrantInput
      → Text
      → Option ℕ
      → Option Text × ports.State
      → AccessDecision × ports.State
  unfolding finish
  audited r lease_id input alert_receipt final_now (none, s) =
      (deny break_glass_audit_not_durable, s)
  audited r lease_id input alert_receipt final_now (some audit_event, s) =
      finish r lease_id input alert_receipt audit_event final_now s

  unfoldable pub alerted :
      AccessRequest
      → Text
      → BreakGlassGrantInput
      → Option ℕ
      → Option Text × ports.State
      → AccessDecision × ports.State
  unfolding audited
  alerted r lease_id input final_now (none, s) = (deny break_glass_alert_not_durable, s)
  alerted r lease_id input final_now (some alert_receipt, s) =
      audited r lease_id input alert_receipt final_now (ports.append_audit input alert_receipt s)

  unfoldable pub judged :
      AccessRequest
      → Text
      → BreakGlassGrantInput
      → Option ℕ
      → AbuseVerdict × ports.State
      → AccessDecision × ports.State
  unfolding alerted
  judged r lease_id input final_now (rate_limit, s) = (deny break_glass_rate_limited, s)
  judged r lease_id input final_now (anomaly_review, s) = (deny break_glass_anomaly_review, s)
  judged r lease_id input final_now (allow_verdict, s) =
      alerted r lease_id input final_now (ports.reserve_alert input s)

  unfoldable pub unless_authorized :
      Option Text
      → AccessRequest
      → Text
      → BreakGlassGrantInput
      → Option ℕ
      → ports.State
      → AccessDecision × ports.State
  unfolding judged
  unless_authorized (some grant_id) r lease_id input final_now s =
      (allow full break_glass_authorized (some grant_id), s)
  unless_authorized none r lease_id input final_now s =
      judged r lease_id input final_now (ports.consume_abuse input s)

  -- The work of the transaction, with the lease that it found.
  unfoldable pub leased :
      Option BreakGlassLease
      → AccessRequest
      → Text
      → Text
      → Option ℕ
      → ports.State
      → AccessDecision × ports.State
  unfolding unless_authorized
  leased none r lease_id grant_id final_now s = (deny break_glass_authoritative_lease_invalid, s)
  leased (some lease) r lease_id grant_id final_now s =
      if not (valid_break_glass lease r r.now)
      then (deny break_glass_authoritative_lease_invalid, s)
      else unless_authorized (ports.find_authorized r grant_id lease.lease_id s) r lease_id
          (record {
            grant_id = grant_id;
            request = r;
            lease_id = lease.lease_id;
            reason_code = lease.reason_code;
            occurred_at = r.now;
          })
          final_now s

  unfoldable pub break_glass_access :
      Option BreakGlassLease → AccessRequest → Option ℕ → ports.State → AccessDecision × ports.State
  unfolding leased
  break_glass_access none r final_now s = (deny break_glass_required, s)
  break_glass_access (some requested) r final_now s =
      if not (valid_id requested.lease_id)
      then (deny break_glass_required, s)
      else if not (valid_id (or_empty r.idempotency_key))
      then (deny idempotency_required, s)
      else leased (ports.find_lease_for_update r requested.lease_id s) r requested.lease_id
          (ports.create_id r requested.lease_id) final_now s

  unfoldable pub consented :
      Option AccessDecision → AccessRequest → Option ℕ → ports.State → AccessDecision × ports.State
  unfolding break_glass_access
  consented (some decision) r final_now s = (decision, s)
  consented none r final_now s =
      if restricted_raw r.data_kind
      then break_glass_access r.break_glass r final_now s
      else if is_delete r.action && not (is_retention_admin r.role)
      then (deny delete_role_denied, s)
      else if not (minimum r.purpose r.data_kind)
      then (deny minimum_necessary_denied, s)
      else (allow (mode_of r.action) policy_allow none, s)

  unfoldable pub checked :
      Option AccessDecision → AccessRequest → Option ℕ → ports.State → AccessDecision × ports.State
  unfolding consented verify_consent
  checked (some decision) r final_now s = (decision, s)
  checked none r final_now s =
      if is_raw_token r.data_kind
      then (deny raw_token_denied, s)
      else if is_export r.action && restricted_raw r.data_kind
      then (deny restricted_export_denied, s)
      else consented (if requires_consent r.purpose then verify_consent r else none) r final_now s

  unfoldable pub authorize_access :
      AccessRequest → Option ℕ → Option ℕ → ports.State → AccessDecision × ports.State
  unfolding checked
  authorize_access request trusted_now final_now s =
      if not (valid_time trusted_now)
      then (deny trusted_clock_unavailable, s)
      else let r : AccessRequest = record request { now = trusted_now } in
        checked (validate_common r) r final_now s
