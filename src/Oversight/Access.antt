-- ===== src/Oversight/Access.antt =====
-- apps/api/src/ros-eye/privacy-security-oversight.ts, lines 20-50, 90-136 and 214: `authorizeAccess` over its ports.
use ros_road_operating_syste.Prelude.{
  ℕ, Bool, true, false, ◌&&◌, ◌==◌, leb, ltb, Option, none, some, List, [], any, if◌then◌else◌,
}
use ros_road_operating_syste.Prelude.Text.{Text, text_eq}
use ros_road_operating_syste.Oversight.Policy.{
  DataKind, Purpose, Role, Action, AccessRequest, AccessDecision, BreakGlassLease,
  consent_record_missing, consent_record_invalid, safety_contact, incident_triage, operator_review,
  security_investigation, retention_purpose, system_worker, safety_operator, security_reviewer,
  retention_admin, auditor, signal, indicator, conversation_metadata, conversation_raw,
  evidence_metadata, evidence_raw, precise_location, raw_token, operator_view, read, masked_read,
  write, delete, export, deny, valid_id, is_null,
}

role_rank : Role → ℕ
role_rank system_worker = 0
role_rank safety_operator = 1
role_rank security_reviewer = 2
role_rank retention_admin = 3
role_rank auditor = 4

purpose_rank : Purpose → ℕ
purpose_rank safety_contact = 0
purpose_rank incident_triage = 1
purpose_rank operator_review = 2
purpose_rank security_investigation = 3
purpose_rank retention_purpose = 4

kind_rank : DataKind → ℕ
kind_rank signal = 0
kind_rank indicator = 1
kind_rank conversation_metadata = 2
kind_rank conversation_raw = 3
kind_rank evidence_metadata = 4
kind_rank evidence_raw = 5
kind_rank precise_location = 6
kind_rank raw_token = 7
kind_rank operator_view = 8

action_rank : Action → ℕ
action_rank read = 0
action_rank masked_read = 1
action_rank write = 2
action_rank delete = 3
action_rank export = 4

unfoldable pub same_role : Role → Role → Bool
unfolding role_rank
same_role a b = role_rank a == role_rank b

unfoldable pub same_purpose : Purpose → Purpose → Bool
unfolding purpose_rank
same_purpose a b = purpose_rank a == purpose_rank b

unfoldable pub includes_kind : DataKind → List DataKind → Bool
unfolding kind_rank
includes_kind kind kinds = any (λ k. kind_rank k == kind_rank kind) kinds

unfoldable pub includes_action : Action → List Action → Bool
unfolding action_rank
includes_action action actions = any (λ a. action_rank a == action_rank action) actions

-- `a <= b` and `a < b` on two parsed times, false where either is NaN.
unfoldable pub at_or_before : Option ℕ → Option ℕ → Bool
at_or_before (some a) (some b) = leb a b
at_or_before _ _ = false

unfoldable pub before : Option ℕ → Option ℕ → Bool
before (some a) (some b) = ltb a b
before _ _ = false

unfoldable pub valid_break_glass : BreakGlassLease → AccessRequest → Option ℕ → Bool
valid_break_glass l r now =
    text_eq l.tenant_id r.tenant_id
    && text_eq l.case_id r.case_id
    && text_eq l.actor_id r.actor_id
    && same_role l.role r.role
    && same_purpose l.purpose r.purpose
    && at_or_before l.issued_at now
    && before now l.expires_at
    && is_null l.reviewed_at
    && is_null l.revoked_at
    && valid_id l.lease_id
    && valid_id l.reason_code

pub data ContactConsentState : Type 0 where
  contacting awaiting_response human_review escalated : ContactConsentState

pub data GrantStatus : Type 0 where
  active_grant revoked_grant expired_grant : GrantStatus

pub record ConsentGrantReceipt : Type 0 where
  pub tenant_id : Text
  pub case_id : Text
  pub session_id : Text
  pub subject_id : Text
  pub purposes : List Purpose
  pub data_kinds : List DataKind
  pub actions : List Action
  pub disclosure_language : Text
  pub contact_state : ContactConsentState
  pub protocol_version : Text
  pub consent_policy_version : Text
  pub granted_at : Option ℕ
  pub expires_at : Option ℕ
  pub revoked_at : Option Text
  pub status : GrantStatus

unfoldable pub is_active_grant : GrantStatus → Bool
is_active_grant active_grant = true
is_active_grant _ = false

unfoldable pub or_empty : Option Text → Text
or_empty none = []
or_empty (some value) = value

unfoldable pub grant_active : ConsentGrantReceipt → Option ℕ → Bool
grant_active grant now =
    is_active_grant grant.status
    && is_null grant.revoked_at
    && at_or_before grant.granted_at now
    && before now grant.expires_at

unfoldable pub grant_bound : ConsentGrantReceipt → AccessRequest → Bool
grant_bound grant r =
    text_eq grant.tenant_id r.tenant_id
    && text_eq grant.case_id r.case_id
    && text_eq grant.session_id (or_empty r.session_id)
    && text_eq grant.subject_id (or_empty r.subject_id)
    && any (same_purpose r.purpose) grant.purposes
    && includes_kind r.data_kind grant.data_kinds
    && includes_action r.action grant.actions

-- The four contact states of the type are the four that the code lists.
unfoldable pub sequence_complete : ConsentGrantReceipt → Bool
sequence_complete grant =
    valid_id grant.disclosure_language
    && valid_id grant.protocol_version
    && valid_id grant.consent_policy_version

unfoldable pub check_grant :
    AccessRequest → Option ℕ → Option ConsentGrantReceipt → Option AccessDecision
check_grant r now none = some (deny consent_record_missing)
check_grant r now (some grant) =
    if grant_active grant now && grant_bound grant r && sequence_complete grant
    then none
    else some (deny consent_record_invalid)

pub record BreakGlassGrantInput : Type 0 where
  pub grant_id : Text
  pub request : AccessRequest
  pub lease_id : Text
  pub reason_code : Text
  pub occurred_at : Option ℕ

pub data AbuseVerdict : Type 0 where
  allow_verdict rate_limit anomaly_review : AbuseVerdict

pub data GrantOutcome : Type 0 where
  authorized idempotent conflict : GrantOutcome

-- The ports. A state is that of the database within the transaction; the answers that carry a receipt have none where
-- it is null, or where the status is FAILED.
pub record GrantPorts : Type 1 where
  pub State : Type 0
  pub find_consent_grant : AccessRequest → Option ConsentGrantReceipt
  pub create_id : AccessRequest → Text → Text
  pub find_lease_for_update : AccessRequest → Text → State → Option BreakGlassLease
  pub find_authorized : AccessRequest → Text → Text → State → Option Text
  pub consume_abuse : BreakGlassGrantInput → State → AbuseVerdict × State
  pub reserve_alert : BreakGlassGrantInput → State → Option Text × State
  pub append_audit : BreakGlassGrantInput → Text → State → Option Text × State
  pub finalize_grant :
      BreakGlassGrantInput → Text → Text → State → (GrantOutcome × Option Text) × State
