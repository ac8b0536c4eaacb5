-- ===== src/Oversight/Policy.antt =====
-- apps/api/src/ros-eye/privacy-security-oversight.ts, lines 4-39, 68-88 and 208-221: the data of the policy, and
-- `evaluateAccess`.
use ros_road_operating_syste.Prelude.{
  ℕ, Bool, true, false, not, ◌&&◌, Option, none, some, if◌then◌else◌,
}
use ros_road_operating_syste.Prelude.Text.{Text, text_eq, matches_id}

pub data DataKind : Type 0 where
  signal indicator conversation_metadata conversation_raw evidence_metadata evidence_raw : DataKind
  precise_location raw_token operator_view : DataKind

pub data Purpose : Type 0 where
  safety_contact incident_triage operator_review security_investigation retention_purpose : Purpose

pub data Lifecycle : Type 0 where
  inactive consent_pending language_selection active revoked expired legal_hold deletion_pending :
      Lifecycle

pub data Role : Type 0 where
  system_worker safety_operator security_reviewer retention_admin auditor : Role

pub data Action : Type 0 where
  read masked_read write delete export : Action

pub data AccessMode : Type 0 where
  deny_mode masked full : AccessMode

pub data AccessReason : Type 0 where
  scope_or_actor_mismatch role_or_time_denied lifecycle_denied raw_token_denied : AccessReason
  restricted_export_denied delete_role_denied authoritative_consent_required : AccessReason
  break_glass_orchestration_required minimum_necessary_denied policy_allow : AccessReason
  trusted_clock_unavailable break_glass_required idempotency_required : AccessReason
  break_glass_authoritative_lease_invalid break_glass_authorized break_glass_rate_limited :
      AccessReason
  break_glass_anomaly_review break_glass_alert_not_durable break_glass_audit_not_durable :
      AccessReason
  break_glass_lease_invalidated break_glass_grant_conflict consent_record_required : AccessReason
  consent_record_missing consent_record_invalid : AccessReason

pub record BreakGlassLease : Type 0 where
  pub tenant_id : Text
  pub case_id : Text
  pub lease_id : Text
  pub actor_id : Text
  pub role : Role
  pub purpose : Purpose
  pub reason_code : Text
  pub issued_at : Option ℕ
  pub expires_at : Option ℕ
  pub reviewed_at : Option Text
  pub revoked_at : Option Text

pub record AccessRequest : Type 0 where
  pub tenant_id : Text
  pub case_id : Text
  pub actor_id : Text
  pub actor_tenant_id : Text
  pub actor_case_id : Text
  pub role : Role
  pub purpose : Purpose
  pub lifecycle : Lifecycle
  pub data_kind : DataKind
  pub action : Action
  pub now : Option ℕ
  pub break_glass : Option BreakGlassLease
  pub session_id : Option Text
  pub subject_id : Option Text
  pub consent_grant_id : Option Text
  pub idempotency_key : Option Text

pub record AccessDecision : Type 0 where
  pub allowed : Bool
  pub mode : AccessMode
  pub reason_code : AccessReason
  pub receipt_id : Option Text

unfoldable pub deny : AccessReason → AccessDecision
deny reason_code = record {
  allowed = false;
  mode = deny_mode;
  reason_code = reason_code;
  receipt_id = none;
}

unfoldable pub allow : AccessMode → AccessReason → Option Text → AccessDecision
allow mode reason_code receipt_id = record {
  allowed = true;
  mode = mode;
  reason_code = reason_code;
  receipt_id = receipt_id;
}

-- `minimum[purpose].includes(dataKind)`
unfoldable pub minimum : Purpose → DataKind → Bool
minimum safety_contact signal = true
minimum safety_contact indicator = true
minimum safety_contact conversation_metadata = true
minimum incident_triage signal = true
minimum incident_triage indicator = true
minimum incident_triage evidence_metadata = true
minimum operator_review signal = true
minimum operator_review indicator = true
minimum operator_review conversation_metadata = true
minimum operator_review evidence_metadata = true
minimum operator_review operator_view = true
minimum security_investigation signal = true
minimum security_investigation indicator = true
minimum security_investigation conversation_metadata = true
minimum security_investigation evidence_metadata = true
minimum security_investigation operator_view = true
minimum retention_purpose conversation_metadata = true
minimum retention_purpose evidence_metadata = true
minimum _ _ = false

-- `rolePurposes[role].includes(purpose)`
unfoldable pub role_purposes : Role → Purpose → Bool
role_purposes system_worker safety_contact = true
role_purposes system_worker incident_triage = true
role_purposes safety_operator operator_review = true
role_purposes security_reviewer security_investigation = true
role_purposes retention_admin retention_purpose = true
role_purposes auditor security_investigation = true
role_purposes _ _ = false

unfoldable pub restricted_raw : DataKind → Bool
restricted_raw evidence_raw = true
restricted_raw conversation_raw = true
restricted_raw precise_location = true
restricted_raw _ = false

unfoldable pub is_retention_purpose : Purpose → Bool
is_retention_purpose retention_purpose = true
is_retention_purpose _ = false

unfoldable pub lifecycle_allows : Lifecycle → Purpose → Bool
unfolding is_retention_purpose
lifecycle_allows revoked purpose = is_retention_purpose purpose
lifecycle_allows expired purpose = is_retention_purpose purpose
lifecycle_allows inactive purpose = is_retention_purpose purpose
lifecycle_allows deletion_pending purpose = is_retention_purpose purpose
lifecycle_allows consent_pending purpose = false
lifecycle_allows language_selection purpose = false
lifecycle_allows legal_hold security_investigation = true
lifecycle_allows legal_hold purpose = is_retention_purpose purpose
lifecycle_allows active purpose = true

unfoldable pub requires_consent : Purpose → Bool
requires_consent safety_contact = true
requires_consent incident_triage = true
requires_consent operator_review = true
requires_consent _ = false

abbrev pub valid_id : Text → Bool
valid_id value = matches_id 2 127 value

-- `value === null`
unfoldable pub is_null : Option Text → Bool
is_null none = true
is_null (some value) = false

unfoldable pub valid_time : Option ℕ → Bool
valid_time none = false
valid_time (some time) = true

unfoldable pub is_delete : Action → Bool
is_delete delete = true
is_delete _ = false

unfoldable pub is_export : Action → Bool
is_export export = true
is_export _ = false

unfoldable pub is_raw_token : DataKind → Bool
is_raw_token raw_token = true
is_raw_token _ = false

unfoldable pub is_retention_admin : Role → Bool
is_retention_admin retention_admin = true
is_retention_admin _ = false

unfoldable pub mode_of : Action → AccessMode
mode_of masked_read = masked
mode_of _ = full

unfoldable pub validate_common : AccessRequest → Option AccessDecision
validate_common r =
    if not (
      valid_id r.tenant_id
      && valid_id r.case_id
      && valid_id r.actor_id
      && text_eq r.actor_tenant_id r.tenant_id
      && text_eq r.actor_case_id r.case_id)
    then some (deny scope_or_actor_mismatch)
    else if not (valid_time r.now && role_purposes r.role r.purpose)
    then some (deny role_or_time_denied)
    else if not (lifecycle_allows r.lifecycle r.purpose)
    then some (deny lifecycle_denied)
    else none

unfoldable pub evaluate_checked : AccessRequest → Option AccessDecision → AccessDecision
evaluate_checked r (some decision) = decision
evaluate_checked r none =
    if is_raw_token r.data_kind
    then deny raw_token_denied
    else if is_export r.action && restricted_raw r.data_kind
    then deny restricted_export_denied
    else if is_delete r.action && not (is_retention_admin r.role)
    then deny delete_role_denied
    else if requires_consent r.purpose
    then deny authoritative_consent_required
    else if restricted_raw r.data_kind
    then deny break_glass_orchestration_required
    else if not (minimum r.purpose r.data_kind)
    then deny minimum_necessary_denied
    else allow (mode_of r.action) policy_allow none

unfoldable pub evaluate_access : AccessRequest → AccessDecision
unfolding evaluate_checked
evaluate_access r = evaluate_checked r (validate_common r)
