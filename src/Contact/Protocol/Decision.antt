-- ===== src/Contact/Protocol/Decision.antt =====
-- packages/contracts/src/human-contact-protocol.ts: `decideHumanContactTransition`. A time is `none` where
-- `Date.parse` gives NaN.
use ros_road_operating_syste.Prelude.{
  ℕ, ◌+◌, Bool, true, false, not, ◌&&◌, ◌||◌, Option, none, some, List, ◌==◌, leb, if◌then◌else◌,
  length,
}
use ros_road_operating_syste.Prelude.Text.{Text, trim}
use ros_road_operating_syste.Contact.Protocol.States.{
  max_automated_attempts, response_deadline_ms, retry_base_delay_ms, HumanContactState, contacting,
  human_review, escalated, operator_takeover, awaiting_response, no_response, completed,
  HumanContactIdentityConfidence, confirmed, HumanContactAuthority, HumanSafetyActorRole,
  same_state, allows, transition_authority, authorized_role,
}

pub data ContactCallbackKind : Type 0 where
  consent_granted consent_declined language_selected partial_response response contradictory
        disconnected channel_failure accessibility_unavailable :
      ContactCallbackKind

-- The reason codes of the protocol and of the orchestration. A callback's code is its kind.
pub data ReasonCode : Type 0 where
  approved invalid_or_stale_transition_context invalid_contact_transition
        transition_authority_undefined actor_role_not_authorized channel_unavailable
        accessibility_path_unavailable retry_limit_exhausted identity_not_confirmed :
      ReasonCode
  protocol_started_with_consent invalid_callback_transition consent_deadline_elapsed
        language_selection_deadline_elapsed contact_channel_ready response_deadline_elapsed
        partial_response_followup_due unexpected_due_state channel_disconnected_retry
        no_response_retry_due operator_takeover_reason :
      ReasonCode
  callback : ContactCallbackKind → ReasonCode

-- `contact.<state>` or `contact.rejected.<code>`
pub data AuditAction : Type 0 where
  entered : HumanContactState → AuditAction
  rejected : ReasonCode → AuditAction

-- What the decision reads of a session.
pub record SessionView : Type 0 where
  pub state : HumanContactState
  pub version : ℕ
  pub identity_confidence : HumanContactIdentityConfidence
  pub attempt_count : ℕ

pub record HumanContactTransitionContext : Type 0 where
  pub actor_id : Text
  pub actor_roles : List HumanSafetyActorRole
  pub occurred_at : Option ℕ
  pub reason : Text
  pub trace_id : Text
  pub channel_healthy : Bool
  pub accessibility_satisfied : Bool
  pub expected_version : ℕ

pub record HumanContactTransitionDecision : Type 0 where
  pub allowed : Bool
  pub next_state : HumanContactState
  pub reason_code : ReasonCode
  pub audit_action : AuditAction
  pub deadline_at : Option ℕ
  pub requires_human_action : Bool
  pub required_authority : Option HumanContactAuthority
  pub authorized_by_role : Option HumanSafetyActorRole

unfoldable pub allow :
    HumanContactState
    → Option ℕ
    → Bool
    → HumanContactAuthority
    → HumanSafetyActorRole
    → HumanContactTransitionDecision
allow next_state deadline_at requires_human_action required_authority role = record {
  allowed = true;
  next_state = next_state;
  reason_code = approved;
  audit_action = entered next_state;
  deadline_at = deadline_at;
  requires_human_action = requires_human_action;
  required_authority = some required_authority;
  authorized_by_role = some role;
}

unfoldable pub deny :
    HumanContactState
    → ReasonCode
    → Bool
    → Option HumanContactAuthority
    → Option HumanSafetyActorRole
    → HumanContactTransitionDecision
deny next_state reason_code requires_human_action required_authority role = record {
  allowed = false;
  next_state = next_state;
  reason_code = reason_code;
  audit_action = rejected reason_code;
  deadline_at = none;
  requires_human_action = requires_human_action;
  required_authority = required_authority;
  authorized_by_role = role;
}

unfoldable pub non_empty : Text → Bool
non_empty value = not (length (trim value) == 0)

-- `['HUMAN_REVIEW', 'ESCALATED', 'OPERATOR_TAKEOVER'].includes(state)`
unfoldable pub is_human_state : HumanContactState → Bool
is_human_state human_review = true
is_human_state escalated = true
is_human_state operator_takeover = true
is_human_state _ = false

unfoldable pub is_confirmed : HumanContactIdentityConfidence → Bool
is_confirmed confirmed = true
is_confirmed _ = false

-- From the checks of the channel on: the role is authorized.
unfoldable pub decide_authorized :
    ℕ
    → SessionView
    → HumanContactState
    → HumanContactTransitionContext
    → HumanContactAuthority
    → HumanSafetyActorRole
    → HumanContactTransitionDecision
decide_authorized now current requested context authority role =
    if not context.channel_healthy && not (is_human_state requested)
    then deny human_review channel_unavailable true (some authority) (some role)
    else if not context.accessibility_satisfied && not (is_human_state requested)
    then deny human_review accessibility_path_unavailable true (some authority) (some role)
    else if same_state requested contacting && leb max_automated_attempts current.attempt_count
    then deny escalated retry_limit_exhausted true (some authority) (some role)
    else if same_state requested no_response || same_state requested HumanContactState.disconnected
    then allow requested (some (now + retry_base_delay_ms)) true authority role
    else if same_state requested awaiting_response
    then allow requested (some (now + response_deadline_ms)) false authority role
    else if same_state requested completed && not (is_confirmed current.identity_confidence)
    then deny human_review identity_not_confirmed true (some authority) (some role)
    else allow requested none (is_human_state requested) authority role

unfoldable pub decide_role :
    ℕ
    → SessionView
    → HumanContactState
    → HumanContactTransitionContext
    → HumanContactAuthority
    → Option HumanSafetyActorRole
    → HumanContactTransitionDecision
decide_role now current requested context authority none =
    deny current.state actor_role_not_authorized false (some authority) none
decide_role now current requested context authority (some role) =
    decide_authorized now current requested context authority role

unfoldable pub decide_authority :
    ℕ
    → SessionView
    → HumanContactState
    → HumanContactTransitionContext
    → Option HumanContactAuthority
    → HumanContactTransitionDecision
decide_authority now current requested context none =
    deny current.state transition_authority_undefined false none none
decide_authority now current requested context (some authority) =
    decide_role now current requested context authority
      (authorized_role context.actor_roles authority)

unfoldable pub decide_at :
    Option ℕ
    → SessionView
    → HumanContactState
    → HumanContactTransitionContext
    → HumanContactTransitionDecision
decide_at none current requested context =
    deny human_review invalid_or_stale_transition_context true none none
decide_at (some now) current requested context =
    if not (context.expected_version == current.version)
      || not (non_empty context.actor_id)
      || not (non_empty context.reason)
      || not (non_empty context.trace_id)
    then deny human_review invalid_or_stale_transition_context true none none
    else if not (allows current.state requested)
    then deny current.state invalid_contact_transition false none none
    else decide_authority now current requested context
        (transition_authority current.state requested)

unfoldable pub decide_human_contact_transition :
    SessionView → HumanContactState → HumanContactTransitionContext → HumanContactTransitionDecision
unfolding decide_at decide_authority decide_role decide_authorized allow deny is_human_state
    is_confirmed same_state
decide_human_contact_transition current requested context =
    decide_at context.occurred_at current requested context
