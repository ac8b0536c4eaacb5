-- ===== src/Contact/Runtime/Records.antt =====
-- apps/api/src/ros-eye/contact-orchestration.ts, lines 18-181: the rows of the contact runtime. A stored time
-- is its number of milliseconds. The fields that have one literal as their type (the policy versions and the
-- accessibility profile) are left out.
use ros_road_operating_syste.Prelude.{ℕ, Bool, ◌&&◌, Option, Loose}
use ros_road_operating_syste.Prelude.Text.{Text, text_eq}
use ros_road_operating_syste.Contact.Protocol.{
  HumanContactState, HumanContactLanguage, HumanContactIdentityConfidence, HumanSafetyActorRole,
  ReasonCode, ContactCallbackKind,
}

pub data ContactChannel : Type 0 where
  in_app push sms_sim telephony_sim : ContactChannel

pub data HumanSafetyChannel : Type 0 where
  in_app_chat in_app_voice push_channel sms_simulation telephony_simulation operator_channel :
      HumanSafetyChannel

pub data ContactPromptId : Type 0 where
  consent language response accessibility handoff : ContactPromptId

pub data RuntimeDisposition : Type 0 where
  applied idempotent human_review escalated conflict : RuntimeDisposition

pub data OutboxDeliveryDisposition : Type 0 where
  delivered retry cancelled conflict : OutboxDeliveryDisposition

pub data DeliveryResult : Type 0 where
  sent unavailable : DeliveryResult

pub record ContactScope : Type 0 where
  pub tenant_id : Text
  pub case_id : Text
  pub session_id : Text

unfoldable pub same_scope : ContactScope → ContactScope → Bool
same_scope a b =
    text_eq a.tenant_id b.tenant_id
    && text_eq a.case_id b.case_id
    && text_eq a.session_id b.session_id

pub record ContactSessionRecord : Type 0 where
  pub scope : ContactScope
  pub owner_actor_id : Option Text
  pub state : HumanContactState
  pub version : ℕ
  pub language : HumanContactLanguage
  pub identity_confidence : HumanContactIdentityConfidence
  pub active_channel : Option HumanSafetyChannel
  pub attempt_count : ℕ
  pub response_deadline_at : Option ℕ
  pub last_interaction_at : ℕ
  pub assigned_operator_id : Option Text
  pub automation_suppressed : Bool
  pub next_action_at : Option ℕ
  pub lease_owner : Option Text
  pub lease_expires_at : Option ℕ
  pub updated_at : ℕ

pub data ActorType : Type 0 where
  system operator : ActorType

-- The source's text is `CALLBACK_<kind>`, `OPERATOR_TAKEOVER` or `CONTACT_<...>`.
pub data AuditEventType : Type 0 where
  callback : ContactCallbackKind → AuditEventType
  operator_takeover contact_consent_pending contact_awaiting_response contact_no_response
        contact_partial_followup contact_escalated contact_retry_contacting
        contact_runtime_rejected :
      AuditEventType

-- What the identifier of an audit event is made from.
pub record AuditKey : Type 0 where
  pub scope : ContactScope
  pub version : ℕ
  pub event_type : AuditEventType

pub record ContactAuditEvent : Type 0 where
  pub scope : ContactScope
  pub event_id : Text
  pub event_type : AuditEventType
  pub state : HumanContactState
  pub version : ℕ
  pub actor_type : ActorType
  pub actor_id : Text
  pub authorized_by_role : HumanSafetyActorRole
  pub reason_code : ReasonCode
  pub occurred_at : ℕ
  pub trace_id : Text

-- The parts that the source joins by `|` into an idempotency key; no identifier contains that sign.
pub record MessageKey : Type 0 where
  pub scope : ContactScope
  pub version : ℕ
  pub channel : ContactChannel
  pub prompt_id : ContactPromptId

-- A row of the outbox, with the columns that fence a delivery.
pub record ContactOutboxMessage : Type 0 where
  pub scope : ContactScope
  pub message_id : Text
  pub channel : ContactChannel
  pub prompt_id : ContactPromptId
  pub idempotency_key : MessageKey
  pub available_at : ℕ
  pub attempt : ℕ
  pub lease_owner : Option Text
  pub lease_expires_at : Option ℕ
  pub delivered_at : Option ℕ
  pub cancelled_at : Option ℕ
  pub last_error_code : Option Text
  pub delivery_token : Option Text
  pub delivery_started_at : Option ℕ
  pub delivery_deadline_at : Option ℕ

-- An input's time is `none` where `Date.parse` gives NaN.
pub record OpenContactInput : Type 0 where
  pub scope : ContactScope
  pub owner_actor_id : Option Text
  pub language : Loose HumanContactLanguage
  pub trace_id : Text
  pub occurred_at : Option ℕ
  pub idempotency_key : Text
  pub preferred_channel : ContactChannel

pub record CallbackInput : Type 0 where
  pub scope : ContactScope
  pub owner_actor_id : Option Text
  pub authenticated_tenant_id : Text
  pub authenticated_case_id : Text
  pub callback_id : Text
  pub trace_id : Text
  pub occurred_at : Option ℕ
  pub idempotency_key : Text
  pub kind : ContactCallbackKind
  pub selected_language : Option HumanContactLanguage
  pub identity_confidence : Option HumanContactIdentityConfidence

pub record OperatorTakeoverInput : Type 0 where
  pub scope : ContactScope
  pub operator_id : Text
  pub authenticated_tenant_id : Text
  pub authenticated_case_id : Text
  pub authorized_role : HumanSafetyActorRole
  pub trace_id : Text
  pub occurred_at : Option ℕ
  pub idempotency_key : Text
  pub authority_policy_version : Text

pub record ProcessClaimedOutboxInput : Type 0 where
  pub scope : ContactScope
  pub message_id : Text
  pub worker_id : Text
  pub now : ℕ
  pub retry_available_at : ℕ
  pub error_code : Text
  pub delivery_token : Text
  pub delivery_deadline_at : ℕ

-- `RuntimeIdFactoryPort.create`, one function for each namespace.
pub record RuntimeIds : Type 0 where
  pub contact_outbox : MessageKey → Text
  pub contact_audit : AuditKey → Text
  pub contact_delivery : MessageKey → Text → ℕ → Text
