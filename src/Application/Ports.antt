-- ===== src/Application/Ports.antt =====
-- apps/api/src/application/ports.ts
use ros_road_operating_syste.Prelude.{
  ℕ, Bool, Option, List, ◌==◌, ◌≡◌, ◌↔◌, true, arith, any, Loose,
}
use ros_road_operating_syste.Prelude.Text.{Text}
use ros_road_operating_syste.Prelude.Number.{Number}
use ros_road_operating_syste.Prelude.Result.{Result, ok, ◌>>=◌}
use ros_road_operating_syste.RoadEvent.{
  RoadEvent, RoadEventStatus, SeverityLevel, SeverityAssessment, ClosureAuthorization,
  closure_authorization_of,
}

pub data RosRole : Type 0 where
  field_user operator supervisor auditor integration_service : RosRole

pub record AuthenticatedActor : Type 0 where
  pub tenant_id : Text
  pub purpose : Text
  pub reporter_actor_id : Option Text
  pub actor_id : Text
  pub roles : List RosRole

pub data RoadEventPermission : Type 0 where
  create read list attach_signal reassess_severity transition authorize_closure close audit_read :
      RoadEventPermission

-- A role's place in the order of the names.
unfoldable pub role_rank : RosRole → ℕ
role_rank auditor = 0
role_rank field_user = 1
role_rank integration_service = 2
role_rank operator = 3
role_rank supervisor = 4

unfoldable pub same_role : RosRole → RosRole → Bool
unfolding role_rank
same_role a b = role_rank a == role_rank b

pub same_role_iff : (a b : RosRole) → (same_role a b ≡ true) ↔ (a ≡ b)
unfolding same_role
same_role_iff a b = ground arith

unfoldable pub includes_role : List RosRole → RosRole → Bool
includes_role roles role = any (same_role role) roles

pub record IdempotencyRecord (T : Type 0) : Type 0 where
  pub fingerprint : Text
  pub value : T

pub record SignalAttachmentInput : Type 0 where
  pub road_event_id : Text
  pub signal_id : Text
  pub match_score : Number
  pub merge_reasons : List Text
  pub actor : AuthenticatedActor
  pub trace_id : Text

-- `eventSnapshot`: what an audit entry keeps of an event.
pub record EventSnapshot : Type 0 where
  pub id : Text
  pub status : RoadEventStatus
  pub severity : Loose SeverityLevel
  pub version : ℕ
  pub occurred_at : Option ℕ

pub record AuditTimelineEntry : Type 0 where
  pub action : Text
  pub actor_type : Text
  pub actor_id : Option Text
  pub before_state : Option EventSnapshot
  pub after_state : Option EventSnapshot
  pub reason : Option Text
  pub trace_id : Text
  pub occurred_at : ℕ

pub record RoadEventReadModel : Type 0 where
  pub id : Text
  pub status : RoadEventStatus
  pub severity : SeverityAssessment
  pub latitude : Number
  pub longitude : Number
  pub occurred_at : Option ℕ
  pub version : ℕ
  pub closure_authorization : Option ClosureAuthorization

-- The getter of the authorization copies and checks it, so this can throw.
unfoldable pub to_road_event_read_model : ℕ → RoadEvent → Result RoadEventReadModel
to_road_event_read_model now event = do
  authorization ← closure_authorization_of now event
  ok (record {
    id = event.id;
    status = event.status;
    severity = event.severity;
    latitude = event.latitude;
    longitude = event.longitude;
    occurred_at = event.occurred_at;
    version = event.version;
    closure_authorization = authorization;
  })
