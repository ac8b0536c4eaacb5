-- ===== src/RoadEvent/Access.antt =====
-- packages/domain/src/road-event/road-event-repository.ts: what a repository is called with.
use ros_road_operating_syste.Prelude.{ℕ, Option, List, Loose}
use ros_road_operating_syste.Prelude.Text.{Text}
use ros_road_operating_syste.RoadEvent.Status.{RoadEventStatus}
use ros_road_operating_syste.RoadEvent.Severity.{SeverityLevel}
use ros_road_operating_syste.RoadEvent.Aggregate.{RoadEvent}

pub record RoadEventAccessScope : Type 0 where
  pub tenant_id : Text
  pub purpose : Text
  pub reporter_actor_id : Option Text

-- The scope is a field here. The event type, the correlation and the causation are for repositories
-- that write an outbox; the one in memory does not read them.
pub record RoadEventWriteContext : Type 0 where
  pub scope : RoadEventAccessScope
  pub actor_type : Text
  pub actor_id : Option Text
  pub action : Text
  pub reason : Option Text
  pub trace_id : Text
  pub event_type : Text
  pub correlation_id : Text
  pub causation_id : Option Text
  pub occurred_at : Option ℕ

pub record RoadEventListQuery : Type 0 where
  pub statuses : Option (List RoadEventStatus)
  pub severities : Option (List (Loose SeverityLevel))
  pub occurred_from : Option ℕ
  pub occurred_to : Option ℕ
  pub limit : ℕ
  pub offset : ℕ

pub record RoadEventPage : Type 0 where
  pub items : List RoadEvent
  pub total : ℕ
  pub limit : ℕ
  pub offset : ℕ
