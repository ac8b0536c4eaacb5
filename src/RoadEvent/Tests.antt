-- ===== src/RoadEvent/Tests.antt =====
-- Runs of the aggregate `RoadEvent`, and the theorems about it at concrete events.
use ros_road_operating_syste.Prelude.{
  ◌+◌, min, true, false, none, some, [], ◌∷◌, known, ◌≡◌, ◌↔◌, refl, arith,
}
use ros_road_operating_syste.Prelude.Text.{units, trim}
use ros_road_operating_syste.Prelude.Number.{whole, minus_whole, out_of_range}
use ros_road_operating_syste.Prelude.Result.{
  ok, err, invalid_transition, invalid_road_event, closure_requires_human_authorization,
}
use ros_road_operating_syste.RoadEvent.Status.{detected, validating, recovery, closed, may_follow}
use ros_road_operating_syste.RoadEvent.Severity.{
  SeverityAssessment, critical, is_high_severity, validate_severity_assessment,
  freeze_severity_assessment,
}
use ros_road_operating_syste.RoadEvent.Aggregate.{
  RoadEventProps, RoadEvent, ClosureAuthorization, initial_severity, new_road_event, transition_to,
  assess_severity, authorize_closure, next_version, max_safe_integer, require_non_empty,
  copy_authorization, require_reporter, copy_optional_authorization,
}
use ros_road_operating_syste.RoadEvent.Validity.{IsValid, IsAssessment}
use ros_road_operating_syste.RoadEvent.Operations.{
  new_road_event-IsValid, assess_severity_iff, LacksAuthorization, transition_to_iff, props_of,
  new_road_event-props_of,
}
use ros_road_operating_syste.RoadEvent.Authorizing.{IsAcceptable, trimmed, authorize_closure_iff}
use ros_road_operating_syste.RoadEvent.Closure.{
  History, transition, assess, authorize, here, then, Granted, closed_needs_grant, version-History,
  is_confirmed, History-terminal, History-confirmed, closed_reachable,
}

abbrev crash_props : RoadEventProps
crash_props = record {
  id = units "event-1";
  reporter_actor_id = none;
  occurred_at = some 1000;
  latitude = whole 24;
  longitude = whole 46;
  status = none;
  severity = none;
  version = none;
  closure_authorization = none;
}

abbrev crash : RoadEvent
crash = record {
  id = units "event-1";
  reporter_actor_id = none;
  occurred_at = some 1000;
  latitude = whole 24;
  longitude = whole 46;
  status = detected;
  severity = initial_severity;
  version = 1;
  closure_authorization = none;
}

crash_built : new_road_event 2000 crash_props ≡ ok crash
unfolding new_road_event require_non_empty trim require_reporter out_of_range whole minus_whole
    freeze_severity_assessment validate_severity_assessment copy_optional_authorization
crash_built = refl

crash-IsValid : IsValid 2000 crash
crash-IsValid = new_road_event-IsValid 2000 crash_props crash crash_built

abbrev fatal : SeverityAssessment
fatal = record {
  level = known critical;
  score = whole 90;
  reason_codes = units "impact" ∷ [];
  confidence = whole 1;
  requires_human_review = true;
}

abbrev severe : RoadEvent
severe = record crash { status = recovery; severity = fatal; version = 7 }

abbrev consent : ClosureAuthorization
consent = record {
  actor_id = units "lead";
  reason = units "scene is clear";
  authorized_at = some 1500;
}

severe_stays_open : transition_to closed severe ≡ err closure_requires_human_authorization
unfolding transition_to may_follow is_high_severity
severe_stays_open = refl

no_way_back : transition_to detected severe ≡ err invalid_transition
unfolding transition_to may_follow
no_way_back = refl

new_road_event-IsValid_example : IsValid 2000 crash
new_road_event-IsValid_example = new_road_event-IsValid 2000 crash_props crash crash_built

transition_to_iff_example :
    ((transition_to closed severe ≡ ok (record severe { status = closed; version = 7 + 1 })) ↔ (
      (may_follow severe.status closed ≡ true)
      × ¬ LacksAuthorization closed severe
      × (record severe { status = closed; version = 7 + 1 }
          ≡ record severe { status = closed; version = next_version severe.version })))
    × ((transition_to closed severe ≡ err invalid_transition)
        ↔ (may_follow severe.status closed ≡ false))
    × ((transition_to closed severe ≡ err closure_requires_human_authorization)
        ↔ ((may_follow severe.status closed ≡ true) × LacksAuthorization closed severe))
transition_to_iff_example =
    transition_to_iff closed severe (record severe { status = closed; version = 7 + 1 })

abbrev validated : RoadEvent
validated = record crash { status = validating; version = 2 }

validated_step : transition_to validating crash ≡ ok validated
unfolding transition_to may_follow
validated_step = refl

new_road_event-props_of_example : new_road_event 3000 (props_of crash) ≡ ok crash
new_road_event-props_of_example =
    new_road_event-props_of 2000 3000 crash crash-IsValid (omega arith) (omega arith)

abbrev granted : RoadEvent
granted = record severe { closure_authorization = some consent; version = 8 }

abbrev shut : RoadEvent
shut = record granted { status = closed; version = 9 }

is_fatal : is_high_severity granted.severity.level ≡ true
unfolding is_high_severity
is_fatal = refl

granting : authorize_closure 2000 consent severe ≡ ok granted
unfolding authorize_closure may_follow copy_authorization trim
granting = refl

shutting : transition_to closed granted ≡ ok shut
unfolding transition_to may_follow is_high_severity
shutting = refl

closed_needs_grant_example : Granted {start = severe} (then here (authorize 2000 consent granting))
closed_needs_grant_example =
    closed_needs_grant (then here (authorize 2000 consent granting)) refl is_fatal shutting

version-History_example : shut.version ≡ min (severe.version + 2) (max_safe_integer + 1)
version-History_example =
    version-History
      (then (then here (authorize 2000 consent granting)) (transition closed shutting))
      (omega arith)

-- The version of an event that is already at 2 ^ 53 stays there.
version_stays : next_version (max_safe_integer + 1) ≡ max_safe_integer + 1
version_stays = refl

authorize_closure_iff_example :
    ((authorize_closure 2000 consent severe ≡ ok granted) ↔ (
      (may_follow severe.status closed ≡ true)
      × IsAcceptable 2000 consent
      × (granted ≡ record severe {
        closure_authorization = some (trimmed consent);
        version = next_version severe.version;
      })))
    × ((authorize_closure 2000 consent severe ≡ err invalid_transition)
        ↔ (may_follow severe.status closed ≡ false))
    × ((authorize_closure 2000 consent severe ≡ err invalid_road_event)
        ↔ ((may_follow severe.status closed ≡ true) × ¬ IsAcceptable 2000 consent))
authorize_closure_iff_example = authorize_closure_iff 2000 consent severe granted

History-confirmed_example : is_confirmed shut.status ≡ true
History-confirmed_example =
    History-confirmed
      (then (then here (authorize 2000 consent granting)) (transition closed shutting)) refl

abbrev regraded : RoadEvent
regraded = record shut { closure_authorization = none; version = 10 }

regrading : assess_severity fatal shut ≡ ok regraded
unfolding assess_severity freeze_severity_assessment validate_severity_assessment trim
regrading = refl

History-terminal_example : regraded.status ≡ closed
History-terminal_example = History-terminal (then here (assess fatal regrading)) refl

assess_severity_iff_example : (assess_severity fatal shut ≡ ok regraded) ↔ (
    IsAssessment fatal
    × (regraded ≡ record shut {
      severity = fatal;
      closure_authorization = none;
      version = next_version shut.version;
    }))
assess_severity_iff_example = assess_severity_iff fatal shut regraded

closed_reachable_example : (e' : RoadEvent) × History granted e' × (e'.status ≡ closed)
closed_reachable_example =
    closed_reachable granted (λ e. ground arith) (λ e. ground arith) (λ e. ground arith)
