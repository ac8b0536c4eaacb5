-- ===== src/RoadEvent/Operations.antt =====
-- The constructor and the methods of road-event.ts on well-formed events, and the branches of `transitionTo` and of
-- `assessSeverity`.
use ros_road_operating_syste.Prelude.{
  ℕ, ◌≤◌, true, false, ◌&&◌, ◌||◌, ltb, none, some, known, ◌≡◌, ◌↔◌, arith, subst,
}
use mathlib.Core.Option.{get_or}
use ros_road_operating_syste.Prelude.Result.{
  ok, err, invalid_transition, closure_requires_human_authorization, >>=-eq-ok,
}
use ros_road_operating_syste.RoadEvent.Status.{
  RoadEventStatus, closed, may_follow, same_status, same_status_iff,
}
use ros_road_operating_syste.RoadEvent.Severity.{
  SeverityAssessment, is_high_severity, freeze_severity_assessment, validate_severity_assessment,
}
use ros_road_operating_syste.RoadEvent.Aggregate.{
  RoadEvent, RoadEventProps, next_version, ClosureAuthorization, initial_severity, max_safe_integer,
  new_road_event, transition_to, assess_severity, authorize_closure, is_undefined,
}
use ros_road_operating_syste.RoadEvent.Validity.{
  IsAssessment, IsValid, require_non_empty-IsName, require_reporter-IsName,
  copy_authorization-IsAuthorization, copy-Optional-IsAuthorization, copy-Optional_fixed,
  validate-IsAssessment, require_non_empty_fixed, require_reporter_fixed, bad_time_of_IsPast,
  freeze_of_IsAssessment, Optional-IsAuthorization-le,
}

freeze-IsAssessment :
    (a b : SeverityAssessment) → freeze_severity_assessment a ≡ ok b → IsAssessment b × (a ≡ b)
unfolding freeze_severity_assessment
freeze-IsAssessment a b h =
    let (u, valid, same) = >>=-eq-ok (validate_severity_assessment a) (λ _. ok a) h in
    let e : a ≡ b = cc in (subst IsAssessment e (validate-IsAssessment a valid), e)

-- An event that the constructor returns is well formed at the time of the call.
pub new_road_event-IsValid :
    (now : ℕ) (props : RoadEventProps) (e : RoadEvent)
    → new_road_event now props ≡ ok e
    → IsValid now e
unfolding new_road_event
new_road_event-IsValid now props e h = record {
  id = require_non_empty-IsName props.id 128 e.id (ground arith);
  reporter = require_reporter-IsName props.reporter_actor_id e.reporter_actor_id (ground arith);
  occurred_at = ground arith;
  latitude = ground arith;
  longitude = ground arith;
  severity =
      (freeze-IsAssessment (get_or props.severity initial_severity) e.severity (ground arith)).0;
  version = ground arith;
  authorization =
      copy-Optional-IsAuthorization now props.closure_authorization e.closure_authorization
        (ground arith);
}

-- `transition_to` keeps the event well formed.
pub transition_to-IsValid :
    (now : ℕ) (next : RoadEventStatus) (e e' : RoadEvent)
    → IsValid now e
    → transition_to next e ≡ ok e'
    → IsValid now e'
unfolding transition_to
transition_to-IsValid now next e e' v h = ground arith

pub assess_severity-IsValid :
    (now : ℕ) (a : SeverityAssessment) (e e' : RoadEvent)
    → IsValid now e
    → assess_severity a e ≡ ok e'
    → IsValid now e'
unfolding assess_severity
assess_severity-IsValid now a e e' v h = ground (arith, freeze-IsAssessment a e'.severity)

pub authorize_closure-IsValid :
    (now : ℕ) (a : ClosureAuthorization) (e e' : RoadEvent)
    → IsValid now e
    → authorize_closure now a e ≡ ok e'
    → IsValid now e'
unfolding authorize_closure
authorize_closure-IsValid now a e e' v h =
    ground (arith, copy_authorization-IsAuthorization now a (get_or e'.closure_authorization a))

-- What a closing event lacks: it is of severity S3 or S4 and has no closure authorization.
abbrev pub LacksAuthorization : RoadEventStatus → RoadEvent → Type 0
LacksAuthorization next e =
    (next ≡ closed) × (is_high_severity e.severity.level ≡ true) × (e.closure_authorization ≡ none)

-- The closing test of `transition_to` decides `LacksAuthorization`.
lacks_iff :
    (next : RoadEventStatus) (e : RoadEvent)
    → ((same_status next closed
          && is_high_severity e.severity.level
          && is_undefined e.closure_authorization)
        ≡ true)
      ↔ LacksAuthorization next e
unfolding is_undefined
lacks_iff next e = (
  λ h. ground (arith, same_status_iff next closed),
  λ h. ground (arith, same_status_iff next closed),
)

-- A transition succeeds exactly if the table allows it and it closes no event of severity S3 or S4
-- without a closure authorization; it then changes the status, raises the version and keeps all
-- else. It throws the transition error exactly if the table does not allow it, and the authorization
-- error exactly if the table does and the closing authorization lacks.
pub transition_to_iff :
    (next : RoadEventStatus) (e e' : RoadEvent)
    → ((transition_to next e ≡ ok e') ↔ (
        (may_follow e.status next ≡ true)
        × ¬ LacksAuthorization next e
        × (e' ≡ record e { status = next; version = next_version e.version })))
      × ((transition_to next e ≡ err invalid_transition) ↔ (may_follow e.status next ≡ false))
      × ((transition_to next e ≡ err closure_requires_human_authorization)
          ↔ ((may_follow e.status next ≡ true) × LacksAuthorization next e))
unfolding transition_to
transition_to_iff next e e' =
    let (to, from) = lacks_iff next e in
    (
      (
        λ h. (ground arith, λ l. ground (arith, from l), ground arith),
        λ (m, n, s). ground (arith, to),
      ),
      (λ h. ground arith, λ h. ground arith),
      (λ h. (ground arith, to (ground arith)), λ (m, l). ground (arith, from l)),
    )

-- A severity is assessed exactly if the assessment is well formed: the event then has it, has no
-- closure authorization and a raised version, and all else is kept.
pub assess_severity_iff :
    (a : SeverityAssessment) (e e' : RoadEvent)
    → (assess_severity a e ≡ ok e') ↔ (
        IsAssessment a
        × (e' ≡ record e {
          severity = a;
          closure_authorization = none;
          version = next_version e.version;
        }))
unfolding assess_severity
assess_severity_iff a e e' = (
  λ h.
      let (b, p, q) = >>=-eq-ok (freeze_severity_assessment a) _ h in
      let (v, same) = freeze-IsAssessment a b p in (rw same v, ground arith),
  λ (v, s). rw (freeze_of_IsAssessment a v) (ground arith),
)

-- What the constructor would be given to build an event again.
abbrev pub props_of : RoadEvent → RoadEventProps
props_of e = record {
  id = e.id;
  reporter_actor_id = e.reporter_actor_id;
  occurred_at = e.occurred_at;
  latitude = e.latitude;
  longitude = e.longitude;
  status = some (known e.status);
  severity = some e.severity;
  version = some e.version;
  closure_authorization = e.closure_authorization;
}

version_test : (n : ℕ) → 1 ≤ n → n ≤ max_safe_integer → (ltb max_safe_integer n || ltb n 1) ≡ false
version_test n h k = ground arith

-- A well-formed event whose version is a safe integer survives being built again: the constructor, given
-- the event's own properties at the same or any later time, returns that event.
pub new_road_event-props_of :
    (now later : ℕ) (e : RoadEvent)
    → IsValid now e
    → now ≤ later
    → e.version ≤ max_safe_integer
    → new_road_event later (props_of e) ≡ ok e
unfolding new_road_event
new_road_event-props_of now later e v le safe = simp (
  require_non_empty_fixed e.id 128 v.id,
  require_reporter_fixed e.reporter_actor_id v.reporter,
  bad_time_of_IsPast now later e.occurred_at v.occurred_at le,
  v.latitude,
  v.longitude,
  version_test e.version v.version safe,
  freeze_of_IsAssessment e.severity v.severity,
  copy-Optional_fixed later e.closure_authorization
      (Optional-IsAuthorization-le now later e.closure_authorization v.authorization le),
)
