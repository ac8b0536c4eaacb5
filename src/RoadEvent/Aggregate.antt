-- ===== src/RoadEvent/Aggregate.antt =====
-- packages/domain/src/road-event/road-event.ts
use ros_road_operating_syste.Prelude.{
  ℕ, ◌+◌, ◌*◌, ◌-◌, ◌^◌, Bool, true, false, not, ◌&&◌, ◌||◌, Option, none, some, [], ◌∷◌, ◌==◌, ltb,
  length, if◌then◌else◌, Loose, known, unknown,
}
use mathlib.Core.Option.{get_or}
use ros_road_operating_syste.Prelude.Text.{Text, units, trim}
use ros_road_operating_syste.Prelude.Number.{Number, whole, minus_whole, out_of_range}
use ros_road_operating_syste.Prelude.Result.{
  Result, ok, err, invalid_road_event, invalid_transition, closure_requires_human_authorization,
  throw_if, ◌>>=◌, ◌>>◌,
}
use ros_road_operating_syste.RoadEvent.Status.{
  RoadEventStatus, detected, closed, may_follow, same_status,
}
use ros_road_operating_syste.RoadEvent.Severity.{
  SeverityAssessment, informational, is_high_severity, freeze_severity_assessment,
}

abbrev pub max_clock_skew_milliseconds : ℕ
max_clock_skew_milliseconds = 5 * 60 * 1000

-- Number.MAX_SAFE_INTEGER
abbrev pub max_safe_integer : ℕ
max_safe_integer = 2 ^ 53 - 1

pub record ClosureAuthorization : Type 0 where
  pub actor_id : Text
  pub reason : Text
  pub authorized_at : Option ℕ

-- An optional property that may also be null is `none` for both; an omitted one is `none`.
pub record RoadEventProps : Type 0 where
  pub id : Text
  pub reporter_actor_id : Option Text
  pub occurred_at : Option ℕ
  pub latitude : Number
  pub longitude : Number
  pub status : Option (Loose RoadEventStatus)
  pub severity : Option SeverityAssessment
  pub version : Option ℕ
  pub closure_authorization : Option ClosureAuthorization

pub record RoadEvent : Type 0 where
  pub id : Text
  pub reporter_actor_id : Option Text
  pub occurred_at : Option ℕ
  pub latitude : Number
  pub longitude : Number
  pub status : RoadEventStatus
  pub severity : SeverityAssessment
  pub version : ℕ
  pub closure_authorization : Option ClosureAuthorization

unfoldable pub require_non_empty : Text → ℕ → Result Text
require_non_empty value maximum_length =
    let normalized = trim value in
    do
      throw_if (length normalized == 0 || ltb maximum_length (length normalized)) invalid_road_event
      ok normalized

-- `!Number.isFinite(time) || time > Date.now() + MAX_CLOCK_SKEW_MILLISECONDS`
unfoldable pub bad_time : ℕ → Option ℕ → Bool
bad_time now none = true
bad_time now (some time) = ltb (now + max_clock_skew_milliseconds) time

unfoldable pub copy_authorization : ℕ → ClosureAuthorization → Result ClosureAuthorization
unfolding require_non_empty bad_time
copy_authorization now authorization = do
  actor_id ← require_non_empty authorization.actor_id 128
  reason ← require_non_empty authorization.reason 500
  throw_if (bad_time now authorization.authorized_at) invalid_road_event
  ok (record { actor_id = actor_id; reason = reason; authorized_at = authorization.authorized_at })

unfoldable pub require_reporter : Option Text → Result (Option Text)
require_reporter none = ok none
require_reporter (some reporter) = do
  normalized ← require_non_empty reporter 128
  ok (some normalized)

unfoldable pub require_status : Loose RoadEventStatus → Result RoadEventStatus
require_status (known status) = ok status
require_status unknown = err invalid_road_event

unfoldable pub copy_optional_authorization :
    ℕ → Option ClosureAuthorization → Result (Option ClosureAuthorization)
copy_optional_authorization now none = ok none
copy_optional_authorization now (some authorization) = do
  copied ← copy_authorization now authorization
  ok (some copied)

abbrev pub initial_severity : SeverityAssessment
unfolding whole
initial_severity = record {
  level = known informational;
  score = whole 0;
  reason_codes = units "initial_detection" ∷ [];
  confidence = whole 0;
  requires_human_review = true;
}

-- The constructor.
unfoldable pub new_road_event : ℕ → RoadEventProps → Result RoadEvent
unfolding require_status bad_time
new_road_event now props = do
  id ← require_non_empty props.id 128
  reporter_actor_id ← require_reporter props.reporter_actor_id
  throw_if (bad_time now props.occurred_at) invalid_road_event
  throw_if (out_of_range (minus_whole 90) (whole 90) props.latitude) invalid_road_event
  throw_if (out_of_range (minus_whole 180) (whole 180) props.longitude) invalid_road_event
  status ← require_status (get_or props.status (known detected))
  let version = get_or props.version 1
  throw_if (ltb max_safe_integer version || ltb version 1) invalid_road_event
  severity ← freeze_severity_assessment (get_or props.severity initial_severity)
  closure_authorization ← copy_optional_authorization now props.closure_authorization
  ok (record {
    id = id;
    reporter_actor_id = reporter_actor_id;
    occurred_at = props.occurred_at;
    latitude = props.latitude;
    longitude = props.longitude;
    status = status;
    severity = severity;
    version = version;
    closure_authorization = closure_authorization;
  })

-- The getter `closureAuthorization`, which copies and so checks again.
unfoldable pub closure_authorization_of : ℕ → RoadEvent → Result (Option ClosureAuthorization)
closure_authorization_of now event = copy_optional_authorization now event.closure_authorization

unfoldable pub is_undefined {ℓ} : {A : Type ℓ} → Option A → Bool
is_undefined none = true
is_undefined (some x) = false

-- `version + 1` on a JavaScript number: exact up to 2 ^ 53, where it stays. No version is larger, since the constructor
-- takes at most Number.MAX_SAFE_INTEGER.
abbrev pub next_version : ℕ → ℕ
next_version version = if ltb max_safe_integer version then version else version + 1

unfoldable pub transition_to : RoadEventStatus → RoadEvent → Result RoadEvent
unfolding is_undefined
transition_to next event = do
  throw_if (not (may_follow event.status next)) invalid_transition
  throw_if
      (same_status next closed
        && is_high_severity event.severity.level
        && is_undefined event.closure_authorization)
      closure_requires_human_authorization
  ok (record event { status = next; version = next_version event.version })

unfoldable pub assess_severity : SeverityAssessment → RoadEvent → Result RoadEvent
assess_severity assessment event = do
  severity ← freeze_severity_assessment assessment
  ok (record event {
    severity = severity;
    closure_authorization = none;
    version = next_version event.version;
  })

unfoldable pub authorize_closure : ℕ → ClosureAuthorization → RoadEvent → Result RoadEvent
authorize_closure now authorization event = do
  throw_if (not (may_follow event.status closed)) invalid_transition
  copied ← copy_authorization now authorization
  ok (record event { closure_authorization = some copied; version = next_version event.version })
