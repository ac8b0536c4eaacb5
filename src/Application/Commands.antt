-- ===== src/Application/Commands.antt =====
-- apps/api/src/application/road-event-application.ts: the commands, their checks, and the scopes derived
-- from an actor.
use ros_road_operating_syste.Prelude.{
  ℕ, zero, suc, Bool, true, false, not, ◌&&◌, ◌||◌, Option, none, some, List, [], ◌∷◌, ◌++◌, leb,
  ltb, ◌==◌, length, any, if◌then◌else◌,
}
use ros_road_operating_syste.Prelude.Text.{Text, units, trim, matches_id}
use ros_road_operating_syste.Prelude.Number.{Number}
use ros_road_operating_syste.Prelude.Result.{
  Result, ok, err, application_validation, throw_if, ◌>>=◌, ◌>>◌,
}
use ros_road_operating_syste.RoadEvent.{RoadEventStatus, SeverityAssessment, max_safe_integer}
use ros_road_operating_syste.RoadEvent.Access.{RoadEventAccessScope}
use ros_road_operating_syste.Application.Ports.{
  RosRole, field_user, operator, supervisor, auditor, integration_service, AuthenticatedActor,
  includes_role, same_role, role_rank,
}

pub record CommandContext : Type 0 where
  pub actor : AuthenticatedActor
  pub trace_id : Text
  pub idempotency_key : Text

pub record CreateRoadEventCommand : Type 0 where
  pub id : Text
  pub occurred_at : Text
  pub latitude : Number
  pub longitude : Number
  pub severity : Option SeverityAssessment

pub record ReassessSeverityCommand : Type 0 where
  pub road_event_id : Text
  pub expected_version : ℕ
  pub assessment : SeverityAssessment
  pub reason : Text

pub record TransitionRoadEventCommand : Type 0 where
  pub road_event_id : Text
  pub expected_version : ℕ
  pub next_status : RoadEventStatus
  pub reason : Text

pub record AuthorizeClosureCommand : Type 0 where
  pub road_event_id : Text
  pub expected_version : ℕ
  pub reason : Text
  pub authorized_at : Text

pub record AttachSignalCommand : Type 0 where
  pub road_event_id : Text
  pub signal_id : Text
  pub match_score : Number
  pub merge_reasons : List Text

-- What is fingerprinted: the command of any of the five operations.
pub data Command : Type 0 where
  create_command : CreateRoadEventCommand → Command
  reassess_command : ReassessSeverityCommand → Command
  transition_command : TransitionRoadEventCommand → Command
  authorize_command : AuthorizeClosureCommand → Command
  attach_command : AttachSignalCommand → Command

is_hex : ℕ → Bool
is_hex c = leb b'0' c && leb c b'9' || leb b'a' c && leb c b'f' || leb b'A' c && leb c b'F'

is_dash : ℕ → Bool
is_dash c = c == b'-'

is_version : ℕ → Bool
is_version c = leb b'1' c && leb c b'5'

is_variant : ℕ → Bool
is_variant c = c == b'8' || c == b'9' || c == b'a' || c == b'b' || c == b'A' || c == b'B'

-- Eats `n` hexadecimal digits, then goes on.
hex_then : ℕ → (Text → Bool) → Text → Bool
hex_then zero rest t = rest t
hex_then (suc n) rest [] = false
hex_then (suc n) rest (c ∷ t) = is_hex c && hex_then n rest t

one_then : (ℕ → Bool) → (Text → Bool) → Text → Bool
one_then p rest [] = false
one_then p rest (c ∷ t) = p c && rest t

at_end : Text → Bool
at_end [] = true
at_end (c ∷ t) = false

-- UUID_PATTERN
unfoldable pub is_uuid : Text → Bool
unfolding is_hex is_dash is_version is_variant hex_then one_then at_end
is_uuid = hex_then 8 (
    one_then is_dash (
      hex_then 4 (
        one_then is_dash (
          one_then is_version (
            hex_then 3 (
              one_then is_dash
                (one_then is_variant (hex_then 3 (one_then is_dash (hex_then 12 at_end))))))))))

unfoldable pub require_uuid : Text → Result Text
require_uuid value = do throw_if (not (is_uuid value)) application_validation; ok value

unfoldable pub require_text : Text → ℕ → Result Text
require_text value maximum_length =
    let normalized = trim value in
    do
      throw_if (length normalized == 0 || ltb maximum_length (length normalized))
          application_validation
      ok normalized

-- ACCESS_SCOPE_PATTERN
unfoldable pub require_access_scope_value : Text → Result Text
require_access_scope_value value =
    let normalized = trim value in
    do throw_if (not (matches_id 0 127 normalized)) application_validation; ok normalized

unfoldable pub require_trace_id : Text → Result Text
unfolding require_text
require_trace_id value = require_text value 64

-- IDEMPOTENCY_KEY_PATTERN
unfoldable pub require_idempotency_key : Text → Result Text
require_idempotency_key value = do
  throw_if (not (matches_id 7 127 value)) application_validation
  ok value

unfoldable pub validate_expected_version : ℕ → Result (Unit {0})
validate_expected_version version =
    throw_if (ltb max_safe_integer version || ltb version 1) application_validation

-- A role that sees more than its own events.
is_wide_role : RosRole → Bool
is_wide_role operator = true
is_wide_role supervisor = true
is_wide_role integration_service = true
is_wide_role _ = false

unfoldable pub field_user_only : List RosRole → Bool
unfolding is_wide_role
field_user_only roles = includes_role roles field_user && not (any is_wide_role roles)

own_events : Bool → Text → Result (Option Text)
own_events true actor_id = do id ← require_uuid actor_id; ok (some id)
own_events false actor_id = ok none

unfoldable pub access_scope : AuthenticatedActor → Result RoadEventAccessScope
unfolding own_events
access_scope actor = do
  tenant_id ← require_access_scope_value actor.tenant_id
  purpose ← require_access_scope_value actor.purpose
  reporter_actor_id ← own_events (field_user_only actor.roles) actor.actor_id
  ok (record { tenant_id = tenant_id; purpose = purpose; reporter_actor_id = reporter_actor_id })

first_role : List RosRole → List RosRole → Option RosRole
first_role [] roles = none
first_role (candidate ∷ candidates) roles =
    if includes_role roles candidate then some candidate else first_role candidates roles

role_text : RosRole → Text
role_text field_user = units "FIELD_USER"
role_text operator = units "OPERATOR"
role_text supervisor = units "SUPERVISOR"
role_text auditor = units "AUDITOR"
role_text integration_service = units "INTEGRATION_SERVICE"

found_role : Option RosRole → Result Text
unfolding role_text
found_role none = err application_validation
found_role (some role) = ok (role_text role)

unfoldable pub primary_role : AuthenticatedActor → Result Text
unfolding first_role found_role
primary_role actor = do
  id ← require_uuid actor.actor_id
  found_role (
      first_role (supervisor ∷ operator ∷ integration_service ∷ field_user ∷ auditor ∷ [])
        actor.roles)

-- `[...new Set(roles)]`: the first of each role stays.
without_role : RosRole → List RosRole → List RosRole
without_role role [] = []
without_role role (other ∷ roles) =
    let rest = without_role role roles in if same_role role other then rest else other ∷ rest

unique_roles : List RosRole → List RosRole
unique_roles [] = []
unique_roles (role ∷ roles) = role ∷ without_role role (unique_roles roles)

insert_role : RosRole → List RosRole → List RosRole
insert_role role [] = role ∷ []
insert_role role (other ∷ roles) =
    if ltb (role_rank other) (role_rank role)
    then other ∷ insert_role role roles
    else role ∷ other ∷ roles

sort_roles : List RosRole → List RosRole
sort_roles [] = []
sort_roles (role ∷ roles) = insert_role role (sort_roles roles)

-- `[...new Set(actor.roles)].sort()`, by the order of the roles' names.
unfoldable pub canonical_roles : List RosRole → List RosRole
unfolding without_role unique_roles insert_role sort_roles role_rank
canonical_roles roles = sort_roles (unique_roles roles)

-- What `deriveRoadEventIdempotencyScope` hashes, before JSON.stringify.
pub record ScopeMaterial : Type 0 where
  pub domain : Text
  pub operation : Text
  pub tenant_id : Text
  pub purpose : Text
  pub actor_id : Text
  pub roles : List RosRole

-- `digest` is the hexadecimal SHA-256 of the JSON text.
unfoldable pub derive_road_event_idempotency_scope :
    (ScopeMaterial → Text) → Text → AuthenticatedActor → Text
derive_road_event_idempotency_scope digest operation actor =
    units "road-event:"
    ++ digest (record {
      domain = units "ros-road-event-idempotency/v1";
      operation = operation;
      tenant_id = actor.tenant_id;
      purpose = actor.purpose;
      actor_id = actor.actor_id;
      roles = canonical_roles actor.roles;
    })
