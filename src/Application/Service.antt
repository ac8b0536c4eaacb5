-- ===== src/Application/Service.antt =====
-- apps/api/src/application/road-event-application.ts: `RoadEventApplicationService`, over the adapters in
-- memory. `now` is the value of `Date.now()` during the call, `date_parse` the time value of `new Date`
-- of a text, `fingerprint` and `digest` the SHA-256 of a command and of a scope's material.
use ros_road_operating_syste.Prelude.{
  ℕ, Bool, not, ◌||◌, Option, none, some, List, [], ◌∷◌, ◌==◌, length, any, if◌then◌else◌,
}
use ros_road_operating_syste.Prelude.Text.{Text, units, trim}
use ros_road_operating_syste.Prelude.Number.{whole, out_of_range}
use ros_road_operating_syste.Prelude.Result.{
  Result, ok, err, not_found, concurrency, application_validation, throw_if,
}
use ros_road_operating_syste.RoadEvent.{
  RoadEvent, RoadEventProps, closed, same_status, new_road_event, transition_to, assess_severity,
  authorize_closure,
}
use ros_road_operating_syste.RoadEvent.Access.{
  RoadEventAccessScope, RoadEventWriteContext, RoadEventListQuery,
}
use ros_road_operating_syste.Application.Ports.{
  AuthenticatedActor, RoadEventPermission, RoadEventReadModel, AuditTimelineEntry,
  SignalAttachmentInput, to_road_event_read_model,
}
use ros_road_operating_syste.Application.Authorization.{assert_allowed}
use ros_road_operating_syste.Application.Memory.{
  create_event, update_event, find_by_id, list_events, list_for_road_event, attach,
}
use ros_road_operating_syste.Application.Monad.{
  Response, road_event, attached, M, pure, lift, on_repository, from_repository, on_signals, ◌>>=◌,
  ◌>>◌,
}
use ros_road_operating_syste.Application.Commands.{
  CommandContext, CreateRoadEventCommand, ReassessSeverityCommand, TransitionRoadEventCommand,
  AuthorizeClosureCommand, AttachSignalCommand, Command, create_command, reassess_command,
  transition_command, authorize_command, attach_command, ScopeMaterial, require_uuid, require_text,
  require_trace_id, validate_expected_version, access_scope, primary_role,
  derive_road_event_idempotency_scope,
}
use ros_road_operating_syste.Application.Idempotency.{execute_idempotently}

require_found : Option RoadEvent → Result RoadEvent
require_found none = err not_found
require_found (some event) = ok event

unfoldable pub parsed : Option ℕ → Result (Option ℕ)
parsed none = err application_validation
parsed (some time) = ok (some time)

-- `requireEvent`
unfoldable pub require_event : ℕ → Text → RoadEventAccessScope → M RoadEvent
unfolding require_found
require_event now id scope = do
  found ← from_repository (find_by_id now id scope)
  lift (require_found found)

-- The context of a write on an event that is there.
unfoldable pub write_context :
    ℕ
    → CommandContext
    → RoadEventAccessScope
    → Text
    → Text
    → Option Text
    → Text
    → Text
    → RoadEventWriteContext
write_context now context scope role action reason event_type correlation_id = record {
  scope = scope;
  actor_type = role;
  actor_id = some context.actor.actor_id;
  action = action;
  reason = reason;
  trace_id = context.trace_id;
  event_type = event_type;
  correlation_id = correlation_id;
  causation_id = none;
  occurred_at = some now;
}

unfoldable pub read_model : ℕ → RoadEvent → M Response
read_model now event = do model ← lift (to_road_event_read_model now event); pure (road_event model)

-- The body that the three updating commands share: the event is read, its version compared, changed,
-- and written with the version that the command expects.
unfoldable pub update_operation :
    ℕ
    → CommandContext
    → RoadEventAccessScope
    → Text
    → ℕ
    → Text
    → Text
    → Text
    → (RoadEvent → Result RoadEvent)
    → M Response
unfolding read_model
update_operation now context scope id expected_version reason action event_type change = do
  event ← require_event now id scope
  lift (throw_if (not (event.version == expected_version)) concurrency)
  changed ← lift (change event)
  role ← lift (primary_role context.actor)
  on_repository (
      update_event now changed expected_version
        (write_context now context scope role action (some reason) event_type id))
  read_model now changed

abbrev pub new_props : RoadEventAccessScope → Option ℕ → CreateRoadEventCommand → RoadEventProps
new_props scope occurred_at command = record {
  id = command.id;
  reporter_actor_id = scope.reporter_actor_id;
  occurred_at = occurred_at;
  latitude = command.latitude;
  longitude = command.longitude;
  status = none;
  severity = command.severity;
  version = none;
  closure_authorization = none;
}

abbrev pub attachment : AttachSignalCommand → CommandContext → SignalAttachmentInput
attachment command context = record {
  road_event_id = command.road_event_id;
  signal_id = command.signal_id;
  match_score = command.match_score;
  merge_reasons = command.merge_reasons;
  actor = context.actor;
  trace_id = context.trace_id;
}

unfoldable pub blank : Text → Bool
blank reason = length (trim reason) == 0

module _ (now : ℕ) (date_parse : Text → Option ℕ) (fingerprint : Command → Text)
    (digest : ScopeMaterial → Text) where
  unfoldable pub operation_scope : Text → AuthenticatedActor → Text
  unfolding derive_road_event_idempotency_scope
  operation_scope operation actor = derive_road_event_idempotency_scope digest operation actor

  unfoldable pub create : CreateRoadEventCommand → CommandContext → M Response
  unfolding parsed read_model
  create command context = do
    lift (assert_allowed context.actor RoadEventPermission.create)
    scope ← lift (access_scope context.actor)
    id ← lift (require_uuid command.id)
    trace_id ← lift (require_trace_id context.trace_id)
    occurred_at ← lift (parsed (date_parse command.occurred_at))
    event ← lift (new_road_event now (new_props scope occurred_at command))
    execute_idempotently (operation_scope (units "road_event:create") context.actor)
        context.idempotency_key (fingerprint (create_command command))
        (do
          role ← lift (primary_role context.actor)
          on_repository (
              create_event now event (
                write_context now context scope role (units "road_event.created") none
                  (units "RoadEventCreated") command.id))
          read_model now event)

  unfoldable pub reassess_severity : ReassessSeverityCommand → CommandContext → M Response
  reassess_severity command context = do
    lift (assert_allowed context.actor RoadEventPermission.reassess_severity)
    scope ← lift (access_scope context.actor)
    id ← lift (require_uuid command.road_event_id)
    lift (validate_expected_version command.expected_version)
    reason ← lift (require_text command.reason 500)
    execute_idempotently (operation_scope (units "road_event:reassess_severity") context.actor)
        context.idempotency_key (fingerprint (reassess_command command))
        (update_operation now context scope command.road_event_id command.expected_version reason
          (units "road_event.severity_reassessed") (units "RoadEventSeverityReassessed")
          (assess_severity command.assessment))

  unfoldable pub transition : TransitionRoadEventCommand → CommandContext → M Response
  transition command context =
      let closing = same_status command.next_status closed in
      do
        lift (
            assert_allowed context.actor
              (if closing then RoadEventPermission.close else RoadEventPermission.transition))
        scope ← lift (access_scope context.actor)
        id ← lift (require_uuid command.road_event_id)
        lift (validate_expected_version command.expected_version)
        reason ← lift (require_text command.reason 500)
        execute_idempotently (operation_scope (units "road_event:transition") context.actor)
            context.idempotency_key (fingerprint (transition_command command))
            (update_operation now context scope command.road_event_id command.expected_version
              reason
              (if closing then units "road_event.closed" else units "road_event.transitioned")
              (if closing then units "RoadEventClosed" else units "RoadEventTransitioned")
              (transition_to command.next_status))

  unfoldable pub authorize_event_closure : AuthorizeClosureCommand → CommandContext → M Response
  unfolding parsed
  authorize_event_closure command context = do
    lift (assert_allowed context.actor RoadEventPermission.authorize_closure)
    scope ← lift (access_scope context.actor)
    id ← lift (require_uuid command.road_event_id)
    lift (validate_expected_version command.expected_version)
    reason ← lift (require_text command.reason 500)
    authorized_at ← lift (parsed (date_parse command.authorized_at))
    execute_idempotently (operation_scope (units "road_event:authorize_closure") context.actor)
        context.idempotency_key (fingerprint (authorize_command command))
        (update_operation now context scope command.road_event_id command.expected_version reason
          (units "road_event.closure_authorized") (units "RoadEventClosureAuthorized")
          (authorize_closure now (record {
            actor_id = context.actor.actor_id;
            reason = reason;
            authorized_at = authorized_at;
          })))

  unfoldable pub attach_signal : AttachSignalCommand → CommandContext → M Response
  unfolding blank
  attach_signal command context = do
    lift (assert_allowed context.actor RoadEventPermission.attach_signal)
    scope ← lift (access_scope context.actor)
    id ← lift (require_uuid command.road_event_id)
    signal ← lift (require_uuid command.signal_id)
    lift (throw_if (out_of_range (whole 0) (whole 1) command.match_score) application_validation)
    lift (
        throw_if (length command.merge_reasons == 0 || any blank command.merge_reasons)
          application_validation)
    event ← require_event now command.road_event_id scope
    execute_idempotently (operation_scope (units "road_event:attach_signal") context.actor)
        context.idempotency_key (fingerprint (attach_command command))
        (do on_signals (attach now (attachment command context)); pure attached)

unfoldable pub get_by_id : ℕ → Text → AuthenticatedActor → M RoadEventReadModel
get_by_id now id actor = do
  lift (assert_allowed actor RoadEventPermission.read)
  scope ← lift (access_scope actor)
  uuid ← lift (require_uuid id)
  event ← require_event now uuid scope
  lift (to_road_event_read_model now event)

with_model :
    Result RoadEventReadModel → Result (List RoadEventReadModel) → Result (List RoadEventReadModel)
with_model (ok model) (ok rest) = ok (model ∷ rest)
with_model (ok model) (err e) = err e
with_model (err e) rest = err e

models : ℕ → List RoadEvent → Result (List RoadEventReadModel)
unfolding with_model
models now [] = ok []
models now (event ∷ events) = with_model (to_road_event_read_model now event) (models now events)

pub record RoadEventPageReadModel : Type 0 where
  pub items : List RoadEventReadModel
  pub total : ℕ
  pub limit : ℕ
  pub offset : ℕ

unfoldable pub list : ℕ → RoadEventListQuery → AuthenticatedActor → M RoadEventPageReadModel
unfolding models
list now query actor = do
  lift (assert_allowed actor RoadEventPermission.list)
  scope ← lift (access_scope actor)
  page ← from_repository (list_events now query scope)
  items ← lift (models now page.items)
  pure (record { items = items; total = page.total; limit = page.limit; offset = page.offset })

unfoldable pub timeline : ℕ → Text → AuthenticatedActor → M (List AuditTimelineEntry)
timeline now id actor = do
  lift (assert_allowed actor RoadEventPermission.audit_read)
  scope ← lift (access_scope actor)
  uuid ← lift (require_uuid id)
  event ← require_event now uuid scope
  from_repository (λ repository. ok (list_for_road_event id scope repository))
