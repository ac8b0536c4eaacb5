-- ===== src/Application/Tests.antt =====
-- Runs of the application over the adapters in memory, and the theorems about it at concrete commands.
use ros_road_operating_syste.Prelude.{
  ℕ, ◌+◌, Bool, true, false, Option, none, some, List, [], ◌∷◌, ◌≡◌, ◌≢◌, refl, arith, any,
}
use ros_road_operating_syste.Prelude.Text.{Text, units}
use ros_road_operating_syste.Prelude.Number.{whole}
use ros_road_operating_syste.Prelude.Dict.{lookup, member}
use ros_road_operating_syste.Prelude.Result.{ok, err, idempotency_conflict, authorization_denied}
use ros_road_operating_syste.RoadEvent.{RoadEvent, detected, initial_severity}
use ros_road_operating_syste.RoadEvent.Access.{RoadEventAccessScope}
use ros_road_operating_syste.Application.Ports.{
  RosRole, operator, AuthenticatedActor, RoadEventPermission, IdempotencyRecord, RoadEventReadModel,
  to_road_event_read_model,
}
use ros_road_operating_syste.Application.Authorization.{grants}
use ros_road_operating_syste.Application.Memory.{MemoryRepository, MemorySignals}
use ros_road_operating_syste.Application.Monad.{
  Response, road_event, attached, World, M, pure, lift,
}
use ros_road_operating_syste.Application.Commands.{
  CommandContext, CreateRoadEventCommand, Command, create_command, ScopeMaterial,
  require_idempotency_key,
}
use ros_road_operating_syste.Application.Idempotency.{composite_key, execute_idempotently}
use ros_road_operating_syste.Application.Service.{get_by_id}
use ros_road_operating_syste.Application.Replay.{LeavesRecords, execute_conflict, execute_failed}
use ros_road_operating_syste.Application.Ledger.{IsConsistent}
use ros_road_operating_syste.Application.Journal.{handle, serve, serve-IsConsistent}
use ros_road_operating_syste.Application.Ownership.{MaySee, get_by_id-MaySee}
use ros_road_operating_syste.Application.Resend.{is_attachment, handle_resent}

abbrev event_id : Text
event_id = units "11111111-1111-4111-8111-111111111111"

abbrev dispatcher : AuthenticatedActor
dispatcher = record {
  tenant_id = units "tenant-1";
  purpose = units "road-safety";
  reporter_actor_id = none;
  actor_id = units "22222222-2222-4222-8222-222222222222";
  roles = operator ∷ [];
}

abbrev context : CommandContext
context = record {
  actor = dispatcher;
  trace_id = units "trace-1";
  idempotency_key = units "create-0001";
}

abbrev report : CreateRoadEventCommand
report = record {
  id = event_id;
  occurred_at = units "1970-01-01T00:00:01Z";
  latitude = whole 24;
  longitude = whole 46;
  severity = none;
}

abbrev other_report : CreateRoadEventCommand
other_report = record report { id = units "33333333-3333-4333-8333-333333333333" }

abbrev other_context : CommandContext
other_context = record context { idempotency_key = units "create-0002" }

abbrev date_parse : Text → Option ℕ
date_parse t = some 1000

abbrev fingerprint : Command → Text
fingerprint c = units "print"

abbrev digest : ScopeMaterial → Text
digest m = units "scope"

abbrev empty_world : World
empty_world = record {
  repository = record { events = []; scopes = []; audit = [] };
  records = [];
  in_flight = [];
  signals = record { attachments = []; keys = [] };
}

abbrev created : World
created = (handle date_parse fingerprint digest 2000 (create_command report) context empty_world).1

abbrev model : RoadEventReadModel
model = record {
  id = event_id;
  status = detected;
  severity = initial_severity;
  latitude = whole 24;
  longitude = whole 46;
  occurred_at = some 1000;
  version = 1;
  closure_authorization = none;
}

creating :
    handle date_parse fingerprint digest 2000 (create_command report) context empty_world
    ≡ (ok (road_event model), created)
unfolding handle ros_road_operating_syste.Application.Service.create
    ros_road_operating_syste.Application.Authorization.assert_allowed
    ros_road_operating_syste.Application.Commands.access_scope
    ros_road_operating_syste.Application.Commands.require_access_scope_value
    ros_road_operating_syste.Prelude.Text.matches_id ros_road_operating_syste.Prelude.Text.trim
    ros_road_operating_syste.Application.Commands.field_user_only
    ros_road_operating_syste.Application.Ports.includes_role
    ros_road_operating_syste.Application.Ports.same_role
    ros_road_operating_syste.Application.Commands.require_uuid
    ros_road_operating_syste.Application.Commands.is_uuid
    ros_road_operating_syste.Application.Commands.require_trace_id
    ros_road_operating_syste.RoadEvent.new_road_event
    ros_road_operating_syste.RoadEvent.require_non_empty
    ros_road_operating_syste.RoadEvent.require_reporter
    ros_road_operating_syste.Prelude.Number.out_of_range whole grants
    ros_road_operating_syste.Application.Authorization.role_permissions
    ros_road_operating_syste.Application.Commands.canonical_roles
    ros_road_operating_syste.Application.Commands.derive_road_event_idempotency_scope
    ros_road_operating_syste.Application.Commands.primary_role require_idempotency_key
    ros_road_operating_syste.Application.Commands.require_text
    ros_road_operating_syste.Application.Commands.validate_expected_version composite_key
    ros_road_operating_syste.Application.Idempotency.execute_exclusively execute_idempotently
    ros_road_operating_syste.Application.Memory.append_audit
    ros_road_operating_syste.Application.Memory.attach
    ros_road_operating_syste.Application.Memory.attachment_key
    ros_road_operating_syste.Application.Memory.clone_event
    ros_road_operating_syste.Application.Memory.create_event
    ros_road_operating_syste.Application.Memory.event_snapshot
    ros_road_operating_syste.Application.Memory.find_by_id
    ros_road_operating_syste.Application.Memory.same_optional
    ros_road_operating_syste.Application.Memory.same_scope
    ros_road_operating_syste.Application.Memory.update_event
    ros_road_operating_syste.Application.Memory.visible
    ros_road_operating_syste.Application.Ports.role_rank to_road_event_read_model
    ros_road_operating_syste.Application.Service.attach_signal
    ros_road_operating_syste.Application.Service.authorize_event_closure
    ros_road_operating_syste.Application.Service.blank
    ros_road_operating_syste.Application.Service.operation_scope
    ros_road_operating_syste.Application.Service.parsed
    ros_road_operating_syste.Application.Service.read_model
    ros_road_operating_syste.Application.Service.reassess_severity
    ros_road_operating_syste.Application.Service.require_event
    ros_road_operating_syste.Application.Service.transition
    ros_road_operating_syste.Application.Service.update_operation
    ros_road_operating_syste.Application.Service.write_context
    ros_road_operating_syste.Prelude.Dict.insert lookup member
    ros_road_operating_syste.Prelude.Dict.remove ros_road_operating_syste.Prelude.Number.is_finite
    ros_road_operating_syste.Prelude.Number.minus_whole
    ros_road_operating_syste.Prelude.Number.number_lt
    ros_road_operating_syste.Prelude.Text.is_id_char ros_road_operating_syste.Prelude.Text.is_space
    ros_road_operating_syste.Prelude.Text.text_eq ros_road_operating_syste.RoadEvent.assess_severity
    ros_road_operating_syste.RoadEvent.authorize_closure ros_road_operating_syste.RoadEvent.bad_time
    ros_road_operating_syste.RoadEvent.closure_authorization_of
    ros_road_operating_syste.RoadEvent.copy_authorization
    ros_road_operating_syste.RoadEvent.copy_optional_authorization
    ros_road_operating_syste.RoadEvent.is_undefined
    ros_road_operating_syste.RoadEvent.require_status
    ros_road_operating_syste.RoadEvent.transition_to
    ros_road_operating_syste.RoadEvent.bad_reason_code
    ros_road_operating_syste.RoadEvent.freeze_severity_assessment
    ros_road_operating_syste.RoadEvent.is_high_severity ros_road_operating_syste.RoadEvent.is_level
    ros_road_operating_syste.RoadEvent.validate_severity_assessment
    ros_road_operating_syste.RoadEvent.allowed_transitions
    ros_road_operating_syste.RoadEvent.may_follow ros_road_operating_syste.RoadEvent.same_status
creating = refl

not_attachment : is_attachment (create_command report) ≡ false
unfolding is_attachment
not_attachment = refl

handle_resent_example :
    let (time, later) =
      serve date_parse fingerprint digest 2000
        ((10, create_command other_report, other_context) ∷ [])
        created in
    handle date_parse fingerprint digest (time + 5) (create_command report) context later
    ≡ (ok (road_event model), later)
handle_resent_example =
    handle_resent date_parse fingerprint digest 2000 (create_command report) context empty_world
      created (road_event model) ((10, create_command other_report, other_context) ∷ []) 5
      not_attachment creating

empty-IsConsistent : IsConsistent 2000 empty_world.repository
unfolding lookup
empty-IsConsistent = record { entry = λ id. tt }

serve-IsConsistent_example :
    IsConsistent
      (serve date_parse fingerprint digest 2000
        ((0, create_command report, context) ∷ [])
        empty_world).0
      (serve date_parse fingerprint digest 2000
        ((0, create_command report, context) ∷ [])
        empty_world).1.repository
serve-IsConsistent_example =
    serve-IsConsistent date_parse fingerprint digest 2000 ((0, create_command report, context) ∷ [])
      empty_world empty-IsConsistent

created-IsConsistent : IsConsistent 2000 created.repository
unfolding serve
created-IsConsistent =
    serve-IsConsistent date_parse fingerprint digest 2000 ((0, create_command report, context) ∷ [])
      empty_world empty-IsConsistent

reading : get_by_id 2000 event_id dispatcher created ≡ (ok model, created)
unfolding get_by_id ros_road_operating_syste.Application.Authorization.assert_allowed
    ros_road_operating_syste.Application.Commands.access_scope
    ros_road_operating_syste.Application.Commands.require_access_scope_value
    ros_road_operating_syste.Prelude.Text.matches_id ros_road_operating_syste.Prelude.Text.trim
    ros_road_operating_syste.Application.Commands.field_user_only
    ros_road_operating_syste.Application.Ports.includes_role
    ros_road_operating_syste.Application.Ports.same_role
    ros_road_operating_syste.Application.Commands.require_uuid
    ros_road_operating_syste.Application.Commands.is_uuid
    ros_road_operating_syste.Application.Service.require_event
    ros_road_operating_syste.Application.Memory.find_by_id
    ros_road_operating_syste.Application.Memory.visible lookup handle
    ros_road_operating_syste.Application.Service.create
    ros_road_operating_syste.Application.Commands.require_trace_id grants
    ros_road_operating_syste.Application.Authorization.role_permissions
    ros_road_operating_syste.Application.Commands.canonical_roles
    ros_road_operating_syste.Application.Commands.derive_road_event_idempotency_scope
    ros_road_operating_syste.Application.Commands.primary_role require_idempotency_key
    ros_road_operating_syste.Application.Commands.require_text
    ros_road_operating_syste.Application.Commands.validate_expected_version composite_key
    ros_road_operating_syste.Application.Idempotency.execute_exclusively execute_idempotently
    ros_road_operating_syste.Application.Memory.append_audit
    ros_road_operating_syste.Application.Memory.attach
    ros_road_operating_syste.Application.Memory.attachment_key
    ros_road_operating_syste.Application.Memory.clone_event
    ros_road_operating_syste.Application.Memory.create_event
    ros_road_operating_syste.Application.Memory.event_snapshot
    ros_road_operating_syste.Application.Memory.same_optional
    ros_road_operating_syste.Application.Memory.same_scope
    ros_road_operating_syste.Application.Memory.update_event
    ros_road_operating_syste.Application.Ports.role_rank to_road_event_read_model
    ros_road_operating_syste.Application.Service.attach_signal
    ros_road_operating_syste.Application.Service.authorize_event_closure
    ros_road_operating_syste.Application.Service.blank
    ros_road_operating_syste.Application.Service.operation_scope
    ros_road_operating_syste.Application.Service.parsed
    ros_road_operating_syste.Application.Service.read_model
    ros_road_operating_syste.Application.Service.reassess_severity
    ros_road_operating_syste.Application.Service.transition
    ros_road_operating_syste.Application.Service.update_operation
    ros_road_operating_syste.Application.Service.write_context
    ros_road_operating_syste.Prelude.Dict.insert member ros_road_operating_syste.Prelude.Dict.remove
    ros_road_operating_syste.Prelude.Number.is_finite
    ros_road_operating_syste.Prelude.Number.minus_whole
    ros_road_operating_syste.Prelude.Number.number_lt
    ros_road_operating_syste.Prelude.Number.out_of_range whole
    ros_road_operating_syste.Prelude.Text.is_id_char ros_road_operating_syste.Prelude.Text.is_space
    ros_road_operating_syste.Prelude.Text.text_eq ros_road_operating_syste.RoadEvent.assess_severity
    ros_road_operating_syste.RoadEvent.authorize_closure ros_road_operating_syste.RoadEvent.bad_time
    ros_road_operating_syste.RoadEvent.closure_authorization_of
    ros_road_operating_syste.RoadEvent.copy_authorization
    ros_road_operating_syste.RoadEvent.copy_optional_authorization
    ros_road_operating_syste.RoadEvent.is_undefined
    ros_road_operating_syste.RoadEvent.new_road_event
    ros_road_operating_syste.RoadEvent.require_non_empty
    ros_road_operating_syste.RoadEvent.require_reporter
    ros_road_operating_syste.RoadEvent.require_status
    ros_road_operating_syste.RoadEvent.transition_to
    ros_road_operating_syste.RoadEvent.bad_reason_code
    ros_road_operating_syste.RoadEvent.freeze_severity_assessment
    ros_road_operating_syste.RoadEvent.is_high_severity ros_road_operating_syste.RoadEvent.is_level
    ros_road_operating_syste.RoadEvent.validate_severity_assessment
    ros_road_operating_syste.RoadEvent.allowed_transitions
    ros_road_operating_syste.RoadEvent.may_follow ros_road_operating_syste.RoadEvent.same_status
reading = refl

get_by_id-MaySee_example :
    (e : RoadEvent) × (s : RoadEventAccessScope) × (lookup event_id created.repository.events
      ≡ some e)
    × (lookup event_id created.repository.scopes ≡ some s)
    × MaySee dispatcher s e
    × (any (grants RoadEventPermission.read) dispatcher.roles ≡ true)
    × (to_road_event_read_model 2000 e ≡ ok model)
    × (created ≡ created)
get_by_id-MaySee_example =
    get_by_id-MaySee 2000 event_id dispatcher created created model created-IsConsistent reading

abbrev kept : World
kept = record empty_world {
  records =
      (
        composite_key (units "scope") (units "create-0001"),
        record { fingerprint = units "first"; value = attached },
      )
      ∷ [];
}

key_accepted : require_idempotency_key (units "create-0001") ≡ ok (units "create-0001")
unfolding require_idempotency_key ros_road_operating_syste.Prelude.Text.matches_id
key_accepted = refl

not_in_flight : member (composite_key (units "scope") (units "create-0001")) kept.in_flight ≡ false
unfolding member
not_in_flight = refl

kept_found :
    lookup (composite_key (units "scope") (units "create-0001")) kept.records
    ≡ some (record { fingerprint = units "first"; value = attached })
unfolding lookup composite_key ros_road_operating_syste.Prelude.Text.text_eq
kept_found = refl

execute_conflict_example :
    execute_idempotently (units "scope") (units "create-0001") (units "second") (pure attached) kept
    ≡ (err idempotency_conflict, kept)
execute_conflict_example =
    execute_conflict (units "scope") (units "create-0001") (units "second") (pure attached) kept
      (record { fingerprint = units "first"; value = attached }) key_accepted not_in_flight
      kept_found (λ h. ground arith)

abbrev refuse : M Response
refuse = lift (err authorization_denied)

refuse-LeavesRecords : LeavesRecords refuse
refuse-LeavesRecords = record { records = λ w. refl; in_flight = λ w. refl }

abbrev after_refusal : World
after_refusal =
    (execute_idempotently (units "scope") (units "create-0001") (units "second") refuse
      empty_world).1

refusing :
    execute_idempotently (units "scope") (units "create-0001") (units "second") refuse empty_world
    ≡ (err authorization_denied, after_refusal)
unfolding execute_idempotently require_idempotency_key
    ros_road_operating_syste.Prelude.Text.matches_id
    ros_road_operating_syste.Application.Idempotency.execute_exclusively member lookup
refusing = refl

execute_failed_example : (after_refusal.records ≡ []) × (after_refusal.in_flight ≡ [])
execute_failed_example =
    execute_failed (units "scope") (units "create-0001") (units "second") refuse empty_world
      after_refusal authorization_denied refuse-LeavesRecords refusing
