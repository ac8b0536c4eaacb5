-- ===== src/Application/Records.antt =====
-- The commands of road-event-application.ts and the records and the keys in flight of the idempotency store.
use ros_road_operating_syste.Prelude.{
  ℕ, ◌+◌, ◌≤◌, Option, none, some, List, [], ◌∷◌, if◌then◌else◌, ◌≡◌, refl, arith, length, any,
  ◌==◌, ◌||◌,
}
use ros_road_operating_syste.Prelude.Text.{Text}
use ros_road_operating_syste.Prelude.Number.{whole, out_of_range}
use ros_road_operating_syste.Prelude.Result.{Result, ok, err, throw_if, application_validation}
use ros_road_operating_syste.RoadEvent.{RoadEvent, same_status, closed, new_road_event}
use ros_road_operating_syste.RoadEvent.Access.{RoadEventAccessScope, RoadEventWriteContext}
use ros_road_operating_syste.Application.Ports.{RoadEventPermission}
use ros_road_operating_syste.Application.Authorization.{assert_allowed}
use ros_road_operating_syste.Application.Memory.{create_event, attach, find_by_id}
use ros_road_operating_syste.Application.Monad.{
  Response, attached, World, M, pure, lift, on_repository, on_signals, ◌>>=◌, ◌>>◌,
}
use ros_road_operating_syste.Application.Commands.{
  CommandContext, Command, create_command, reassess_command, transition_command, authorize_command,
  attach_command, ScopeMaterial, access_scope, primary_role, require_uuid, require_text,
  require_trace_id, validate_expected_version,
}
use ros_road_operating_syste.Application.Idempotency.{execute_idempotently}
use ros_road_operating_syste.Application.Replay.{
  LeavesRecords, Follows, Follows-refl, Follows-trans, execute-Follows,
}
use ros_road_operating_syste.Application.Service.{
  require_event, update_operation, create, reassess_severity, transition, authorize_event_closure,
  attach_signal, read_model, parsed, new_props, attachment, blank,
}
use ros_road_operating_syste.Application.Journal.{handle, serve}

-- A command after which the records that were there are there, and the same keys are in flight.
pub record KeepsRecords (f : M Response) : Type 0 where
  pub after : (w : World) → Follows w (f w).1

pub lift-KeepsRecords :
    {A : Type 0} (r : Result A) (f : A → M Response)
    → ((a : A) → KeepsRecords (f a))
    → KeepsRecords (lift r >>= f)
lift-KeepsRecords (ok a) f h = record { after = (h a).after }
lift-KeepsRecords (err e) f h = record { after = λ w. Follows-refl w }

pub update_operation-LeavesRecords :
    (now : ℕ) (context : CommandContext) (scope : RoadEventAccessScope) (id : Text) (version : ℕ)
    (reason action event_type : Text) (change : RoadEvent → Result RoadEvent)
    → LeavesRecords (update_operation now context scope id version reason action event_type change)
unfolding update_operation require_event
update_operation-LeavesRecords now context scope id version reason action event_type change =
    record { records = λ w. ground arith; in_flight = λ w. ground arith }

pub create-LeavesRecords :
    (now : ℕ) (event : RoadEvent) (context : CommandContext) (w : Text → RoadEventWriteContext)
    → LeavesRecords (do
      role ← lift (primary_role context.actor)
      on_repository (create_event now event (w role))
      read_model now event)
unfolding read_model
create-LeavesRecords now event context w = record {
  records = λ v. ground arith;
  in_flight = λ v. ground arith;
}

attach-LeavesRecords :
    (f : M (Unit {0}))
    → ((w : World) → ((f w).1.records ≡ w.records) × ((f w).1.in_flight ≡ w.in_flight))
    → LeavesRecords (do f; pure attached)
attach-LeavesRecords f h = record {
  records = λ w. ground (arith, h w);
  in_flight = λ w. ground (arith, h w);
}

execute-KeepsRecords :
    (scope key fingerprint : Text) (operation : M Response)
    → LeavesRecords operation
    → KeepsRecords (execute_idempotently scope key fingerprint operation)
execute-KeepsRecords scope key fingerprint operation leaves = record {
  after = λ w. execute-Follows scope key fingerprint operation w leaves;
}

require_event-KeepsRecords :
    (now : ℕ) (id : Text) (scope : RoadEventAccessScope) (f : RoadEvent → M Response)
    → ((e : RoadEvent) → KeepsRecords (f e))
    → KeepsRecords (require_event now id scope >>= f)
unfolding require_event
require_event-KeepsRecords now id scope f h = record {
  after = λ w. start w (find_by_id now id scope w.repository) refl;
}
  where
    start :
        (w : World) (r : Result (Option RoadEvent))
        → find_by_id now id scope w.repository ≡ r
        → Follows w ((require_event now id scope >>= f) w).1
    start w (err x) p = rw p (Follows-refl w)
    start w (ok none) p = rw p (Follows-refl w)
    start w (ok (some e)) p = rw p ((h e).after w)

module _ (now : ℕ) (date_parse : Text → Option ℕ) (fingerprint : Command → Text)
    (digest : ScopeMaterial → Text) where
  update-KeepsRecords :
      (context : CommandContext) (r : RoadEventAccessScope) (scope key print : Text) (id : Text)
      (version : ℕ) (reason action event_type : Text) (change : RoadEvent → Result RoadEvent)
      → KeepsRecords (
          execute_idempotently scope key print
            (update_operation now context r id version reason action event_type change))
  update-KeepsRecords context r scope key print id version reason action event_type change =
      execute-KeepsRecords scope key print _
        (update_operation-LeavesRecords now context r id version reason action event_type change)

  -- The checks that the three updating commands share.
  guarded-KeepsRecords :
      (context : CommandContext) (permission : RoadEventPermission) (id : Text) (version : ℕ)
      (reason : Text) (f : RoadEventAccessScope → Text → M Response)
      → ((scope : RoadEventAccessScope) (r : Text) → KeepsRecords (f scope r))
      → KeepsRecords (do
        lift (assert_allowed context.actor permission)
        scope ← lift (access_scope context.actor)
        uuid ← lift (require_uuid id)
        lift (validate_expected_version version)
        r ← lift (require_text reason 500)
        f scope r)
  guarded-KeepsRecords context permission id version reason f h =
      lift-KeepsRecords (assert_allowed context.actor permission) _ λ _.
        lift-KeepsRecords (access_scope context.actor) _ λ scope.
          lift-KeepsRecords (require_uuid id) _ λ _.
            lift-KeepsRecords (validate_expected_version version) _
              λ _. lift-KeepsRecords (require_text reason 500) _ λ r. h scope r

  pub handle-KeepsRecords :
      (c : Command) (context : CommandContext)
      → KeepsRecords (handle date_parse fingerprint digest now c context)
  unfolding handle create reassess_severity transition authorize_event_closure attach_signal
  handle-KeepsRecords (create_command c) context =
      lift-KeepsRecords (assert_allowed context.actor RoadEventPermission.create) _ λ _.
        lift-KeepsRecords (access_scope context.actor) _ λ scope.
          lift-KeepsRecords (require_uuid c.id) _ λ _.
            lift-KeepsRecords (require_trace_id context.trace_id) _ λ _.
              lift-KeepsRecords (parsed (date_parse c.occurred_at)) _ λ time.
                lift-KeepsRecords (new_road_event now (new_props scope time c)) _
                  λ event. execute-KeepsRecords _ _ _ _ (create-LeavesRecords now event context _)
  handle-KeepsRecords (reassess_command c) context =
      guarded-KeepsRecords context RoadEventPermission.reassess_severity c.road_event_id
        c.expected_version c.reason _
        λ scope reason. update-KeepsRecords context scope _ _ _ _ _ _ _ _ _
  handle-KeepsRecords (transition_command c) context =
      guarded-KeepsRecords context
        (if same_status c.next_status closed
          then RoadEventPermission.close
          else RoadEventPermission.transition)
        c.road_event_id c.expected_version c.reason _
        λ scope reason. update-KeepsRecords context scope _ _ _ _ _ _ _ _ _
  handle-KeepsRecords (authorize_command c) context =
      guarded-KeepsRecords context RoadEventPermission.authorize_closure c.road_event_id
        c.expected_version c.reason _
        λ scope reason.
          lift-KeepsRecords (parsed (date_parse c.authorized_at)) _
            λ _. update-KeepsRecords context scope _ _ _ _ _ _ _ _ _
  handle-KeepsRecords (attach_command c) context =
      lift-KeepsRecords (assert_allowed context.actor RoadEventPermission.attach_signal) _ λ _.
        lift-KeepsRecords (access_scope context.actor) _ λ scope.
          lift-KeepsRecords (require_uuid c.road_event_id) _ λ _.
            lift-KeepsRecords (require_uuid c.signal_id) _ λ _.
              lift-KeepsRecords
                (throw_if (out_of_range (whole 0) (whole 1) c.match_score) application_validation) _
                λ _.
                  lift-KeepsRecords
                    (throw_if (length c.merge_reasons == 0 || any blank c.merge_reasons)
                      application_validation)
                    _
                    λ _. require_event-KeepsRecords now c.road_event_id scope _ λ _.
                      execute-KeepsRecords _ _ _ _ (
                        attach-LeavesRecords (on_signals (attach now (attachment c context)))
                          (λ w. ground arith))

module _ (date_parse : Text → Option ℕ) (fingerprint : Command → Text)
    (digest : ScopeMaterial → Text) where
  -- So does any sequence of commands.
  pub serve-Follows :
      (now : ℕ) (requests : List (ℕ × Command × CommandContext)) (w : World)
      → Follows w (serve date_parse fingerprint digest now requests w).1
  unfolding serve
  serve-Follows now [] w = Follows-refl w
  serve-Follows now ((delay, c, context) ∷ rest) w =
      let next : World = (handle date_parse fingerprint digest (now + delay) c context w).1 in
      Follows-trans w next _
        ((handle-KeepsRecords (now + delay) date_parse fingerprint digest c context).after w)
        (serve-Follows (now + delay) rest next)

  pub serve-later :
      (now : ℕ) (requests : List (ℕ × Command × CommandContext)) (w : World)
      → now ≤ (serve date_parse fingerprint digest now requests w).0
  unfolding serve
  serve-later now [] w = omega arith
  serve-later now ((delay, c, context) ∷ rest) w =
      let next : World = (handle date_parse fingerprint digest (now + delay) c context w).1 in
      let h = serve-later (now + delay) rest next in omega arith
