-- ===== src/Application/Retry.antt =====
-- Sending a command of road-event-application.ts again, at a later time and after other commands.
use ros_road_operating_syste.Prelude.{ℕ, ◌≤◌, Option, none, some, refl, if◌then◌else◌, ◌≡◌, arith}
use ros_road_operating_syste.Prelude.Text.{Text}
use ros_road_operating_syste.Prelude.Result.{Result, ok, err}
use ros_road_operating_syste.RoadEvent.{
  RoadEvent, same_status, closed, new_road_event, bad_time, copy_optional_authorization,
}
use ros_road_operating_syste.RoadEvent.Access.{RoadEventAccessScope}
use ros_road_operating_syste.Application.Ports.{RoadEventPermission}
use ros_road_operating_syste.Application.Authorization.{assert_allowed}
use ros_road_operating_syste.Application.Monad.{Response, World, M, lift, ◌>>=◌, ◌>>◌}
use ros_road_operating_syste.Application.Commands.{
  CommandContext, CreateRoadEventCommand, ReassessSeverityCommand, TransitionRoadEventCommand,
  AuthorizeClosureCommand, Command, ScopeMaterial, access_scope, require_uuid, require_text,
  require_trace_id, validate_expected_version,
}
use ros_road_operating_syste.Application.Idempotency.{execute_idempotently}
use ros_road_operating_syste.Application.Replay.{LeavesRecords, Follows, execute_replay}
use ros_road_operating_syste.Application.Records.{
  update_operation-LeavesRecords, create-LeavesRecords,
}
use ros_road_operating_syste.Application.Service.{
  operation_scope, update_operation, create, reassess_severity, transition, authorize_event_closure,
  parsed, new_props,
}

-- After a success of the first call, the second gives the same response and changes nothing, in any world that keeps the
-- records of the one that the first call left.
pub record Resends (f g : M Response) : Type 0 where
  pub again :
      (w w' later : World) (v : Response)
      → f w ≡ (ok v, w')
      → Follows w' later
      → g later ≡ (ok v, later)

lift-Resends :
    {A : Type 0} (r r' : Result A) (f g : A → M Response)
    → ((a : A) → r ≡ ok a → r' ≡ ok a)
    → ((a : A) → Resends (f a) (g a))
    → Resends (lift r >>= f) (lift r' >>= g)
lift-Resends (ok a) r' f g same h = record {
  again = λ w w' later v p k. rw (same a refl) ((h a).again w w' later v p k);
}
lift-Resends (err e) r' f g same h = record {
  again = λ w w' later v p k. let n : ⊥ = cc in absurd n;
}

both :
    {A : Type 0} (r : Result A) (f g : A → M Response)
    → ((a : A) → Resends (f a) (g a))
    → Resends (lift r >>= f) (lift r >>= g)
both r f g h = lift-Resends r r f g (λ a p. p) h

execute-Resends :
    (scope key fingerprint : Text) (operation operation' : M Response)
    → LeavesRecords operation
    → Resends
        (execute_idempotently scope key fingerprint operation)
        (execute_idempotently scope key fingerprint operation')
execute-Resends scope key fingerprint operation operation' leaves = record {
  again = λ w w' later v e k.
      execute_replay scope key fingerprint operation operation' w w' later v leaves k e;
}

-- The constructor accepts a new event at any later time.
new_road_event-later :
    (now later : ℕ) (scope : RoadEventAccessScope) (time : Option ℕ) (c : CreateRoadEventCommand)
    (e : RoadEvent)
    → now ≤ later
    → new_road_event now (new_props scope time c) ≡ ok e
    → new_road_event later (new_props scope time c) ≡ ok e
unfolding new_road_event bad_time copy_optional_authorization
new_road_event-later now later scope none c e le h = let f : ⊥ = ground arith in absurd f
new_road_event-later now later scope (some t) c e le h = ground arith

module _ (now later : ℕ) (date_parse : Text → Option ℕ) (fingerprint : Command → Text)
    (digest : ScopeMaterial → Text) where
  update-Resends :
      (context : CommandContext) (r : RoadEventAccessScope) (scope key print : Text) (id : Text)
      (version : ℕ) (reason action event_type : Text)
      (change change' : RoadEvent → Result RoadEvent)
      → Resends
          (execute_idempotently scope key print
            (update_operation now context r id version reason action event_type change))
          (execute_idempotently scope key print
            (update_operation later context r id version reason action event_type change'))
  update-Resends context r scope key print id version reason action event_type change change' =
      execute-Resends scope key print _ _
        (update_operation-LeavesRecords now context r id version reason action event_type change)

  -- The checks that the three updating commands share.
  guarded-Resends :
      (context : CommandContext) (permission : RoadEventPermission) (id : Text) (version : ℕ)
      (reason : Text) (f g : RoadEventAccessScope → Text → M Response)
      → ((scope : RoadEventAccessScope) (r : Text) → Resends (f scope r) (g scope r))
      → Resends
          (do
            lift (assert_allowed context.actor permission)
            scope ← lift (access_scope context.actor)
            uuid ← lift (require_uuid id)
            lift (validate_expected_version version)
            r ← lift (require_text reason 500)
            f scope r)
          (do
            lift (assert_allowed context.actor permission)
            scope ← lift (access_scope context.actor)
            uuid ← lift (require_uuid id)
            lift (validate_expected_version version)
            r ← lift (require_text reason 500)
            g scope r)
  guarded-Resends context permission id version reason f g h =
      both (assert_allowed context.actor permission) _ _ λ _.
        both (access_scope context.actor) _ _ λ scope. both (require_uuid id) _ _ λ _.
          both (validate_expected_version version) _ _
            λ _. both (require_text reason 500) _ _ λ r. h scope r

  -- The commands that create, reassess, move or authorize the closure of an event.
  pub commands_resend :
      (context : CommandContext)
      → now ≤ later
      → ((c : CreateRoadEventCommand)
          → Resends
              (create now date_parse fingerprint digest c context)
              (create later date_parse fingerprint digest c context))
        × ((c : ReassessSeverityCommand)
            → Resends
                (reassess_severity now date_parse fingerprint digest c context)
                (reassess_severity later date_parse fingerprint digest c context))
        × ((c : TransitionRoadEventCommand)
            → Resends
                (transition now date_parse fingerprint digest c context)
                (transition later date_parse fingerprint digest c context))
        × ((c : AuthorizeClosureCommand)
            → Resends
                (authorize_event_closure now date_parse fingerprint digest c context)
                (authorize_event_closure later date_parse fingerprint digest c context))
  unfolding create reassess_severity transition authorize_event_closure operation_scope
  commands_resend context le = (
    λ c. both (assert_allowed context.actor RoadEventPermission.create) _ _ λ _.
        both (access_scope context.actor) _ _ λ scope. both (require_uuid c.id) _ _ λ _.
          both (require_trace_id context.trace_id) _ _ λ _.
            both (parsed (date_parse c.occurred_at)) _ _ λ time.
              lift-Resends (new_road_event now (new_props scope time c))
                (new_road_event later (new_props scope time c)) _ _
                (λ e h. new_road_event-later now later scope time c e le h)
                λ event. execute-Resends _ _ _ _ _ (create-LeavesRecords now event context _),
    λ c.
        guarded-Resends context RoadEventPermission.reassess_severity c.road_event_id
          c.expected_version c.reason _ _
          λ scope reason. update-Resends context scope _ _ _ _ _ _ _ _ _ _,
    λ c.
        guarded-Resends context
          (if same_status c.next_status closed
            then RoadEventPermission.close
            else RoadEventPermission.transition)
          c.road_event_id c.expected_version c.reason _ _
          λ scope reason. update-Resends context scope _ _ _ _ _ _ _ _ _ _,
    λ c.
        guarded-Resends context RoadEventPermission.authorize_closure c.road_event_id
          c.expected_version c.reason _ _
          λ scope reason.
            both (parsed (date_parse c.authorized_at)) _ _
              λ _. update-Resends context scope _ _ _ _ _ _ _ _ _ _,
  )
