-- ===== src/Application/Journal.antt =====
-- Any sequence of commands, from an empty store and with time passing between them.
use ros_road_operating_syste.Prelude.{
  ℕ, ◌+◌, ◌≤◌, Option, none, some, List, [], ◌∷◌, if◌then◌else◌, ◌≡◌, refl, arith, length, any,
  ◌==◌, ◌||◌,
}
use ros_road_operating_syste.Prelude.Text.{Text}
use ros_road_operating_syste.Prelude.Number.{whole, out_of_range}
use ros_road_operating_syste.Prelude.Dict.{lookup}
use ros_road_operating_syste.Prelude.Result.{Result, ok, err, throw_if, application_validation}
use ros_road_operating_syste.RoadEvent.{RoadEvent, new_road_event, same_status, closed}
use ros_road_operating_syste.RoadEvent.Validity.{IsValid-le}
use ros_road_operating_syste.RoadEvent.Operations.{new_road_event-IsValid}
use ros_road_operating_syste.RoadEvent.Access.{RoadEventAccessScope, RoadEventWriteContext}
use ros_road_operating_syste.Application.Ports.{RoadEventPermission, AuditTimelineEntry}
use ros_road_operating_syste.Application.Authorization.{assert_allowed}
use ros_road_operating_syste.Application.Memory.{
  MemoryRepository, MemorySignals, create_event, attach, find_by_id,
}
use ros_road_operating_syste.Application.Monad.{
  Response, World, M, lift, on_repository, on_signals, pure, attached, ◌>>=◌, ◌>>◌,
}
use ros_road_operating_syste.Application.Commands.{
  CommandContext, CreateRoadEventCommand, AttachSignalCommand, Command, create_command,
  reassess_command, transition_command, authorize_command, attach_command, ScopeMaterial,
  access_scope, primary_role, require_uuid, require_text, require_trace_id,
  validate_expected_version,
}
use ros_road_operating_syste.Application.Ledger.{IsConsistent, IsEntry, create_event-IsConsistent}
use ros_road_operating_syste.Application.Requests.{
  Keeps, transition_to-Advances, assess_severity-Advances, authorize_closure-Advances,
  update_operation-Keeps, execute-Keeps, lift-Keeps, on_repository-Keeps, read_model-Keeps,
}
use ros_road_operating_syste.Application.Service.{
  create, reassess_severity, transition, authorize_event_closure, attach_signal, new_props, parsed,
  require_event, read_model, blank, attachment,
}

IsEntry-le :
    (now later : ℕ) (id : Text) (e : Option RoadEvent) (s : Option RoadEventAccessScope)
    (a : Option (List AuditTimelineEntry))
    → IsEntry now id e s a
    → now ≤ later
    → IsEntry later id e s a
IsEntry-le now later id none none none h le = tt
IsEntry-le now later id (some e) (some s) (some a) (v, i, o, n, m) le =
    (IsValid-le now later e v le, i, o, n, m)
IsEntry-le now later id (some e) (some s) none h le = absurd h
IsEntry-le now later id (some e) none a h le = absurd h
IsEntry-le now later id none (some s) a h le = absurd h
IsEntry-le now later id none none (some a) h le = absurd h

version_one :
    (now : ℕ) (scope : RoadEventAccessScope) (time : Option ℕ) (c : CreateRoadEventCommand)
    (e : RoadEvent)
    → new_road_event now (new_props scope time c) ≡ ok e
    → e.version ≡ 1
unfolding new_road_event
version_one now scope time c e h = ground arith

create_operation-Keeps :
    (now : ℕ) (scope : RoadEventAccessScope) (time : Option ℕ) (c : CreateRoadEventCommand)
    (context : RoadEventWriteContext) (e : RoadEvent)
    → new_road_event now (new_props scope time c) ≡ ok e
    → Keeps now (on_repository (create_event now e context) >> read_model now e)
create_operation-Keeps now scope time c context e p = record {
  after = λ w k.
      on_repository-Keeps now (create_event now e context) (read_model now e) w
        (λ r' q.
          create_event-IsConsistent now e context w.repository r' k
            (new_road_event-IsValid now (new_props scope time c) e p)
            (version_one now scope time c e p) q)
        (read_model-Keeps now e) k;
}

require_event-Keeps :
    {A : Type 0} (now : ℕ) (id : Text) (scope : RoadEventAccessScope) (f : RoadEvent → M A)
    → ((e : RoadEvent) → Keeps now (f e))
    → Keeps now (require_event now id scope >>= f)
unfolding require_event
require_event-Keeps {A} now id scope f h = record {
  after = λ w c. start w c (find_by_id now id scope w.repository) refl;
}
  where
    start :
        (w : World)
        → IsConsistent now w.repository
        → (r : Result (Option RoadEvent)) → find_by_id now id scope w.repository ≡ r
        → IsConsistent now ((require_event now id scope >>= f) w).1.repository
    start w c (err x) p = rw p c
    start w c (ok none) p = rw p c
    start w c (ok (some e)) p = rw p ((h e).after w c)

on_signals-Keeps :
    {A : Type 0} (now : ℕ) (f : MemoryRepository → MemorySignals → Result MemorySignals) (a : A)
    → Keeps now (on_signals f >> pure a)
on_signals-Keeps {A} now f a = record { after = λ w c. start w c (f w.repository w.signals) refl }
  where
    start :
        (w : World)
        → IsConsistent now w.repository
        → (r : Result MemorySignals) → f w.repository w.signals ≡ r
        → IsConsistent now ((on_signals f >> pure a) w).1.repository
    start w c (err x) p = rw p c
    start w c (ok s) p = rw p c

module _ (date_parse : Text → Option ℕ) (fingerprint : Command → Text)
    (digest : ScopeMaterial → Text) where
  unfoldable pub handle : ℕ → Command → CommandContext → M Response
  handle now (create_command c) = create now date_parse fingerprint digest c
  handle now (reassess_command c) = reassess_severity now date_parse fingerprint digest c
  handle now (transition_command c) = transition now date_parse fingerprint digest c
  handle now (authorize_command c) = authorize_event_closure now date_parse fingerprint digest c
  handle now (attach_command c) = attach_signal now date_parse fingerprint digest c

  create-Keeps :
      (now : ℕ) (c : CreateRoadEventCommand) (context : CommandContext)
      → Keeps now (create now date_parse fingerprint digest c context)
  unfolding create
  create-Keeps now c context =
      lift-Keeps now (assert_allowed context.actor RoadEventPermission.create) _ λ _ _.
        lift-Keeps now (access_scope context.actor) _ λ scope _.
          lift-Keeps now (require_uuid c.id) _ λ _ _.
            lift-Keeps now (require_trace_id context.trace_id) _ λ _ _.
              lift-Keeps now (parsed (date_parse c.occurred_at)) _ λ time _.
                lift-Keeps now (new_road_event now (new_props scope time c)) _ λ event p.
                  execute-Keeps now _ _ _ _ (
                    lift-Keeps now (primary_role context.actor) _
                      λ role _. create_operation-Keeps now scope time c _ event p)

  attach-Keeps :
      (now : ℕ) (c : AttachSignalCommand) (context : CommandContext)
      → Keeps now (attach_signal now date_parse fingerprint digest c context)
  unfolding attach_signal require_event
  attach-Keeps now c context =
      lift-Keeps now (assert_allowed context.actor RoadEventPermission.attach_signal) _ λ _ _.
        lift-Keeps now (access_scope context.actor) _ λ scope _.
          lift-Keeps now (require_uuid c.road_event_id) _ λ _ _.
            lift-Keeps now (require_uuid c.signal_id) _ λ _ _.
              lift-Keeps now
                (throw_if (out_of_range (whole 0) (whole 1) c.match_score) application_validation) _
                λ _ _.
                  lift-Keeps now
                    (throw_if (length c.merge_reasons == 0 || any blank c.merge_reasons)
                      application_validation)
                    _
                    λ _ _. require_event-Keeps now c.road_event_id scope _ λ _.
                      execute-Keeps now _ _ _ _
                        (on_signals-Keeps now (attach now (attachment c context)) attached)

  -- The checks that the three updating commands share.
  guarded-Keeps :
      (now : ℕ) (context : CommandContext) (permission : RoadEventPermission) (id : Text)
      (version : ℕ) (reason : Text) (f : RoadEventAccessScope → Text → M Response)
      → ((scope : RoadEventAccessScope) (r : Text) → Keeps now (f scope r))
      → Keeps now (do
        lift (assert_allowed context.actor permission)
        scope ← lift (access_scope context.actor)
        uuid ← lift (require_uuid id)
        lift (validate_expected_version version)
        r ← lift (require_text reason 500)
        f scope r)
  guarded-Keeps now context permission id version reason f h =
      lift-Keeps now (assert_allowed context.actor permission) _ λ _ _.
        lift-Keeps now (access_scope context.actor) _ λ scope _.
          lift-Keeps now (require_uuid id) _ λ _ _.
            lift-Keeps now (validate_expected_version version) _
              λ _ _. lift-Keeps now (require_text reason 500) _ λ r _. h scope r

  handle-Keeps :
      (now : ℕ) (c : Command) (context : CommandContext) → Keeps now (handle now c context)
  unfolding handle reassess_severity transition authorize_event_closure
  handle-Keeps now (create_command c) context = create-Keeps now c context
  handle-Keeps now (reassess_command c) context =
      guarded-Keeps now context RoadEventPermission.reassess_severity c.road_event_id
        c.expected_version c.reason _
        λ scope r. execute-Keeps now _ _ _ _ (
          update_operation-Keeps now context scope _ _ r _ _ _
            (assess_severity-Advances now c.assessment))
  handle-Keeps now (transition_command c) context =
      guarded-Keeps now context
        (if same_status c.next_status closed
          then RoadEventPermission.close
          else RoadEventPermission.transition)
        c.road_event_id c.expected_version c.reason _
        λ scope r. execute-Keeps now _ _ _ _ (
          update_operation-Keeps now context scope _ _ r _ _ _
            (transition_to-Advances now c.next_status))
  handle-Keeps now (authorize_command c) context =
      guarded-Keeps now context RoadEventPermission.authorize_closure c.road_event_id
        c.expected_version c.reason _
        λ scope r. lift-Keeps now (parsed (date_parse c.authorized_at)) _ λ time _.
          execute-Keeps now _ _ _ _ (
            update_operation-Keeps now context scope _ _ r _ _ _ (authorize_closure-Advances now _))
  handle-Keeps now (attach_command c) context = attach-Keeps now c context

  -- Serves the commands one after another; each comes `delay` milliseconds after the one before.
  unfoldable pub serve : ℕ → List (ℕ × Command × CommandContext) → World → ℕ × World
  serve now [] w = (now, w)
  serve now ((delay, c, context) ∷ rest) w =
      serve (now + delay) rest (handle (now + delay) c context w).1

  IsConsistent-le :
      (now later : ℕ) (r : MemoryRepository)
      → IsConsistent now r
      → now ≤ later
      → IsConsistent later r
  IsConsistent-le now later r c le = record {
    entry = λ id.
        IsEntry-le now later id (lookup id r.events) (lookup id r.scopes) (lookup id r.audit)
          (c.entry id) le;
  }

  -- Whatever commands come, whatever they return, and however time passes: every event that the store
  -- keeps is well formed, stands under its own id beside a scope with its reporter, and has exactly as
  -- many audit entries as its version says; an id without an event has neither scope nor entries.
  pub serve-IsConsistent :
      (now : ℕ) (requests : List (ℕ × Command × CommandContext)) (w : World)
      → IsConsistent now w.repository
      → IsConsistent (serve now requests w).0 (serve now requests w).1.repository
  unfolding serve
  serve-IsConsistent now [] w c = c
  serve-IsConsistent now ((delay, command, context) ∷ rest) w c =
      serve-IsConsistent (now + delay) rest (handle (now + delay) command context w).1 (
        (handle-Keeps (now + delay) command context).after w
          (IsConsistent-le now (now + delay) w.repository c (omega arith)))
