-- ===== src/Application/Ownership.antt =====
-- Who may read an event: `accessScope`, `requireEvent` and `getById` of road-event-application.ts over
-- `MemoryRepository`; and the role matrix.
use ros_road_operating_syste.Prelude.{ℕ, true, Option, none, some, [], ◌≡◌, refl, arith, any}
use mathlib.Core.Option.{get_or}
use ros_road_operating_syste.Prelude.Text.{Text, text_eq_iff, trim}
use ros_road_operating_syste.Prelude.Dict.{lookup}
use ros_road_operating_syste.Prelude.Result.{Result, ok, err}
use ros_road_operating_syste.RoadEvent.{RoadEvent}
use ros_road_operating_syste.RoadEvent.Access.{RoadEventAccessScope}
use ros_road_operating_syste.Application.Ports.{
  AuthenticatedActor, RoadEventPermission, RoadEventReadModel, to_road_event_read_model,
}
use ros_road_operating_syste.Application.Authorization.{assert_allowed, grants}
use ros_road_operating_syste.Application.Memory.{same_scope, find_by_id}
use ros_road_operating_syste.Application.Monad.{World}
use ros_road_operating_syste.Application.Commands.{
  access_scope, require_uuid, require_access_scope_value, field_user_only,
}
use ros_road_operating_syste.Application.Ledger.{IsConsistent, find_by_id-eq}
use ros_road_operating_syste.Application.Service.{get_by_id, require_event}

-- What an actor may see of an event: the scope that is kept with it is of the actor's tenant and
-- purpose, and the event is the actor's own if the actor is no more than a field user.
pub record MaySee (actor : AuthenticatedActor) (s : RoadEventAccessScope) (e : RoadEvent)
    : Type 0 where
  pub tenant : s.tenant_id ≡ trim actor.tenant_id
  pub purpose : s.purpose ≡ trim actor.purpose
  pub own : field_user_only actor.roles ≡ true → e.reporter_actor_id ≡ some actor.actor_id

access_scope-eq :
    (actor : AuthenticatedActor) (scope : RoadEventAccessScope)
    → access_scope actor ≡ ok scope
    → (scope.tenant_id ≡ trim actor.tenant_id)
      × (scope.purpose ≡ trim actor.purpose)
      × (field_user_only actor.roles ≡ true → scope.reporter_actor_id ≡ some actor.actor_id)
unfolding access_scope require_access_scope_value require_uuid
access_scope-eq actor scope h = (ground arith, ground arith, λ f. ground arith)

same_scope-MaySee :
    (actor : AuthenticatedActor) (scope s : RoadEventAccessScope) (e : RoadEvent)
    → access_scope actor ≡ ok scope
    → same_scope s scope ≡ true
    → s.reporter_actor_id ≡ e.reporter_actor_id
    → MaySee actor s e
unfolding same_scope
same_scope-MaySee actor scope s e h m o =
    let (tenant, purpose, own) = access_scope-eq actor scope h in
    record {
      tenant = ground (arith, text_eq_iff s.tenant_id scope.tenant_id);
      purpose = ground (arith, text_eq_iff s.purpose scope.purpose);
      own = λ f. ground (arith, own f, text_eq_iff (get_or s.reporter_actor_id []) actor.actor_id);
    }

-- Reading an event by id changes nothing; what it returns is the model of an event that is kept under
-- that id and that the actor may see, and some role of the actor grants reading.
pub get_by_id-MaySee :
    (now : ℕ) (id : Text) (actor : AuthenticatedActor) (w w' : World) (model : RoadEventReadModel)
    → IsConsistent now w.repository
    → get_by_id now id actor w ≡ (ok model, w')
    → (e : RoadEvent) × (s : RoadEventAccessScope) × (lookup id w.repository.events ≡ some e)
      × (lookup id w.repository.scopes ≡ some s)
      × MaySee actor s e
      × (any (grants RoadEventPermission.read) actor.roles ≡ true)
      × (to_road_event_read_model now e ≡ ok model)
      × (w' ≡ w)
unfolding get_by_id require_event require_uuid assert_allowed
get_by_id-MaySee now id actor w w' model c h = scoped (access_scope actor) refl
  where
    found :
        (scope : RoadEventAccessScope)
        → access_scope actor ≡ ok scope
        → (f : Result (Option RoadEvent)) → find_by_id now id scope w.repository ≡ f
        → (e : RoadEvent) × (s : RoadEventAccessScope) × (lookup id w.repository.events ≡ some e)
          × (lookup id w.repository.scopes ≡ some s)
          × MaySee actor s e
          × (any (grants RoadEventPermission.read) actor.roles ≡ true)
          × (to_road_event_read_model now e ≡ ok model)
          × (w' ≡ w)
    found scope p (ok (some e)) q =
        let (s, kept, stored, same, _, _, owner) = find_by_id-eq now id scope w.repository e c q in
        (
          e,
          s,
          kept,
          stored,
          same_scope-MaySee actor scope s e p same owner,
          ground arith,
          ground arith,
          ground arith,
        )
    found scope p (ok none) q = absurd (ground arith)
    found scope p (err x) q = absurd (ground arith)

    scoped :
        (s : Result RoadEventAccessScope)
        → access_scope actor ≡ s
        → (e : RoadEvent) × (s : RoadEventAccessScope) × (lookup id w.repository.events ≡ some e)
          × (lookup id w.repository.scopes ≡ some s)
          × MaySee actor s e
          × (any (grants RoadEventPermission.read) actor.roles ≡ true)
          × (to_road_event_read_model now e ≡ ok model)
          × (w' ≡ w)
    scoped (ok scope) p = found scope p (find_by_id now id scope w.repository) refl
    scoped (err x) p = absurd (ground arith)
