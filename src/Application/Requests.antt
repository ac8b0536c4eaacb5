-- ===== src/Application/Requests.antt =====
-- The commands of road-event-application.ts on a consistent repository.
use ros_road_operating_syste.Prelude.{
  ℕ, ◌+◌, ◌≤◌, not, Option, none, some, ◌∷◌, ◌≡◌, ◌⊎◌, inl, inr, refl, arith, subst, sym, ◌∙◌, ◌==◌,
}
use ros_road_operating_syste.Prelude.Text.{Text}
use ros_road_operating_syste.Prelude.Dict.{lookup}
use ros_road_operating_syste.Prelude.Result.{Result, ok, err, concurrency, throw_if}
use ros_road_operating_syste.RoadEvent.{
  RoadEvent, SeverityAssessment, RoadEventStatus, ClosureAuthorization, transition_to,
  assess_severity, authorize_closure, next_version, max_safe_integer,
}
use ros_road_operating_syste.RoadEvent.Validity.{IsValid}
use ros_road_operating_syste.RoadEvent.Operations.{
  transition_to-IsValid, assess_severity-IsValid, authorize_closure-IsValid,
}
use ros_road_operating_syste.RoadEvent.Access.{RoadEventAccessScope, RoadEventWriteContext}
use ros_road_operating_syste.Application.Ports.{to_road_event_read_model}
use ros_road_operating_syste.Application.Memory.{MemoryRepository, update_event, find_by_id}
use ros_road_operating_syste.Application.Monad.{
  Response, World, M, lift, on_repository, ◌>>=◌, ◌>>◌,
}
use ros_road_operating_syste.Application.Commands.{
  CommandContext, primary_role, require_idempotency_key,
}
use ros_road_operating_syste.Application.Idempotency.{
  composite_key, execute_idempotently, execute_exclusively,
}
use ros_road_operating_syste.Application.Ledger.{
  IsConsistent, update_event-IsConsistent, update_event-safe, find_by_id-eq,
}
use ros_road_operating_syste.Application.Service.{
  require_event, update_operation, write_context, read_model,
}

next_version-exact :
    (version n : ℕ) → n ≡ next_version version → n ≤ max_safe_integer → n ≡ version + 1
next_version-exact version n h safe = ground arith

-- A change of an event that keeps it well formed and its identity, and counts one version on.
pub record Advances (now : ℕ) (change : RoadEvent → Result RoadEvent) : Type 0 where
  pub valid : (e e' : RoadEvent) → IsValid now e → change e ≡ ok e' → IsValid now e'
  pub identity :
      (e e' : RoadEvent)
      → change e ≡ ok e'
      → (e'.id ≡ e.id)
        × (e'.reporter_actor_id ≡ e.reporter_actor_id)
        × (e'.version ≡ next_version e.version)

pub transition_to-Advances : (now : ℕ) (next : RoadEventStatus) → Advances now (transition_to next)
unfolding transition_to
transition_to-Advances now next = record {
  valid = λ e e' v h. transition_to-IsValid now next e e' v h;
  identity = λ e e' h. ground arith;
}

pub assess_severity-Advances : (now : ℕ) (a : SeverityAssessment) → Advances now (assess_severity a)
unfolding assess_severity
assess_severity-Advances now a = record {
  valid = λ e e' v h. assess_severity-IsValid now a e e' v h;
  identity = λ e e' h. ground arith;
}

pub authorize_closure-Advances :
    (now : ℕ) (a : ClosureAuthorization) → Advances now (authorize_closure now a)
unfolding authorize_closure
authorize_closure-Advances now a = record {
  valid = λ e e' v h. authorize_closure-IsValid now a e e' v h;
  identity = λ e e' h. ground arith;
}

-- The command leaves a consistent repository consistent, whether it returns or throws.
pub record Keeps (now : ℕ) {A : Type 0} (f : M A) : Type 0 where
  pub after : (w : World) → IsConsistent now w.repository → IsConsistent now (f w).1.repository

pub lift-Keeps :
    {A B : Type 0} (now : ℕ) (r : Result A) (f : A → M B)
    → ((a : A) → r ≡ ok a → Keeps now (f a))
    → Keeps now (lift r >>= f)
lift-Keeps now (ok a) f h = record { after = (h a refl).after }
lift-Keeps now (err e) f h = record { after = λ w c. c }

-- The same for one world.
pub lift-at :
    {A B : Type 0} (now : ℕ) (r : Result A) (f : A → M B) (w : World)
    → ((a : A) → r ≡ ok a → IsConsistent now (f a w).1.repository)
    → IsConsistent now w.repository
    → IsConsistent now ((lift r >>= f) w).1.repository
lift-at now (ok a) f w h c = h a refl
lift-at now (err e) f w h c = c

pub read_model-Keeps : (now : ℕ) (e : RoadEvent) → Keeps now (read_model now e)
unfolding read_model
read_model-Keeps now e =
    lift-Keeps now (to_road_event_read_model now e) _ λ m p. record { after = λ w c. c }

-- A write to the repository, and what follows it.
pub on_repository-Keeps :
    {B : Type 0} (now : ℕ) (f : MemoryRepository → Result MemoryRepository) (g : M B) (w : World)
    → ((r' : MemoryRepository) → f w.repository ≡ ok r' → IsConsistent now r')
    → Keeps now g
    → IsConsistent now w.repository
    → IsConsistent now ((on_repository f >> g) w).1.repository
on_repository-Keeps now f g w h k c = step (f w.repository) refl
  where
    step :
        (r : Result MemoryRepository)
        → f w.repository ≡ r
        → IsConsistent now ((on_repository f >> g) w).1.repository
    step (ok r') p = rw p (k.after (record w { repository = r' }) (h r' p))
    step (err e) p = rw p c

pub update_operation-Keeps :
    (now : ℕ) (context : CommandContext) (scope : RoadEventAccessScope) (id : Text) (version : ℕ)
    (reason action event_type : Text) (change : RoadEvent → Result RoadEvent)
    → Advances now change
    → Keeps now (update_operation now context scope id version reason action event_type change)
unfolding update_operation require_event
update_operation-Keeps now context scope id version reason action event_type change advances =
    record { after = λ w c. start w c (find_by_id now id scope w.repository) refl }
  where
    context_of : Text → RoadEventWriteContext
    context_of role = write_context now context scope role action (some reason) event_type id

    write :
        (w : World) (e changed : RoadEvent) (role : Text)
        → IsConsistent now w.repository
        → find_by_id now id scope w.repository ≡ ok (some e)
        → change e ≡ ok changed
        → (r' : MemoryRepository)
        → update_event now changed version (context_of role) w.repository ≡ ok r'
        → IsConsistent now r'
    write w e changed role c found p r' h =
        let (_, kept, _, _, v, i, _) = find_by_id-eq now id scope w.repository e c found in
        let (same_id, owner, next) = advances.identity e changed p in
        let safe = update_event-safe now changed version (context_of role) w.repository r' h in
        update_event-IsConsistent now changed e version (context_of role) w.repository r' c
          (advances.valid e changed v p)
          (subst (λ t. lookup t w.repository.events ≡ some e) (sym (same_id ∙ i)) kept) owner
          (next_version-exact e.version changed.version next safe) safe h

    start :
        (w : World)
        → IsConsistent now w.repository
        → (f : Result (Option RoadEvent)) → find_by_id now id scope w.repository ≡ f
        → IsConsistent now
            (update_operation now context scope id version reason action event_type change
              w).1.repository
    start w c (err x) p = rw p c
    start w c (ok none) p = rw p c
    start w c (ok (some e)) p = rw p (
        lift-at now (throw_if (not (e.version == version)) concurrency) _ w
          (λ _ _.
            lift-at now (change e) _ w
              (λ changed q.
                lift-at now (primary_role context.actor) _ w
                  (λ role _.
                    on_repository-Keeps now (update_event now changed version (context_of role))
                      (read_model now changed) w (write w e changed role c p q)
                      (read_model-Keeps now changed) c)
                  c)
              c)
          c)

execute-repository :
    (scope key fingerprint : Text) (operation : M Response) (w : World)
    → ((execute_idempotently scope key fingerprint operation w).1.repository ≡ w.repository)
      ⊎ ((execute_idempotently scope key fingerprint operation w).1.repository
          ≡ (operation
              (record w { in_flight = composite_key scope key ∷ w.in_flight })).1.repository)
unfolding execute_idempotently execute_exclusively require_idempotency_key
execute-repository scope key fingerprint operation w = ground arith

-- `executeIdempotently` changes the repository only by its operation.
pub execute-Keeps :
    (now : ℕ) (scope key fingerprint : Text) (operation : M Response)
    → Keeps now operation
    → Keeps now (execute_idempotently scope key fingerprint operation)
execute-Keeps now scope key fingerprint operation k = record {
  after = λ w c. elim (execute-repository scope key fingerprint operation w) [
    | inl same ↦ subst (IsConsistent now) (sym same) c
    | inr done ↦
        subst (IsConsistent now) (sym done)
          (k.after (record w { in_flight = composite_key scope key ∷ w.in_flight }) c)
  ];
}
