-- ===== src/Application/Memory.antt =====
-- apps/api/src/application/local-adapters.ts: the repository, the idempotency store and the signal store
-- in memory. Each method of the repository throws before it changes anything, so it is a `Result`.
-- `now` is the value of `Date.now()` during the call.
use ros_road_operating_syste.Prelude.{
  ℕ, Bool, true, false, not, ◌&&◌, Option, none, some, List, [], ◌∷◌, ◌++◌, ltb, leb, any, ◌==◌,
  if◌then◌else◌, take, drop, length, Loose, known,
}
use mathlib.Core.Option.{get_or}
use ros_road_operating_syste.Prelude.Text.{Text, units, text_eq}
use ros_road_operating_syste.Prelude.Dict.{lookup, insert, member}
use ros_road_operating_syste.Prelude.Result.{
  Result, ok, err, type_error, already_exists, not_found, concurrency, throw_if, ◌>>=◌, ◌>>◌,
}
use ros_road_operating_syste.RoadEvent.{
  RoadEvent, SeverityLevel, new_road_event, closure_authorization_of, same_status, level_rank,
}
use ros_road_operating_syste.RoadEvent.Access.{
  RoadEventAccessScope, RoadEventWriteContext, RoadEventListQuery, RoadEventPage,
}
use ros_road_operating_syste.Application.Ports.{
  EventSnapshot, AuditTimelineEntry, SignalAttachmentInput,
}

pub record MemoryRepository : Type 0 where
  pub events : List (Text × RoadEvent)
  pub scopes : List (Text × RoadEventAccessScope)
  pub audit : List (Text × List AuditTimelineEntry)

-- `a === b` on texts that may be missing.
unfoldable pub same_optional : Option Text → Option Text → Bool
same_optional none none = true
same_optional (some a) (some b) = text_eq a b
same_optional _ _ = false

owns : Option Text → Option Text → Bool
owns left none = true
owns left (some reporter) = same_optional left (some reporter)

unfoldable pub same_scope : RoadEventAccessScope → RoadEventAccessScope → Bool
unfolding owns same_optional
same_scope left right =
    text_eq left.tenant_id right.tenant_id
    && text_eq left.purpose right.purpose
    && owns left.reporter_actor_id right.reporter_actor_id

unfoldable pub clone_event : ℕ → RoadEvent → Result RoadEvent
clone_event now event = do
  authorization ← closure_authorization_of now event
  new_road_event now (record {
    id = event.id;
    reporter_actor_id = event.reporter_actor_id;
    occurred_at = event.occurred_at;
    latitude = event.latitude;
    longitude = event.longitude;
    status = some (known event.status);
    severity = some event.severity;
    version = some event.version;
    closure_authorization = authorization;
  })

unfoldable pub event_snapshot : RoadEvent → EventSnapshot
event_snapshot event = record {
  id = event.id;
  status = event.status;
  severity = event.severity.level;
  version = event.version;
  occurred_at = event.occurred_at;
}

unfoldable pub append_audit :
    ℕ
    → Text
    → RoadEventWriteContext
    → Option EventSnapshot
    → Option EventSnapshot
    → MemoryRepository
    → MemoryRepository
append_audit now road_event_id context before after repository =
    let entries = get_or (lookup road_event_id repository.audit) [] in
    let entry : AuditTimelineEntry = record {
      action = context.action;
      actor_type = context.actor_type;
      actor_id = context.actor_id;
      before_state = before;
      after_state = after;
      reason = context.reason;
      trace_id = context.trace_id;
      occurred_at = get_or context.occurred_at now;
    } in
    record repository { audit = insert road_event_id (entries ++ entry ∷ []) repository.audit }

is_some {ℓ} : {A : Type ℓ} → Option A → Bool
is_some none = false
is_some (some a) = true

unfoldable pub create_event :
    ℕ → RoadEvent → RoadEventWriteContext → MemoryRepository → Result MemoryRepository
unfolding is_some same_optional
create_event now event context repository =
    let trusted = context.scope.reporter_actor_id in
    do
      throw_if (is_some (lookup event.id repository.events)) already_exists
      throw_if (is_some trusted && not (same_optional context.actor_id trusted)) type_error
      throw_if (not (same_optional event.reporter_actor_id trusted)) type_error
      stored ← clone_event now event
      let scope : RoadEventAccessScope = record {
        tenant_id = context.scope.tenant_id;
        purpose = context.scope.purpose;
        reporter_actor_id = event.reporter_actor_id;
      }
      ok (
          append_audit now event.id context none (some (event_snapshot event)) (record repository {
            events = insert event.id stored repository.events;
            scopes = insert event.id scope repository.scopes;
          }))

-- The event and its scope, if both are there and the scope admits the caller's.
unfoldable pub visible :
    Option RoadEvent → Option RoadEventAccessScope → RoadEventAccessScope → Option RoadEvent
visible (some event) (some stored) scope = if same_scope stored scope then some event else none
visible _ _ scope = none

update_current :
    ℕ
    → RoadEvent
    → ℕ
    → RoadEventWriteContext
    → MemoryRepository
    → Option RoadEvent
    → Result MemoryRepository
update_current now event expected_version context repository none = err not_found
update_current now event expected_version context repository (some current) = do
  throw_if (not (current.version == expected_version)) concurrency
  stored ← clone_event now event
  ok (
      append_audit now event.id context (some (event_snapshot current))
        (some (event_snapshot event))
        (record repository { events = insert event.id stored repository.events }))

unfoldable pub update_event :
    ℕ → RoadEvent → ℕ → RoadEventWriteContext → MemoryRepository → Result MemoryRepository
unfolding update_current
update_event now event expected_version context repository =
    update_current now event expected_version context repository (
      visible (lookup event.id repository.events) (lookup event.id repository.scopes) context.scope)

clone_optional : ℕ → Option RoadEvent → Result (Option RoadEvent)
clone_optional now none = ok none
clone_optional now (some event) = do copied ← clone_event now event; ok (some copied)

unfoldable pub find_by_id :
    ℕ → Text → RoadEventAccessScope → MemoryRepository → Result (Option RoadEvent)
unfolding clone_optional
find_by_id now id scope repository =
    clone_optional now (visible (lookup id repository.events) (lookup id repository.scopes) scope)

selected : {A : Type 0} → (A → Bool) → Option (List A) → Bool
selected p none = true
selected p (some chosen) = any p chosen

same_level : Loose SeverityLevel → Loose SeverityLevel → Bool
unfolding level_rank
same_level a b = level_rank a == level_rank b

from_time : Option ℕ → Option ℕ → Bool
from_time none time = true
from_time (some first) none = false
from_time (some first) (some time) = leb first time

before_time : Option ℕ → Option ℕ → Bool
before_time none time = true
before_time (some end) none = false
before_time (some end) (some time) = ltb time end

-- The filters of `list` on the event itself.
unfoldable pub selects : RoadEventListQuery → RoadEvent → Bool
unfolding selected same_level from_time before_time
selects query event =
    selected (same_status event.status) query.statuses
    && selected (same_level event.severity.level) query.severities
    && from_time query.occurred_from event.occurred_at
    && before_time query.occurred_to event.occurred_at

-- The first filter: whether the caller's scope admits the entry.
unfoldable pub admits : RoadEventAccessScope → Option RoadEventAccessScope → Bool
admits scope none = false
admits scope (some stored) = same_scope stored scope

unfoldable pub listed :
    RoadEventListQuery
    → RoadEventAccessScope
    → List (Text × RoadEventAccessScope)
    → List (Text × RoadEvent)
    → List RoadEvent
unfolding selects admits
listed query scope scopes [] = []
listed query scope scopes ((id, event) ∷ events) =
    let rest = listed query scope scopes events in
    if admits scope (lookup id scopes) && selects query event then event ∷ rest else rest

-- `Array.prototype.sort` is stable; the newest event comes first.
insert_by_time : RoadEvent → List RoadEvent → List RoadEvent
insert_by_time event [] = event ∷ []
insert_by_time event (other ∷ events) =
    if ltb (get_or event.occurred_at 0) (get_or other.occurred_at 0)
    then other ∷ insert_by_time event events
    else event ∷ other ∷ events

unfoldable pub sort_by_time : List RoadEvent → List RoadEvent
unfolding insert_by_time
sort_by_time [] = []
sort_by_time (event ∷ events) = insert_by_time event (sort_by_time events)

unfoldable pub clone_all : ℕ → List RoadEvent → Result (List RoadEvent)
clone_all now [] = ok []
clone_all now (event ∷ events) = do
  copied ← clone_event now event
  rest ← clone_all now events
  ok (copied ∷ rest)

unfoldable pub list_events :
    ℕ → RoadEventListQuery → RoadEventAccessScope → MemoryRepository → Result RoadEventPage
list_events now query scope repository =
    let found = sort_by_time (listed query scope repository.scopes repository.events) in
    do
      items ← clone_all now (take query.limit (drop query.offset found))
      ok (record {
        items = items;
        total = length found;
        limit = query.limit;
        offset = query.offset;
      })

unfoldable pub list_for_road_event :
    Text → RoadEventAccessScope → MemoryRepository → List AuditTimelineEntry
list_for_road_event road_event_id scope repository =
    if admits scope (lookup road_event_id repository.scopes)
    then get_or (lookup road_event_id repository.audit) []
    else []

pub record MemorySignals : Type 0 where
  pub attachments : List SignalAttachmentInput
  pub keys : List Text

abbrev pub colon : Text
colon = units ":"

-- The key under which an attachment is remembered.
unfoldable pub attachment_key : SignalAttachmentInput → Text
attachment_key input =
    input.actor.tenant_id ++ colon ++ input.actor.purpose ++ colon ++ input.road_event_id ++ colon
    ++ input.signal_id

require_attached : Option RoadEvent → Result (Unit {0})
require_attached none = err not_found
require_attached (some event) = ok tt

-- `attach`, of the adapter that was given a repository: the actor is the scope.
unfoldable pub attach :
    ℕ → SignalAttachmentInput → MemoryRepository → MemorySignals → Result MemorySignals
unfolding require_attached attachment_key
attach now input repository signals =
    let actor = input.actor in
    let scope : RoadEventAccessScope = record {
      tenant_id = actor.tenant_id;
      purpose = actor.purpose;
      reporter_actor_id = actor.reporter_actor_id;
    } in
    do
      found ← find_by_id now input.road_event_id scope repository
      require_attached found
      ok (
          if member (attachment_key input) signals.keys then signals else record signals {
            attachments = signals.attachments ++ input ∷ [];
            keys = attachment_key input ∷ signals.keys;
          })
