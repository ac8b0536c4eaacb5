-- ===== src/Application/Idempotency.antt =====
-- `executeIdempotently` of road-event-application.ts over the idempotency store in memory of
-- local-adapters.ts.
use ros_road_operating_syste.Prelude.{Option, none, some, ◌∷◌, ◌++◌, if◌then◌else◌}
use ros_road_operating_syste.Prelude.Text.{Text, text_eq}
use ros_road_operating_syste.Prelude.Dict.{lookup, insert, member, remove}
use ros_road_operating_syste.Prelude.Result.{
  Result, ok, err, concurrency, application_conflict, idempotency_conflict, idempotency_in_flight,
}
use ros_road_operating_syste.Application.Ports.{IdempotencyRecord}
use ros_road_operating_syste.Application.Memory.{colon}
use ros_road_operating_syste.Application.Monad.{Response, World, M, lift, ◌>>=◌}
use ros_road_operating_syste.Application.Commands.{require_idempotency_key}

unfoldable pub composite_key : Text → Text → Text
composite_key scope key = scope ++ colon ++ key

-- What `finally` leaves: the key is no longer in flight.
released : Text → Result Response × World → Result Response × World
released composite (r, w) = (r, record w { in_flight = remove composite w.in_flight })

-- `executeExclusively`
unfoldable pub execute_exclusively : Text → M Response → M Response
unfolding released
execute_exclusively composite operation w =
    if member composite w.in_flight
    then (err idempotency_in_flight, w)
    else released composite (operation (record w { in_flight = composite ∷ w.in_flight }))

-- `put` keeps a record that is there.
put_record : Text → IdempotencyRecord Response → Option (IdempotencyRecord Response) → World → World
put_record composite new none w = record w { records = insert composite new w.records }
put_record composite new (some old) w = w

-- The end of the operation: its value is put, and a stale version becomes a conflict.
settle : Text → Text → Result Response × World → Result Response × World
unfolding put_record
settle composite fingerprint (ok value, w) = (
  ok value,
  put_record composite (record { fingerprint = fingerprint; value = value })
      (lookup composite w.records) w,
)
settle composite fingerprint (err concurrency, w) = (err application_conflict, w)
settle composite fingerprint (err e, w) = (err e, w)

-- What the operation is replaced by, if a record is there.
replay : Text → Text → M Response → Option (IdempotencyRecord Response) → M Response
unfolding settle
replay composite fingerprint operation none w = settle composite fingerprint (operation w)
replay composite fingerprint operation (some existing) w =
    if text_eq existing.fingerprint fingerprint
    then (ok existing.value, w)
    else (err idempotency_conflict, w)

guarded : Text → Text → M Response → M Response
unfolding replay
guarded composite fingerprint operation w =
    replay composite fingerprint operation (lookup composite w.records) w

-- The outer `catch`.
in_flight_as_conflict : Result Response × World → Result Response × World
in_flight_as_conflict (err idempotency_in_flight, w) = (err application_conflict, w)
in_flight_as_conflict (r, w) = (r, w)

unfoldable pub execute_idempotently : Text → Text → Text → M Response → M Response
unfolding in_flight_as_conflict guarded
execute_idempotently scope raw_key fingerprint operation = do
  key ← lift (require_idempotency_key raw_key)
  λ w. in_flight_as_conflict (
      execute_exclusively (composite_key scope key)
        (guarded (composite_key scope key) fingerprint operation) w)
