-- ===== src/Application/Replay.antt =====
-- `executeIdempotently` of road-event-application.ts on an operation that leaves the store of records to it.
use ros_road_operating_syste.Prelude.{
  true, false, Option, none, some, ◌∷◌, ◌≡◌, ◌≢◌, ◌⊎◌, inl, inr, List, if◌then◌else◌, Bool-cases,
  ◌∙◌, refl, sym, subst, arith,
}
use ros_road_operating_syste.Prelude.Text.{Text, text_eq, text_eq_iff, text_eq_refl}
use ros_road_operating_syste.Prelude.Dict.{
  lookup, insert, member, member-remove, remove_of_not_member, remove-cons, lookup-insert_self,
  lookup-insert,
}
use ros_road_operating_syste.Prelude.Result.{
  Result, ok, err, Error, application_conflict, idempotency_conflict,
}
use ros_road_operating_syste.Application.Ports.{IdempotencyRecord}
use ros_road_operating_syste.Application.Monad.{Response, World, M}
use ros_road_operating_syste.Application.Commands.{require_idempotency_key}
use ros_road_operating_syste.Application.Idempotency.{
  composite_key, execute_exclusively, execute_idempotently,
}

-- The operation writes neither the records nor the keys in flight.
pub record LeavesRecords (operation : M Response) : Type 0 where
  pub records : (w : World) → (operation w).1.records ≡ w.records
  pub in_flight : (w : World) → (operation w).1.in_flight ≡ w.in_flight

Result-cases : {A : Type 0} (r : Result A) → ((a : A) × (r ≡ ok a)) ⊎ ((e : Error) × (r ≡ err e))
Result-cases (ok a) = inl (a, refl)
Result-cases (err e) = inr (e, refl)

insert-keeps :
    {V : Type 0} (c k : Text) (v kept : V) (m : List (Text × V))
    → lookup k m ≡ some kept
    → lookup c m ≡ none
    → lookup k (insert c v m) ≡ some kept
insert-keeps c k v kept m h n =
    rw (lookup-insert c k v m)
      (elim (Bool-cases (text_eq c k))
        as (λ _. (if text_eq c k then some v else lookup k m) ≡ some kept) [
          | inl e ↦ absurd (ground (arith, text_eq_iff c k))
          | inr e ↦ rw e h
        ])

-- The second world keeps the records of the first, and has the same keys in flight.
pub record Follows (a b : World) : Type 0 where
  pub records :
      (key : Text) (kept : IdempotencyRecord Response)
      → lookup key a.records ≡ some kept
      → lookup key b.records ≡ some kept
  pub in_flight : b.in_flight ≡ a.in_flight

pub Follows-refl : (w : World) → Follows w w
Follows-refl w = record { records = λ key kept h. h; in_flight = refl }

pub Follows-trans : (a b c : World) → Follows a b → Follows b c → Follows a c
Follows-trans a b c f g = record {
  records = λ key kept h. g.records key kept (f.records key kept h);
  in_flight = g.in_flight ∙ f.in_flight;
}

module _ (scope key fingerprint : Text) (operation : M Response) where
  -- With the key in flight the request is a conflict, and nothing changes.
  pub execute_in_flight :
      (w : World)
      → require_idempotency_key key ≡ ok key
      → member (composite_key scope key) w.in_flight ≡ true
      → execute_idempotently scope key fingerprint operation w ≡ (err application_conflict, w)
  unfolding execute_idempotently execute_exclusively
  execute_in_flight w h m = ground arith

  -- With a record of another request under the key the request is a conflict, and nothing changes.
  pub execute_conflict :
      (w : World) (old : IdempotencyRecord Response)
      → require_idempotency_key key ≡ ok key
      → member (composite_key scope key) w.in_flight ≡ false
      → lookup (composite_key scope key) w.records ≡ some old
      → old.fingerprint ≢ fingerprint
      → execute_idempotently scope key fingerprint operation w ≡ (err idempotency_conflict, w)
  unfolding execute_idempotently execute_exclusively
  execute_conflict w old h m l n = ground (
    arith,
    text_eq_iff old.fingerprint fingerprint,
    remove-cons (composite_key scope key) w.in_flight,
    remove_of_not_member (composite_key scope key) w.in_flight,
  )

  valid_key :
      (w w' : World) (value : Response)
      → execute_idempotently scope key fingerprint operation w ≡ (ok value, w')
      → require_idempotency_key key ≡ ok key
  unfolding execute_idempotently require_idempotency_key
  valid_key w w' value e = ground arith

  on_record :
      (w w' : World) (value : Response) (kept : Option (IdempotencyRecord Response))
      → LeavesRecords operation
      → require_idempotency_key key ≡ ok key
      → lookup (composite_key scope key) w.records ≡ kept
      → execute_idempotently scope key fingerprint operation w ≡ (ok value, w')
      → lookup (composite_key scope key) w'.records
        ≡ some (record { fingerprint = fingerprint; value = value })
  unfolding execute_idempotently execute_exclusively
  on_record w w' value none leaves h l e =
      let c : Text = composite_key scope key in
      let w1 : World = record w { in_flight = c ∷ w.in_flight } in
      ground (
        arith,
        leaves.records w1,
        lookup-insert_self c (record { fingerprint = fingerprint; value = value }) w.records,
      )
  on_record w w' value (some old) leaves h l e =
      ground (arith, text_eq_iff old.fingerprint fingerprint)

  off_flight :
      (w w' : World) (value : Response)
      → LeavesRecords operation
      → require_idempotency_key key ≡ ok key
      → execute_idempotently scope key fingerprint operation w ≡ (ok value, w')
      → (member (composite_key scope key) w'.in_flight ≡ false)
  unfolding execute_idempotently execute_exclusively
  off_flight w w' value leaves h e =
      let c : Text = composite_key scope key in
      let w1 : World = record w { in_flight = c ∷ w.in_flight } in
      ground (arith, text_eq_refl c, leaves.in_flight w1, member-remove c c (c ∷ w.in_flight))

  -- A success is replayed: the same request in a world that keeps its record, whatever its operation would do there,
  -- gives the recorded response and changes nothing.
  pub execute_replay :
      (operation' : M Response) (w w' later : World) (value : Response)
      → LeavesRecords operation
      → Follows w' later
      → execute_idempotently scope key fingerprint operation w ≡ (ok value, w')
      → execute_idempotently scope key fingerprint operation' later ≡ (ok value, later)
  unfolding execute_idempotently execute_exclusively
  execute_replay operation' w w' later value leaves follows e =
      let c : Text = composite_key scope key in
      let new : IdempotencyRecord Response = record { fingerprint = fingerprint; value = value } in
      let h = valid_key w w' value e in
      let kept : lookup c later.records ≡ some new =
        follows.records c new (on_record w w' value (lookup c w.records) leaves h refl e) in
      let free : member c later.in_flight ≡ false =
        subst (λ s. member c s ≡ false) (sym follows.in_flight)
          (off_flight w w' value leaves h e) in
      ground (
        arith,
        kept,
        free,
        text_eq_refl fingerprint,
        remove-cons c later.in_flight,
        remove_of_not_member c later.in_flight,
      )

  -- Whatever a request does, the keys in flight are afterwards what they were.
  pub execute-in_flight :
      (w : World)
      → LeavesRecords operation
      → (execute_idempotently scope key fingerprint operation w).1.in_flight ≡ w.in_flight
  unfolding execute_idempotently execute_exclusively require_idempotency_key
  execute-in_flight w leaves =
      let c : Text = composite_key scope key in
      ground (
        arith,
        leaves.in_flight (record w { in_flight = c ∷ w.in_flight }),
        remove-cons c w.in_flight,
        remove_of_not_member c w.in_flight,
      )

  -- A record that is there stays.
  execute-records :
      (w : World) (k : Text) (kept : IdempotencyRecord Response)
      → LeavesRecords operation
      → lookup k w.records ≡ some kept
      → lookup k (execute_idempotently scope key fingerprint operation w).1.records ≡ some kept
  unfolding execute_idempotently execute_exclusively require_idempotency_key
  execute-records w k kept leaves h =
      let c : Text = composite_key scope key in
      let w1 : World = record w { in_flight = c ∷ w.in_flight } in
      elim (Result-cases (operation w1).0) [
        | inl (value, e) ↦ ground (
          arith,
          leaves.records w1,
          insert-keeps c k (record { fingerprint = fingerprint; value = value }) kept w.records h,
        )
        | inr (error, e) ↦ ground (arith, leaves.records w1)
      ]

  pub execute-Follows :
      (w : World)
      → LeavesRecords operation
      → Follows w (execute_idempotently scope key fingerprint operation w).1
  execute-Follows w leaves = record {
    records = λ k kept h. execute-records w k kept leaves h;
    in_flight = execute-in_flight w leaves;
  }

  -- A request that throws leaves the records and the keys in flight as they were.
  pub execute_failed :
      (w w' : World) (e : Error)
      → LeavesRecords operation
      → execute_idempotently scope key fingerprint operation w ≡ (err e, w')
      → (w'.records ≡ w.records) × (w'.in_flight ≡ w.in_flight)
  unfolding execute_idempotently execute_exclusively require_idempotency_key
  execute_failed w w' e leaves h = (
    ground (arith, leaves.records (record w { in_flight = composite_key scope key ∷ w.in_flight })),
    subst (λ x. x.1.in_flight ≡ w.in_flight) h (execute-in_flight w leaves),
  )
