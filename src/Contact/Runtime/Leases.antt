-- ===== src/Contact/Runtime/Leases.antt =====
-- `runDue` with the claims and the leases of contact-orchestration-postgres.ts as a chain of writes.
use ros_road_operating_syste.Prelude.{
  ℕ, ◌+◌, Bool, true, false, ◌&&◌, leb, Option, none, some, List, [], ◌∷◌, map, inl, inr, refl,
  arith, Bool-cases,
}
use ros_road_operating_syste.Prelude.Text.{Text}
use ros_road_operating_syste.Contact.Runtime.Records.{
  ContactScope, ContactSessionRecord, RuntimeIds,
}
use ros_road_operating_syste.Contact.Runtime.Store.{Store, is_null}
use ros_road_operating_syste.Contact.Runtime.Steps.{valid_id}
use ros_road_operating_syste.Contact.Runtime.Due.{
  leased, lease_if, claim_due_sessions, release_row, release_lease, process_due, run_claimed,
  run_due_at, run_due,
}
use ros_road_operating_syste.Contact.Runtime.Writes.{
  Leases, Pointwise, leases, Writes, nothing, trans, one,
}
use ros_road_operating_syste.Contact.Runtime.Worker.{process_due-Completes}

pub map-Leases :
    (f : ContactSessionRecord → ContactSessionRecord)
    → ((row : ContactSessionRecord) → Leases row (f row))
    → (rows : List ContactSessionRecord) → Pointwise Leases rows (map f rows)
map-Leases f h [] = tt
map-Leases f h (row ∷ rows) = (h row, map-Leases f h rows)

pub lease_if-Leases :
    (b : Bool) (worker_id : Text) (until : ℕ) (row : ContactSessionRecord)
    → Leases row (lease_if b worker_id until row)
unfolding lease_if leased is_null
lease_if-Leases true worker_id until row = record {
  scope = refl;
  owner = refl;
  version = refl;
  state = refl;
  suppressed = refl;
  attempts = refl;
  schedule = refl;
  constrained = λ s. record {
    versioned = s.versioned;
    attempted = s.attempted;
    bounded = s.bounded;
    unscheduled = s.unscheduled;
    leased = refl;
  };
}
lease_if-Leases false worker_id until row = record {
  scope = refl;
  owner = refl;
  version = refl;
  state = refl;
  suppressed = refl;
  attempts = refl;
  schedule = refl;
  constrained = λ s. s;
}

pub release_row-Leases :
    (scope : ContactScope) (worker_id : Text) (row : ContactSessionRecord)
    → Leases row (release_row scope worker_id row)
unfolding release_row is_null
release_row-Leases scope worker_id row = record {
  scope = ground arith;
  owner = ground arith;
  version = ground arith;
  state = ground arith;
  suppressed = ground arith;
  attempts = ground arith;
  schedule = ground arith;
  constrained = λ s.
      let a = s.versioned in
      let b = s.attempted in
      let c = s.bounded in
      let d = s.unscheduled in
      let e = s.leased in
      record {
        versioned = ground arith;
        attempted = ground arith;
        bounded = ground arith;
        unscheduled = λ h. ground arith;
        leased = ground arith;
      };
}

pub claim_due_sessions-Writes :
    (worker_id : Text) (now lease_ms limit : ℕ) (store : Store)
    → Writes store (claim_due_sessions worker_id now lease_ms limit store).1
unfolding claim_due_sessions
claim_due_sessions-Writes worker_id now lease_ms limit store = one (
    leases _
      (map-Leases _ (λ row. lease_if-Leases _ worker_id (now + lease_ms) row) store.sessions))

pub release_lease-Writes :
    (scope : ContactScope) (worker_id : Text) (store : Store)
    → Writes store (release_lease scope worker_id store)
unfolding release_lease
release_lease-Writes scope worker_id store =
    one (leases _ (map-Leases _ (release_row-Leases scope worker_id) store.sessions))

run_claimed-Writes :
    (ids : RuntimeIds) (claimed : List ContactSessionRecord) (worker_id : Text) (now : ℕ)
    (store : Store)
    → Writes store (run_claimed ids claimed worker_id now store).1
unfolding run_claimed
run_claimed-Writes ids [] worker_id now store = nothing
run_claimed-Writes ids (session ∷ rest) worker_id now store =
    let processed = process_due-Completes ids session worker_id now store in
    let middle : Store = (process_due ids session worker_id now store).1 in
    trans processed.writes (
      trans (release_lease-Writes session.scope worker_id middle)
        (run_claimed-Writes ids rest worker_id now (release_lease session.scope worker_id middle)))

pub run_due-Writes :
    (ids : RuntimeIds) (worker_id : Text) (now : Option ℕ) (limit : ℕ) (store : Store)
    → Writes store (run_due ids worker_id now limit store).1
unfolding run_due run_due_at
run_due-Writes ids worker_id now limit store =
    elim (Bool-cases (valid_id worker_id && leb 1 limit && leb limit 500)) [
      | inl e ↦ rw e (timed now)
      | inr e ↦ rw e nothing
    ]
  where
    timed : (now : Option ℕ) → Writes store (run_due_at ids worker_id now limit store).1
    timed none = nothing
    timed (some at) = trans (claim_due_sessions-Writes worker_id at 30000 limit store) (
        run_claimed-Writes ids (claim_due_sessions worker_id at 30000 limit store).0 worker_id at
          (claim_due_sessions worker_id at 30000 limit store).1)
