-- ===== src/Contact/Runtime/Progress/Running.antt =====
-- contact-orchestration.ts and contact-orchestration-postgres.ts: the worker's steps on one session, one after another.
use ros_road_operating_syste.Prelude.{
  ℕ, ◌+◌, ◌<◌, ◌≤◌, suc, true, false, some, ◌≡◌, sym, subst, ◌∙◌, arith, some_inj,
}
use ros_road_operating_syste.Prelude.Text.{Text}
use ros_road_operating_syste.Contact.Runtime.Records.{
  ContactScope, ContactSessionRecord, RuntimeIds,
}
use ros_road_operating_syste.Contact.Runtime.Store.{Store, get_session_for_update}
use ros_road_operating_syste.Contact.Runtime.Rows.{get_session_for_update-scope}
use ros_road_operating_syste.Contact.Runtime.Due.{
  due_by, claim_due_sessions, process_due, release_lease,
}
use ros_road_operating_syste.Contact.Runtime.Writes.{IsSession, Leases, Pointwise}
use ros_road_operating_syste.Contact.Runtime.Leases.{
  map-Leases, lease_if-Leases, release_row-Leases,
}
use ros_road_operating_syste.Contact.Runtime.Invariants.{leased_row}
use ros_road_operating_syste.Contact.Runtime.Progress.Measure.{remaining}
use ros_road_operating_syste.Contact.Runtime.Progress.Ending.{
  remaining-bound, process_due-Progresses,
}

module _ (ids : RuntimeIds) (scope : ContactScope) where
  -- A run of `n` worker steps on the session of the scope: leases are claimed and released by whichever workers, a worker
  -- with the lease processes the session when its time has come, and whatever else happens leaves the session's row.
  pub data WorkerRun (start : Store) : ℕ → Store → Type 0 where
    here : WorkerRun start 0 start
    claims :
        {n : ℕ} {s : Store} (worker_id : Text) (now lease_ms limit : ℕ)
        → WorkerRun start n s
        → WorkerRun start n (claim_due_sessions worker_id now lease_ms limit s).1
    releases :
        {n : ℕ} {s : Store} (released : ContactScope) (worker_id : Text)
        → WorkerRun start n s
        → WorkerRun start n (release_lease released worker_id s)
    leaves :
        {n : ℕ} {s : Store} (t : Store)
        → get_session_for_update scope t ≡ get_session_for_update scope s
        → WorkerRun start n s
        → WorkerRun start n t
    processes :
        {n : ℕ} {s : Store} (claimed current : ContactSessionRecord) (worker_id : Text) (now : ℕ)
        → claimed.scope ≡ scope
        → get_session_for_update scope s ≡ some current
        → current.lease_owner ≡ some worker_id
        → current.automation_suppressed ≡ false
        → due_by current.next_action_at now ≡ true
        → WorkerRun start n s
        → WorkerRun start (suc n) (process_due ids claimed worker_id now s).1

  -- The session with what remains of its steps.
  record Remains (bound : ℕ) (n : ℕ) (s : Store) : Type 0 where
    session : ContactSessionRecord
    found : get_session_for_update scope s ≡ some session
    within : n + remaining session ≤ bound

  leased-Remains :
      (bound n : ℕ) (s t : Store)
      → Pointwise Leases s.sessions t.sessions
      → Remains bound n s
      → Remains bound n t
  unfolding get_session_for_update remaining
  leased-Remains bound n s t rows r =
      let (later, found, l) = leased_row scope s.sessions t.sessions r.session rows r.found in
      let a = l.state in
      let b = l.attempts in
      let c = l.schedule in
      let w = r.within in record { session = later; found = found; within = rw (a, b, c) w }

  WorkerRun-Remains :
      {start s : Store} {n bound : ℕ}
      → Remains bound 0 start
      → WorkerRun start n s
      → Remains bound n s
  unfolding claim_due_sessions release_lease
  WorkerRun-Remains r here = r
  WorkerRun-Remains {n = n} {bound = bound} r (claims {s = s} worker_id now lease_ms limit run) =
      leased-Remains bound n s _
        (map-Leases _ (λ row. lease_if-Leases _ worker_id (now + lease_ms) row) s.sessions)
        (WorkerRun-Remains r run)
  WorkerRun-Remains {n = n} {bound = bound} r (releases {s = s} released worker_id run) =
      leased-Remains bound n s _ (map-Leases _ (release_row-Leases released worker_id) s.sessions)
        (WorkerRun-Remains r run)
  WorkerRun-Remains r (leaves t same run) =
      let q = WorkerRun-Remains r run in
      record { session = q.session; found = same ∙ q.found; within = q.within }
  WorkerRun-Remains r
        (processes {n = n} {s = s} claimed current worker_id now named found leased active ready
          run) =
      let q = WorkerRun-Remains r run in
      let same : q.session ≡ current = some_inj (sym q.found ∙ found) in
      let p =
        process_due-Progresses ids claimed current worker_id now s
          (subst (λ x. get_session_for_update x s ≡ some current) (sym named) found) leased active
          ready in
      let own : current.scope ≡ scope = get_session_for_update-scope scope s current found in
      let w = q.within in
      let f : remaining p.later < remaining q.session =
        subst (λ x. remaining p.later < remaining x) (sym same) p.fewer in
      record {
        session = p.later;
        found =
            subst
              (λ x.
                get_session_for_update x (process_due ids claimed worker_id now s).1 ≡ some p.later)
              own p.found;
        within = omega arith;
      }

-- As long as only worker steps and leases change its row, a session that satisfies the constraints
-- takes no more worker steps than its measure says, which is at most twelve, whichever workers there
-- are and whatever their clocks say.
pub WorkerRun-bound :
    (ids : RuntimeIds) (scope : ContactScope) (start s : Store) (session : ContactSessionRecord)
    (n : ℕ)
    → get_session_for_update scope start ≡ some session
    → IsSession session
    → WorkerRun ids scope start n s
    → (n ≤ remaining session) × (remaining session ≤ 12)
WorkerRun-bound ids scope start s session n found ok run =
    let r =
      WorkerRun-Remains ids scope {bound = remaining session}
        (record { session = session; found = found; within = omega arith }) run in
    let w = r.within in let b = remaining-bound session ok in (omega arith, b)
