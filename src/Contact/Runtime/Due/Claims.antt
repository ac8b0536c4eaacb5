-- ===== src/Contact/Runtime/Due/Claims.antt =====
-- contact-orchestration-postgres.ts: the claims and the leases of sessions.
use ros_road_operating_syste.Prelude.{
  ℕ, ◌+◌, Bool, true, false, not, ◌&&◌, ◌||◌, ◌==◌, leb, ltb, Option, none, some, List, [], ◌∷◌,
  map, any, take, if◌then◌else◌,
}
use ros_road_operating_syste.Prelude.Text.{Text, text_eq}
use ros_road_operating_syste.Contact.Runtime.Records.{
  ContactScope, same_scope, ContactSessionRecord,
}
use ros_road_operating_syste.Contact.Runtime.Store.{Store, same_nullable}
use ros_road_operating_syste.Contact.Runtime.Order.{sort_by, before_text}

-- `next_action_at IS NOT NULL AND next_action_at <= now`
unfoldable pub due_by : Option ℕ → ℕ → Bool
due_by none now = false
due_by (some time) now = leb time now

-- `lease_expires_at IS NULL OR lease_expires_at <= now`
unfoldable pub lapsed : Option ℕ → ℕ → Bool
lapsed none now = true
lapsed (some time) now = leb time now

unfoldable pub is_due : ℕ → ContactSessionRecord → Bool
is_due now row =
    not row.automation_suppressed
    && due_by row.next_action_at now
    && lapsed row.lease_expires_at now

unfoldable pub or_zero : Option ℕ → ℕ
or_zero none = 0
or_zero (some time) = time

-- `ORDER BY next_action_at, tenant_id, case_id, session_id`
unfoldable pub precedes : ContactSessionRecord → ContactSessionRecord → Bool
unfolding or_zero
precedes a b =
    ltb (or_zero a.next_action_at) (or_zero b.next_action_at)
    || or_zero a.next_action_at == or_zero b.next_action_at
      && (before_text a.scope.tenant_id b.scope.tenant_id
          || text_eq a.scope.tenant_id b.scope.tenant_id
            && (before_text a.scope.case_id b.scope.case_id
                || text_eq a.scope.case_id b.scope.case_id
                  && before_text a.scope.session_id b.scope.session_id))

unfoldable pub due_rows : ℕ → List ContactSessionRecord → List ContactSessionRecord
due_rows now [] = []
due_rows now (row ∷ rows) =
    let rest : List ContactSessionRecord = due_rows now rows in
    if is_due now row then row ∷ rest else rest

unfoldable pub leased : Text → ℕ → ContactSessionRecord → ContactSessionRecord
leased worker_id until row = record row {
  lease_owner = some worker_id;
  lease_expires_at = some until;
}

unfoldable pub lease_if : Bool → Text → ℕ → ContactSessionRecord → ContactSessionRecord
lease_if true worker_id until row = leased worker_id until row
lease_if false worker_id until row = row

unfoldable pub among : List ContactSessionRecord → ContactSessionRecord → Bool
among rows row = any (λ due. same_scope due.scope row.scope) rows

unfoldable pub claim_due_sessions : Text → ℕ → ℕ → ℕ → Store → List ContactSessionRecord × Store
unfolding due_rows precedes lease_if among
claim_due_sessions worker_id now lease_ms limit store =
    let due : List ContactSessionRecord =
      take limit (sort_by precedes (due_rows now store.sessions)) in
    (
      map (leased worker_id (now + lease_ms)) due,
      record store {
        sessions =
            map (λ row. lease_if (among due row) worker_id (now + lease_ms) row) store.sessions;
      },
    )

unfoldable pub release_row : ContactScope → Text → ContactSessionRecord → ContactSessionRecord
release_row scope worker_id row =
    if same_scope scope row.scope && same_nullable row.lease_owner (some worker_id)
    then record row { lease_owner = none; lease_expires_at = none }
    else row

unfoldable pub release_lease : ContactScope → Text → Store → Store
release_lease scope worker_id store = record store {
  sessions = map (release_row scope worker_id) store.sessions;
}
