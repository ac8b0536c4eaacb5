-- ===== src/Contact/Runtime/Delivery/Statements.antt =====
-- contact-orchestration-postgres.ts: an UPDATE of one outbox row by its primary key, and the claims.
use ros_road_operating_syste.Prelude.{
  ℕ, ◌+◌, Bool, true, false, ◌&&◌, ◌||◌, ◌==◌, leb, ltb, Option, none, some, List, [], ◌∷◌, map,
  any, take, if◌then◌else◌,
}
use ros_road_operating_syste.Prelude.Text.{Text, text_eq}
use ros_road_operating_syste.Contact.Runtime.Records.{
  ContactScope, same_scope, ContactOutboxMessage,
}
use ros_road_operating_syste.Contact.Runtime.Store.{Store, same_nullable, is_null, is_pending}
use ros_road_operating_syste.Contact.Runtime.Order.{sort_by, before_text}
use ros_road_operating_syste.Contact.Runtime.Due.{lapsed, due_by}

unfoldable pub is_message : ContactScope → Text → ContactOutboxMessage → Bool
is_message scope message_id row = same_scope scope row.scope && text_eq message_id row.message_id

unfoldable pub message_row :
    ContactScope → Text → List ContactOutboxMessage → Option ContactOutboxMessage
message_row scope message_id [] = none
message_row scope message_id (row ∷ rows) =
    if is_message scope message_id row then some row else message_row scope message_id rows

unfoldable pub find_message : ContactScope → Text → Store → Option ContactOutboxMessage
unfolding message_row
find_message scope message_id store = message_row scope message_id store.outbox

unfoldable pub put_message :
    ContactScope
    → Text
    → ContactOutboxMessage
    → List ContactOutboxMessage
    → List ContactOutboxMessage
put_message scope message_id message [] = []
put_message scope message_id message (row ∷ rows) =
    if is_message scope message_id row
    then message ∷ rows
    else row ∷ put_message scope message_id message rows

unfoldable pub alter_found :
    ContactScope
    → Text
    → (ContactOutboxMessage → Bool)
    → (ContactOutboxMessage → ContactOutboxMessage)
    → Store
    → Option ContactOutboxMessage
    → Option ContactOutboxMessage × Store
unfolding put_message
alter_found scope message_id guard change store none = (none, store)
alter_found scope message_id guard change store (some row) =
    if guard row
    then (
      some (change row),
      record store { outbox = put_message scope message_id (change row) store.outbox },
    )
    else (none, store)

-- `UPDATE ... WHERE <primary key> AND <guard> RETURNING message.*`
unfoldable pub alter :
    ContactScope
    → Text
    → (ContactOutboxMessage → Bool)
    → (ContactOutboxMessage → ContactOutboxMessage)
    → Store
    → Option ContactOutboxMessage × Store
unfolding alter_found
alter scope message_id guard change store =
    alter_found scope message_id guard change store (find_message scope message_id store)

-- A comparison with NULL is not true.
unfoldable pub past : Option ℕ → ℕ → Bool
past none now = false
past (some time) now = ltb now time

unfoldable pub not_before : Option ℕ → ℕ → Bool
not_before none now = false
not_before (some time) now = leb now time

-- `delivery_token IS NULL OR delivery_deadline_at <= now`
unfoldable pub unreserved : ContactOutboxMessage → ℕ → Bool
unreserved row now = is_null row.delivery_token || due_by row.delivery_deadline_at now

unfoldable pub is_claimable : ℕ → ContactOutboxMessage → Bool
unfolding unreserved
is_claimable now row =
    is_pending row
    && leb row.available_at now
    && (lapsed row.lease_expires_at now || due_by row.delivery_deadline_at now)
    && unreserved row now

-- `ORDER BY available_at, tenant_id, case_id, session_id, message_id`
unfoldable pub precedes : ContactOutboxMessage → ContactOutboxMessage → Bool
precedes a b =
    ltb a.available_at b.available_at
    || a.available_at == b.available_at
      && (before_text a.scope.tenant_id b.scope.tenant_id
          || text_eq a.scope.tenant_id b.scope.tenant_id
            && (before_text a.scope.case_id b.scope.case_id
                || text_eq a.scope.case_id b.scope.case_id
                  && (before_text a.scope.session_id b.scope.session_id
                      || text_eq a.scope.session_id b.scope.session_id
                        && before_text a.message_id b.message_id)))

unfoldable pub claimable_rows : ℕ → List ContactOutboxMessage → List ContactOutboxMessage
claimable_rows now [] = []
claimable_rows now (row ∷ rows) =
    let rest : List ContactOutboxMessage = claimable_rows now rows in
    if is_claimable now row then row ∷ rest else rest

unfoldable pub leased_message : Text → ℕ → ContactOutboxMessage → ContactOutboxMessage
leased_message worker_id until row = record row {
  lease_owner = some worker_id;
  lease_expires_at = some until;
  delivery_token = none;
  delivery_started_at = none;
  delivery_deadline_at = none;
}

unfoldable pub lease_message_if : Bool → Text → ℕ → ContactOutboxMessage → ContactOutboxMessage
lease_message_if true worker_id until row = leased_message worker_id until row
lease_message_if false worker_id until row = row

unfoldable pub claim_due_outbox : Text → ℕ → ℕ → ℕ → Store → List ContactOutboxMessage × Store
unfolding claimable_rows precedes lease_message_if
claim_due_outbox worker_id now lease_ms limit store =
    let due : List ContactOutboxMessage =
      take limit (sort_by precedes (claimable_rows now store.outbox)) in
    (
      map (leased_message worker_id (now + lease_ms)) due,
      record store {
        outbox =
            map
              (λ row.
                lease_message_if
                  (any (λ message. is_message message.scope message.message_id row) due) worker_id
                  (now + lease_ms) row)
              store.outbox;
      },
    )

unfoldable pub release_outbox_lease : ContactScope → Text → Text → ℕ → Store → Store
unfolding unreserved
release_outbox_lease scope message_id worker_id clock store =
    (alter scope message_id
      (λ row.
        same_nullable row.lease_owner (some worker_id) && is_pending row && unreserved row clock)
      (λ row. record row { lease_owner = none; lease_expires_at = none }) store).1
