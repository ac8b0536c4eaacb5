-- ===== src/Contact/Runtime/Rows.antt =====
-- The tables of contact-orchestration-postgres.ts: what a statement leaves in the rows that it does not name.
use ros_road_operating_syste.Prelude.{
  ℕ, true, false, ◌&&◌, Option, none, some, List, [], ◌∷◌, map, All, if◌then◌else◌, ◌≡◌, refl, ap,
  arith, ==_iff,
}
use ros_road_operating_syste.Prelude.Text.{Text, text_eq_iff, text_eq_refl}
use ros_road_operating_syste.Contact.Runtime.Records.{
  ContactScope, same_scope, ContactSessionRecord, ContactOutboxMessage,
}
use ros_road_operating_syste.Contact.Runtime.Store.{
  Store, Update, get_session_for_update, session_row, replace_row, update_row, update_session,
  same_nullable, cancel_row, cancel_pending_automation, is_pending, is_null,
}

pub same_scope_refl : (a : ContactScope) → same_scope a a ≡ true
unfolding same_scope
same_scope_refl a =
    let t = text_eq_refl a.tenant_id in
    let c = text_eq_refl a.case_id in let s = text_eq_refl a.session_id in ground arith

pub same_scope-eq : (a b : ContactScope) → same_scope a b ≡ true → a ≡ b
unfolding same_scope
same_scope-eq a b h =
    let t = text_eq_iff a.tenant_id b.tenant_id in
    let c = text_eq_iff a.case_id b.case_id in
    let s = text_eq_iff a.session_id b.session_id in ground arith

pub same_nullable_refl : (a : Option Text) → same_nullable a a ≡ true
unfolding same_nullable
same_nullable_refl none = refl
same_nullable_refl (some a) = text_eq_refl a

pub same_nullable-eq : (a b : Option Text) → same_nullable a b ≡ true → a ≡ b
unfolding same_nullable
same_nullable-eq none none h = refl
same_nullable-eq none (some b) h = ground arith
same_nullable-eq (some a) none h = ground arith
same_nullable-eq (some a) (some b) h = ap some ((text_eq_iff a b).0 h)

-- The row that a lookup finds has the scope that was asked for.
session_row-scope :
    (scope : ContactScope) (rows : List ContactSessionRecord) (row : ContactSessionRecord)
    → session_row scope rows ≡ some row
    → row.scope ≡ scope
unfolding session_row
session_row-scope scope [] row h = ground arith
session_row-scope scope (r ∷ rows) row h =
    let ih = session_row-scope scope rows row in let e = same_scope-eq scope r.scope in ground arith

pub get_session_for_update-scope :
    (scope : ContactScope) (store : Store) (row : ContactSessionRecord)
    → get_session_for_update scope store ≡ some row
    → row.scope ≡ scope
unfolding get_session_for_update
get_session_for_update-scope scope store row h = session_row-scope scope store.sessions row h

-- A lookup after a replacement: the new row in its scope, the old rows elsewhere.
session_row-replace_row :
    (scope : ContactScope) (next : ContactSessionRecord) (rows : List ContactSessionRecord)
    (row : ContactSessionRecord)
    → session_row next.scope rows ≡ some row
    → session_row scope (replace_row next rows)
      ≡ (if same_scope scope next.scope then some next else session_row scope rows)
unfolding session_row replace_row
session_row-replace_row scope next [] row h = ground arith
session_row-replace_row scope next (r ∷ rows) row h =
    let ih = session_row-replace_row scope next rows row in
    let e = same_scope-eq next.scope r.scope in
    let e1 = same_scope-eq scope r.scope in
    let e2 = same_scope-eq scope next.scope in let e3 = same_scope_refl r.scope in ground arith

-- What an update of the session that a transaction has read does: it never conflicts, and only the row of its scope
-- changes.
pub update_session-read :
    (current next : ContactSessionRecord) (store : Store)
    → get_session_for_update next.scope store ≡ some current
    → next.owner_actor_id ≡ current.owner_actor_id
    → update_session next current.version store
      ≡ (Update.updated, record store { sessions = replace_row next store.sessions })
unfolding update_session update_row
update_session-read current next store h o =
    let n = same_nullable_refl current.owner_actor_id in
    let v = (==_iff current.version current.version).1 refl in ground arith

pub get_session-replace_row :
    (scope : ContactScope) (current next : ContactSessionRecord) (store : Store)
    → get_session_for_update next.scope store ≡ some current
    → get_session_for_update scope (record store { sessions = replace_row next store.sessions })
      ≡ (if same_scope scope next.scope then some next else get_session_for_update scope store)
unfolding get_session_for_update
get_session-replace_row scope current next store h =
    session_row-replace_row scope next store.sessions current h

-- No row of the scope waits for a delivery.
pub record HasNoPending (scope : ContactScope) (store : Store) : Type 0 where
  pub settled : All (λ row. (same_scope scope row.scope && is_pending row) ≡ false) store.outbox

pub cancel_row-settled :
    (scope : ContactScope) (occurred_at : ℕ) (row : ContactOutboxMessage)
    → (same_scope scope (cancel_row scope occurred_at row).scope
        && is_pending (cancel_row scope occurred_at row))
      ≡ false
unfolding cancel_row is_pending is_null
cancel_row-settled scope occurred_at row = ground arith

cancel_rows-settled :
    (scope : ContactScope) (occurred_at : ℕ) (rows : List ContactOutboxMessage)
    → All
        (λ row. (same_scope scope row.scope && is_pending row) ≡ false)
        (map (cancel_row scope occurred_at) rows)
cancel_rows-settled scope occurred_at [] = tt
cancel_rows-settled scope occurred_at (row ∷ rows) =
    (cancel_row-settled scope occurred_at row, cancel_rows-settled scope occurred_at rows)

pub cancel_pending_automation-HasNoPending :
    (scope : ContactScope) (occurred_at : ℕ) (store : Store)
    → HasNoPending scope (cancel_pending_automation scope occurred_at store)
unfolding cancel_pending_automation
cancel_pending_automation-HasNoPending scope occurred_at store = record {
  settled = cancel_rows-settled scope occurred_at store.outbox;
}
