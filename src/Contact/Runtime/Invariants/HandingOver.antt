-- ===== src/Contact/Runtime/Invariants/HandingOver.antt =====
-- A session that was handed over, and the audit trail, under the writes of the transactions.
use ros_road_operating_syste.Prelude.{
  true, false, ◌&&◌, some, List, [], ◌∷◌, ◌++◌, ◌≡◌, ◌⊎◌, inl, inr, refl, sym, ap, subst, ◌∙◌,
  arith, Bool-cases,
}
use ros_road_operating_syste.Contact.Runtime.Records.{
  ContactScope, same_scope, ContactSessionRecord, ContactAuditEvent, ContactOutboxMessage,
}
use ros_road_operating_syste.Contact.Runtime.Store.{
  Store, get_session_for_update, insert_session, replace_row, session_row, is_pending,
}
use ros_road_operating_syste.Contact.Runtime.Rows.{
  HasNoPending, same_scope-eq, get_session-replace_row,
}
use ros_road_operating_syste.Contact.Runtime.Writes.{
  Succeeds, Leases, Delivers, Pointwise, Write, opens, advances, leases, notes, audits, sends,
  delivers, Writes, nothing, step,
}
use ros_road_operating_syste.Contact.Runtime.Invariants.Stored.{Pointwise-All}

-- An operator has the session: automation is suppressed and no message of the session waits.
pub record IsHandedOver (scope : ContactScope) (store : Store) : Type 0 where
  pub session : ContactSessionRecord
  pub found : get_session_for_update scope store ≡ some session
  pub suppressed : session.automation_suppressed ≡ true
  pub quiet : HasNoPending scope store

pub leased_row :
    (scope : ContactScope) (rows next : List ContactSessionRecord) (session : ContactSessionRecord)
    → Pointwise Leases rows next
    → session_row scope rows ≡ some session
    → (later : ContactSessionRecord) × (session_row scope next ≡ some later) × Leases session later
unfolding session_row
leased_row scope [] next session r h = let f : ⊥ = ground arith in absurd f
leased_row scope (x ∷ xs) [] session r h = absurd r
leased_row scope (x ∷ xs) (y ∷ ys) session (r, rs) h =
    elim (Bool-cases (same_scope scope x.scope)) [
      | inl e ↦
          let s = r.scope in
          let found : session_row scope (y ∷ ys) ≡ some y = ground arith in
          let same : x ≡ session = ground arith in (y, found, subst (λ q. Leases q y) same r)
      | inr e ↦
          let s = r.scope in
          let rest : session_row scope xs ≡ some session = ground arith in
          let (later, found, l) = leased_row scope xs ys session rs rest in
          let here : session_row scope (y ∷ ys) ≡ some later = ground arith in (later, here, l)
    ]

pub same_session :
    (s t : ContactScope) (a : Store) (x y : ContactSessionRecord)
    → s ≡ t
    → get_session_for_update t a ≡ some x
    → get_session_for_update s a ≡ some y
    → x.automation_suppressed ≡ y.automation_suppressed
same_session s t a x y e h k =
    let h' : get_session_for_update s a ≡ some x =
      subst (λ q. get_session_for_update q a ≡ some x) (sym e) h in
    ground arith

pub handed_over :
    (scope : ContactScope) (current next : ContactSessionRecord) (a : Store)
    → get_session_for_update next.scope a ≡ some current
    → Succeeds current next
    → IsHandedOver scope a
    → (same_scope scope next.scope ≡ true) ⊎ (same_scope scope next.scope ≡ false)
    → IsHandedOver scope (record a { sessions = replace_row next a.sessions })
handed_over scope current next a found succeeds h (inl e) =
    let same = same_scope-eq scope next.scope e in
    let g = get_session-replace_row scope current next a found in
    let later : get_session_for_update scope (record a { sessions = replace_row next a.sessions })
        ≡ some next =
      ground arith in
    let f = h.found in
    let suppressed : current.automation_suppressed ≡ true =
      same_session scope next.scope a current h.session same found h.found ∙ h.suppressed in
    record {
      session = next;
      found = later;
      suppressed = succeeds.suppressed suppressed;
      quiet = record { settled = h.quiet.settled };
    }
handed_over scope current next a found succeeds h (inr e) =
    let g = get_session-replace_row scope current next a found in
    let f = h.found in
    let later : get_session_for_update scope (record a { sessions = replace_row next a.sessions })
        ≡ some h.session =
      ground arith in
    record {
      session = h.session;
      found = later;
      suppressed = h.suppressed;
      quiet = record { settled = h.quiet.settled };
    }

-- A message is sent only for a session that no operator has.
pub other_scope :
    (scope : ContactScope) (a : Store) (session : ContactSessionRecord)
    (message : ContactOutboxMessage)
    → get_session_for_update message.scope a ≡ some session
    → session.automation_suppressed ≡ false
    → IsHandedOver scope a
    → (same_scope scope message.scope && is_pending message) ≡ false
other_scope scope a session message found active h =
    let f = h.found in
    let q = h.suppressed in
    let e = same_scope-eq scope message.scope in
    let same = λ (k : same_scope scope message.scope ≡ true).
      same_session scope message.scope a session h.session (e k) found h.found in
    ground arith

pub Write-IsHandedOver :
    {a b : Store} (scope : ContactScope) → Write a b → IsHandedOver scope a → IsHandedOver scope b
unfolding insert_session get_session_for_update session_row
Write-IsHandedOver {a} scope (opens session fresh ok active) h =
    let f = h.found in
    let e = same_scope-eq scope session.scope in
    record {
      session = h.session;
      found = ground arith;
      suppressed = h.suppressed;
      quiet = record { settled = h.quiet.settled };
    }
Write-IsHandedOver {a} scope (advances current next found succeeds) h =
    handed_over scope current next a found succeeds h (Bool-cases (same_scope scope next.scope))
Write-IsHandedOver {a} scope (leases rows r) h =
    let (later, found, l) = leased_row scope a.sessions rows h.session r h.found in
    record {
      session = later;
      found = found;
      suppressed = l.suppressed ∙ h.suppressed;
      quiet = record { settled = h.quiet.settled };
    }
Write-IsHandedOver {a} scope (notes row) h = record {
  session = h.session;
  found = h.found;
  suppressed = h.suppressed;
  quiet = record { settled = h.quiet.settled };
}
Write-IsHandedOver {a} scope (audits event) h = record {
  session = h.session;
  found = h.found;
  suppressed = h.suppressed;
  quiet = record { settled = h.quiet.settled };
}
Write-IsHandedOver {a} scope (sends session message found active ok) h = record {
  session = h.session;
  found = h.found;
  suppressed = h.suppressed;
  quiet = record {
    settled = (other_scope scope a session message found active h, h.quiet.settled);
  };
}
Write-IsHandedOver {a} scope (delivers rows r) h = record {
  session = h.session;
  found = h.found;
  suppressed = h.suppressed;
  quiet = record {
    settled =
        Pointwise-All {R = Delivers}
          {P = λ row. (same_scope scope row.scope && is_pending row) ≡ false}
          (λ x y d p. let s = d.scope in let q = d.pending in ground arith) a.outbox rows r
          h.quiet.settled;
  };
}

pub Writes-IsHandedOver :
    {a b : Store} (scope : ContactScope) → Writes a b → IsHandedOver scope a → IsHandedOver scope b
Writes-IsHandedOver scope nothing h = h
Writes-IsHandedOver scope (step k w) h = Write-IsHandedOver scope w (Writes-IsHandedOver scope k h)

-- The audit trail only grows, at its head.
pub Writes-audit :
    {a b : Store} → Writes a b → (recent : List ContactAuditEvent) × (b.audit ≡ recent ++ a.audit)
unfolding insert_session
Writes-audit nothing = ([], refl)
Writes-audit (step k (opens session fresh ok active)) = Writes-audit k
Writes-audit (step k (advances current next found succeeds)) = Writes-audit k
Writes-audit (step k (leases rows r)) = Writes-audit k
Writes-audit (step k (notes row)) = Writes-audit k
Writes-audit (step k (audits event)) =
    let (recent, h) = Writes-audit k in (event ∷ recent, ap (λ rest. event ∷ rest) h)
Writes-audit (step k (sends session message found active ok)) = Writes-audit k
Writes-audit (step k (delivers rows r)) = Writes-audit k
