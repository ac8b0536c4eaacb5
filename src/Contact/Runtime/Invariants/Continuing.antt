-- ===== src/Contact/Runtime/Invariants/Continuing.antt =====
-- A session and the inbox under the writes of the transactions.
use ros_road_operating_syste.Prelude.{
  ◌≤◌, true, false, some, ◌≡◌, ◌⊎◌, inl, inr, refl, subst, ◌∙◌, arith, Bool-cases,
}
use ros_road_operating_syste.Prelude.Text.{Text}
use ros_road_operating_syste.Contact.Runtime.Records.{
  ContactScope, same_scope, ContactSessionRecord,
}
use ros_road_operating_syste.Contact.Runtime.Store.{
  Store, get_session_for_update, insert_session, replace_row, session_row, in_inbox,
}
use ros_road_operating_syste.Contact.Runtime.Rows.{same_scope-eq, get_session-replace_row}
use ros_road_operating_syste.Contact.Runtime.Writes.{
  Succeeds, Write, opens, advances, leases, notes, audits, sends, delivers, Writes, nothing, step,
}
use ros_road_operating_syste.Contact.Runtime.Invariants.HandingOver.{leased_row}

-- What becomes of a session that a store has: it stays, its owner is the same, its version never decreases, and
-- automation that was suppressed stays suppressed.
pub record Continues (session : ContactSessionRecord) (scope : ContactScope) (store : Store)
    : Type 0 where
  pub later : ContactSessionRecord
  pub found : get_session_for_update scope store ≡ some later
  pub owner : later.owner_actor_id ≡ session.owner_actor_id
  pub version : session.version ≤ later.version
  pub suppressed : session.automation_suppressed ≡ true → later.automation_suppressed ≡ true

pub continued :
    (scope : ContactScope) (current next x : ContactSessionRecord) (a : Store)
    → get_session_for_update next.scope a ≡ some current
    → Succeeds current next
    → get_session_for_update scope a ≡ some x
    → (same_scope scope next.scope ≡ true) ⊎ (same_scope scope next.scope ≡ false)
    → Continues x scope (record a { sessions = replace_row next a.sessions })
continued scope current next x a found succeeds h (inl e) =
    let g = get_session-replace_row scope current next a found in
    let same = same_scope-eq scope next.scope e in
    let later : get_session_for_update scope (record a { sessions = replace_row next a.sessions })
        ≡ some next =
      ground arith in
    let h' : get_session_for_update next.scope a ≡ some x =
      subst (λ q. get_session_for_update q a ≡ some x) same h in
    let cx : current ≡ x = ground arith in
    subst (λ q. Continues q scope (record a { sessions = replace_row next a.sessions })) cx
      (record {
        later = next;
        found = later;
        owner = succeeds.owner;
        version = let v = succeeds.version in omega arith;
        suppressed = succeeds.suppressed;
      })
continued scope current next x a found succeeds h (inr e) =
    let g = get_session-replace_row scope current next a found in
    let later : get_session_for_update scope (record a { sessions = replace_row next a.sessions })
        ≡ some x =
      ground arith in
    record { later = x; found = later; owner = refl; version = omega arith; suppressed = λ q. q }

pub Write-Continues :
    {a b : Store} (scope : ContactScope) (x : ContactSessionRecord)
    → Write a b
    → get_session_for_update scope a ≡ some x
    → Continues x scope b
unfolding insert_session get_session_for_update session_row
Write-Continues {a} scope x (opens session fresh ok active) h =
    let e = same_scope-eq scope session.scope in
    record {
      later = x;
      found = ground arith;
      owner = refl;
      version = omega arith;
      suppressed = λ q. q;
    }
Write-Continues {a} scope x (advances current next found succeeds) h =
    continued scope current next x a found succeeds h (Bool-cases (same_scope scope next.scope))
Write-Continues {a} scope x (leases rows r) h =
    let (later, found, l) = leased_row scope a.sessions rows x r h in
    record {
      later = later;
      found = found;
      owner = l.owner;
      version = let v = l.version in omega arith;
      suppressed = λ q. l.suppressed ∙ q;
    }
Write-Continues {a} scope x (notes row) h = record {
  later = x;
  found = h;
  owner = refl;
  version = omega arith;
  suppressed = λ q. q;
}
Write-Continues {a} scope x (audits event) h = record {
  later = x;
  found = h;
  owner = refl;
  version = omega arith;
  suppressed = λ q. q;
}
Write-Continues {a} scope x (sends session message found active ok) h = record {
  later = x;
  found = h;
  owner = refl;
  version = omega arith;
  suppressed = λ q. q;
}
Write-Continues {a} scope x (delivers rows r) h = record {
  later = x;
  found = h;
  owner = refl;
  version = omega arith;
  suppressed = λ q. q;
}

pub Writes-Continues :
    {a b : Store} (scope : ContactScope) (x : ContactSessionRecord)
    → Writes a b
    → get_session_for_update scope a ≡ some x
    → Continues x scope b
Writes-Continues scope x nothing h = record {
  later = x;
  found = h;
  owner = refl;
  version = omega arith;
  suppressed = λ q. q;
}
Writes-Continues scope x (step k w) h =
    let c = Writes-Continues scope x k h in
    let d = Write-Continues scope c.later w c.found in
    record {
      later = d.later;
      found = d.found;
      owner = d.owner ∙ c.owner;
      version = let p = c.version in let q = d.version in omega arith;
      suppressed = λ s. d.suppressed (c.suppressed s);
    }

-- The inbox forgets no key.
pub Writes-in_inbox :
    {a b : Store} (scope : ContactScope) (key : Text)
    → Writes a b
    → in_inbox scope key a.inbox ≡ true
    → in_inbox scope key b.inbox ≡ true
unfolding insert_session in_inbox
Writes-in_inbox scope key nothing h = h
Writes-in_inbox scope key (step k (opens session fresh ok active)) h = Writes-in_inbox scope key k h
Writes-in_inbox scope key (step k (advances current next found succeeds)) h =
    Writes-in_inbox scope key k h
Writes-in_inbox scope key (step k (leases rows r)) h = Writes-in_inbox scope key k h
Writes-in_inbox scope key (step k (notes row)) h =
    let ih = Writes-in_inbox scope key k h in ground arith
Writes-in_inbox scope key (step k (audits event)) h = Writes-in_inbox scope key k h
Writes-in_inbox scope key (step k (sends session message found active ok)) h =
    Writes-in_inbox scope key k h
Writes-in_inbox scope key (step k (delivers rows r)) h = Writes-in_inbox scope key k h
