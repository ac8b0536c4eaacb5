-- ===== src/Contact/Runtime/Invariants/Stored.antt =====
-- The constraints of the contact tables under the writes of the transactions.
use ros_road_operating_syste.Prelude.{
  some, List, [], ◌∷◌, All, ◌≡◌, inl, inr, subst, arith, Bool-cases,
}
use ros_road_operating_syste.Contact.Runtime.Records.{
  ContactScope, same_scope, ContactSessionRecord,
}
use ros_road_operating_syste.Contact.Runtime.Store.{
  Store, get_session_for_update, insert_session, replace_row, session_row,
}
use ros_road_operating_syste.Contact.Runtime.Writes.{
  IsSession, IsMessage, IsStored, Leases, Delivers, Pointwise, Write, opens, advances, leases,
  notes, audits, sends, delivers, Writes, nothing, step,
}

pub session_row-All :
    (scope : ContactScope) (rows : List ContactSessionRecord) (row : ContactSessionRecord)
    → All IsSession rows
    → session_row scope rows ≡ some row
    → IsSession row
unfolding session_row
session_row-All scope [] row all h = let f : ⊥ = ground arith in absurd f
session_row-All scope (r ∷ rows) row (p, all) h = elim (Bool-cases (same_scope scope r.scope)) [
  | inl e ↦ let q : r ≡ row = ground arith in subst IsSession q p
  | inr e ↦ session_row-All scope rows row all (ground arith)
]

pub replace_row-All :
    (next : ContactSessionRecord) (rows : List ContactSessionRecord)
    → IsSession next
    → All IsSession rows
    → All IsSession (replace_row next rows)
unfolding replace_row
replace_row-All next [] p all = tt
replace_row-All next (r ∷ rows) p (q, all) = elim (Bool-cases (same_scope next.scope r.scope)) [
  | inl e ↦ rw e (p, all)
  | inr e ↦ rw e (q, replace_row-All next rows p all)
]

pub Pointwise-All :
    {A : Type 0} {R : A → A → Type 0} {P : A → Type 0}
    → ((x y : A) → R x y → P x → P y)
    → (xs ys : List A) → Pointwise R xs ys
    → All P xs
    → All P ys
Pointwise-All keep [] [] r all = tt
Pointwise-All keep [] (y ∷ ys) r all = absurd r
Pointwise-All keep (x ∷ xs) [] r all = absurd r
Pointwise-All {R = R} {P = P} keep (x ∷ xs) (y ∷ ys) (r, rs) (p, all) =
    (keep x y r p, Pointwise-All {R = R} {P = P} keep xs ys rs all)

-- The constraints of the tables.
pub Write-IsStored : {a b : Store} → Write a b → IsStored a → IsStored b
unfolding insert_session get_session_for_update
Write-IsStored {a} (opens session fresh ok active) s = record {
  sessions = (ok, s.sessions);
  outbox = s.outbox;
}
Write-IsStored {a} (advances current next h succeeds) s = record {
  sessions =
      replace_row-All next a.sessions
        (succeeds.constrained (session_row-All next.scope a.sessions current s.sessions h))
        s.sessions;
  outbox = s.outbox;
}
Write-IsStored {a} (leases rows r) s = record {
  sessions =
      Pointwise-All {R = Leases} {P = IsSession} (λ x y l. l.constrained) a.sessions rows r
        s.sessions;
  outbox = s.outbox;
}
Write-IsStored {a} (notes row) s = record { sessions = s.sessions; outbox = s.outbox }
Write-IsStored {a} (audits event) s = record { sessions = s.sessions; outbox = s.outbox }
Write-IsStored {a} (sends session message h active ok) s = record {
  sessions = s.sessions;
  outbox = (ok s, s.outbox);
}
Write-IsStored {a} (delivers rows r) s = record {
  sessions = s.sessions;
  outbox =
      Pointwise-All {R = Delivers} {P = IsMessage} (λ x y d. d.constrained) a.outbox rows r
        s.outbox;
}

pub Writes-IsStored : {a b : Store} → Writes a b → IsStored a → IsStored b
Writes-IsStored nothing s = s
Writes-IsStored (step k w) s = Write-IsStored w (Writes-IsStored k s)
