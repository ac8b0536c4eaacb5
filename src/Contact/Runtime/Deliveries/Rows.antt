-- ===== src/Contact/Runtime/Deliveries/Rows.antt =====
-- contact-orchestration-postgres.ts: the writes of a statement on the rows of the outbox.
use ros_road_operating_syste.Prelude.{
  ℕ, ◌+◌, Bool, true, false, some, List, [], ◌∷◌, ◌≡◌, inl, inr, refl, sym, subst, arith,
  Bool-cases, Option-cases,
}
use ros_road_operating_syste.Prelude.Text.{Text}
use ros_road_operating_syste.Contact.Runtime.Records.{ContactScope, ContactOutboxMessage}
use ros_road_operating_syste.Contact.Runtime.Store.{Store, is_null, is_pending}
use ros_road_operating_syste.Contact.Runtime.Delivery.{
  is_message, message_row, find_message, put_message, alter_found, alter, lease_message_if,
  leased_message, claim_due_outbox,
}
use ros_road_operating_syste.Contact.Runtime.Writes.{
  Delivers, Pointwise, delivers, Writes, nothing, one,
}
use ros_road_operating_syste.Contact.Runtime.Transactions.{map-Delivers}

pub lease_message_if-Delivers :
    (b : Bool) (worker_id : Text) (until : ℕ) (row : ContactOutboxMessage)
    → Delivers row (lease_message_if b worker_id until row)
unfolding lease_message_if leased_message is_null is_pending
lease_message_if-Delivers true worker_id until row = record {
  scope = refl;
  pending = λ h. h;
  constrained = λ m. record {
    attempted = m.attempted;
    bounded = m.bounded;
    leased = refl;
    started = refl;
    fenced = refl;
    timely = λ a b p q. ground arith;
    settled = m.settled;
  };
}
lease_message_if-Delivers false worker_id until row = record {
  scope = refl;
  pending = λ h. h;
  constrained = λ m. m;
}

pub claim_due_outbox-Writes :
    (worker_id : Text) (now lease_ms limit : ℕ) (store : Store)
    → Writes store (claim_due_outbox worker_id now lease_ms limit store).1
unfolding claim_due_outbox
claim_due_outbox-Writes worker_id now lease_ms limit store = one (
    delivers _ (
      map-Delivers _ (λ row. lease_message_if-Delivers _ worker_id (now + lease_ms) row)
        store.outbox))

pub same_Delivers : (row : ContactOutboxMessage) → Delivers row row
same_Delivers row = record { scope = refl; pending = λ h. h; constrained = λ m. m }

pub same_Pointwise : (rows : List ContactOutboxMessage) → Pointwise Delivers rows rows
same_Pointwise [] = tt
same_Pointwise (row ∷ rows) = (same_Delivers row, same_Pointwise rows)

pub put_message-Delivers :
    (scope : ContactScope) (id : Text) (guard : ContactOutboxMessage → Bool)
    (change : ContactOutboxMessage → ContactOutboxMessage)
    → ((row : ContactOutboxMessage) → guard row ≡ true → Delivers row (change row))
    → (rows : List ContactOutboxMessage) (row : ContactOutboxMessage)
    → message_row scope id rows ≡ some row
    → guard row ≡ true
    → Pointwise Delivers rows (put_message scope id (change row) rows)
unfolding message_row put_message
put_message-Delivers scope id guard change h [] row found ok = tt
put_message-Delivers scope id guard change h (r ∷ rows) row found ok =
    elim (Bool-cases (is_message scope id r)) [
      | inl e ↦
          let same : row ≡ r = ground arith in
          rw e (
            subst (λ q. Delivers r (change q)) (sym same)
                (h r (subst (λ q. guard q ≡ true) same ok)),
            same_Pointwise rows,
          )
      | inr e ↦
          let rest : message_row scope id rows ≡ some row = ground arith in
          rw e (same_Delivers r, put_message-Delivers scope id guard change h rows row rest ok)
    ]

pub alter-Writes :
    (scope : ContactScope) (id : Text) (guard : ContactOutboxMessage → Bool)
    (change : ContactOutboxMessage → ContactOutboxMessage) (store : Store)
    → ((row : ContactOutboxMessage) → guard row ≡ true → Delivers row (change row))
    → Writes store (alter scope id guard change store).1
unfolding alter alter_found find_message
alter-Writes scope id guard change store h =
    elim (Option-cases (message_row scope id store.outbox)) [
      | inl e ↦ rw e nothing
      | inr (row, e) ↦ elim (Bool-cases (guard row)) [
        | inr g ↦ rw e (rw g nothing)
        | inl g ↦ rw e (
            rw g (
              one (delivers _ (put_message-Delivers scope id guard change h store.outbox row e g))))
      ]
    ]
