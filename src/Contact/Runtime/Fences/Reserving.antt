-- ===== src/Contact/Runtime/Fences/Reserving.antt =====
-- contact-orchestration-postgres.ts: the reservation of a delivery.
use ros_road_operating_syste.Prelude.{
  ◌<◌, true, false, none, some, List, [], ◌∷◌, ◌≡◌, sym, subst, arith,
}
use ros_road_operating_syste.Prelude.Text.{Text}
use ros_road_operating_syste.Contact.Runtime.Records.{
  ContactScope, ContactOutboxMessage, ProcessClaimedOutboxInput,
}
use ros_road_operating_syste.Contact.Runtime.Store.{Store, is_null}
use ros_road_operating_syste.Contact.Runtime.Due.{due_by}
use ros_road_operating_syste.Contact.Runtime.Delivery.{
  is_message, message_row, find_message, put_message, is_claimable, unreserved, is_reservable,
  reserved, reserve_outbox_delivery,
}
use ros_road_operating_syste.Contact.Runtime.Fences.Cancelling.{alter-refused}
use ros_road_operating_syste.Contact.Runtime.Fences.Acknowledging.{alter-accepted}

pub message_row-is_message :
    (scope : ContactScope) (id : Text) (rows : List ContactOutboxMessage)
    (row : ContactOutboxMessage)
    → message_row scope id rows ≡ some row
    → is_message scope id row ≡ true
unfolding message_row
message_row-is_message scope id [] row h = let f : ⊥ = ground arith in absurd f
message_row-is_message scope id (r ∷ rows) row h =
    let ih = message_row-is_message scope id rows row in ground arith

pub message_row-put_message :
    (scope : ContactScope) (id : Text) (message : ContactOutboxMessage)
    (rows : List ContactOutboxMessage) (row : ContactOutboxMessage)
    → message_row scope id rows ≡ some row
    → is_message scope id message ≡ true
    → message_row scope id (put_message scope id message rows) ≡ some message
unfolding message_row put_message
message_row-put_message scope id message [] row h m = let f : ⊥ = ground arith in absurd f
message_row-put_message scope id message (r ∷ rows) row h m =
    let ih = message_row-put_message scope id message rows row in ground arith

pub reserved-is_message :
    (input : ProcessClaimedOutboxInput) (row : ContactOutboxMessage)
    → is_message input.scope input.message_id row ≡ true
    → is_message input.scope input.message_id (reserved input row) ≡ true
unfolding reserved is_message
reserved-is_message input row h = h

pub reserved-fenced :
    (input other : ProcessClaimedOutboxInput) (row : ContactOutboxMessage)
    → other.now < input.delivery_deadline_at
    → (is_reservable other (reserved input row) ≡ false)
      × (is_claimable other.now (reserved input row) ≡ false)
unfolding is_reservable is_claimable unreserved reserved is_null due_by
reserved-fenced input other row early = ground arith

pub reserve-refused :
    (input : ProcessClaimedOutboxInput) (store : Store) (row : ContactOutboxMessage)
    → find_message input.scope input.message_id store ≡ some row
    → is_reservable input row ≡ false
    → reserve_outbox_delivery input store ≡ (none, store)
unfolding reserve_outbox_delivery
reserve-refused input store row found h =
    alter-refused input.scope input.message_id (is_reservable input) (reserved input) store row
      found h

pub reserve-found :
    (input : ProcessClaimedOutboxInput) (store : Store) (row : ContactOutboxMessage)
    → find_message input.scope input.message_id store ≡ some row
    → is_reservable input row ≡ true
    → find_message input.scope input.message_id (reserve_outbox_delivery input store).1
      ≡ some (reserved input row)
unfolding reserve_outbox_delivery find_message
reserve-found input store row found h =
    let named = message_row-is_message input.scope input.message_id store.outbox row found in
    subst (λ q. message_row input.scope input.message_id q.1.outbox ≡ some (reserved input row))
      (sym (
        alter-accepted input.scope input.message_id (is_reservable input) (reserved input) store row
          found h))
      (message_row-put_message input.scope input.message_id (reserved input row) store.outbox row
        found (reserved-is_message input row named))

-- Once a delivery is reserved, a further reservation of the same message, by whichever worker and at a time before the
-- deadline of the first, finds no message and changes nothing, and the reserved row is not claimable at that time.
pub reserve_outbox_delivery_exclusive :
    (input other : ProcessClaimedOutboxInput) (store : Store) (row : ContactOutboxMessage)
    → find_message input.scope input.message_id store ≡ some row
    → is_reservable input row ≡ true
    → other.scope ≡ input.scope
    → other.message_id ≡ input.message_id
    → other.now < input.delivery_deadline_at
    → let later = (reserve_outbox_delivery input store).1 in
      (reserve_outbox_delivery other later ≡ (none, later))
      × (is_claimable other.now (reserved input row) ≡ false)
reserve_outbox_delivery_exclusive input other store row found h scope id early =
    let (r, c) = reserved-fenced input other row early in
    let later : Store = (reserve_outbox_delivery input store).1 in
    let found' : find_message other.scope other.message_id later ≡ some (reserved input row) =
      subst (λ q. find_message q other.message_id later ≡ some (reserved input row)) (sym scope)
        (subst (λ q. find_message input.scope q later ≡ some (reserved input row)) (sym id)
          (reserve-found input store row found h)) in
    (reserve-refused other later (reserved input row) found' r, c)
