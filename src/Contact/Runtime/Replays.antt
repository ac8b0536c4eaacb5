-- ===== src/Contact/Runtime/Replays.antt =====
-- contact-orchestration.ts: `handleCallback` and `operatorTakeover` sent again, with other transactions in between.
use ros_road_operating_syste.Prelude.{
  ℕ, true, some, List, ◌≡◌, inl, inr, refl, sym, ap, subst, ◌∙◌, arith, Option-cases,
}
use ros_road_operating_syste.Prelude.Text.{Text, text_eq_refl}
use ros_road_operating_syste.Contact.Runtime.Records.{
  ContactScope, ContactSessionRecord, RuntimeIds, RuntimeDisposition, CallbackInput,
  OperatorTakeoverInput,
}
use ros_road_operating_syste.Contact.Runtime.Store.{
  Store, Insertion, is_null, get_session_for_update, in_inbox, insert_inbox_if_absent,
  same_nullable,
}
use ros_road_operating_syste.Contact.Runtime.Rows.{same_scope_refl, same_nullable_refl}
use ros_road_operating_syste.Contact.Runtime.Service.{
  handle_callback, callback_at, callback_found, callback_recorded, callback_key, valid_callback,
  operator_takeover, takeover_at, takeover_found, takeover_recorded, takeover_key, valid_takeover,
}
use ros_road_operating_syste.Contact.Runtime.Invariants.{Writes-Continues, Writes-in_inbox}
use ros_road_operating_syste.Contact.Runtime.Commands.{
  handle_callback-Completes, operator_takeover-Completes,
}
use ros_road_operating_syste.Contact.Runtime.Commands.{
  callback_recorded-Completes, takeover_recorded-Completes, inbox-found, own_scope,
}
use ros_road_operating_syste.Contact.Runtime.Interleavings.{
  Transaction, perform_all, perform_all-Writes, perform_all-Continues,
}

insert_inbox-in_inbox :
    (scope : ContactScope) (key : Text) (store : Store)
    → in_inbox scope key (insert_inbox_if_absent scope key store).1.inbox ≡ true
unfolding insert_inbox_if_absent in_inbox
insert_inbox-in_inbox scope key store =
    let a = same_scope_refl scope in let b = text_eq_refl key in ground arith

insert_inbox-known :
    (scope : ContactScope) (key : Text) (store : Store)
    → in_inbox scope key store.inbox ≡ true
    → insert_inbox_if_absent scope key store ≡ (Insertion.exists, store)
unfolding insert_inbox_if_absent
insert_inbox-known scope key store h = rw h refl

valid_callback-timed :
    (input : CallbackInput) → valid_callback input ≡ true → (at : ℕ) × (input.occurred_at ≡ some at)
unfolding valid_callback is_null
valid_callback-timed input h = elim (Option-cases input.occurred_at) [
  | inl e ↦ let f : ⊥ = ground arith in absurd f
  | inr e ↦ e
]

handle_callback-eq :
    (ids : RuntimeIds) (input : CallbackInput) (store : Store) (session : ContactSessionRecord)
    (at : ℕ)
    → valid_callback input ≡ true
    → input.occurred_at ≡ some at
    → get_session_for_update input.scope store ≡ some session
    → session.owner_actor_id ≡ input.owner_actor_id
    → handle_callback ids input store
      ≡ callback_recorded ids session input at
          (insert_inbox_if_absent input.scope (callback_key input) store)
unfolding handle_callback callback_at callback_found
handle_callback-eq ids input store session at valid timed found owner =
    let same : same_nullable session.owner_actor_id input.owner_actor_id ≡ true =
      subst (λ q. same_nullable session.owner_actor_id q ≡ true) owner
        (same_nullable_refl session.owner_actor_id) in
    ground arith

handle_callback-known :
    (ids : RuntimeIds) (input : CallbackInput) (store : Store) (session : ContactSessionRecord)
    → valid_callback input ≡ true
    → get_session_for_update input.scope store ≡ some session
    → session.owner_actor_id ≡ input.owner_actor_id
    → in_inbox input.scope (callback_key input) store.inbox ≡ true
    → handle_callback ids input store ≡ (RuntimeDisposition.idempotent, store)
unfolding callback_recorded
handle_callback-known ids input store session valid found owner known =
    let (at, timed) = valid_callback-timed input valid in
    handle_callback-eq ids input store session at valid timed found owner
    ∙ ap (callback_recorded ids session input at)
        (insert_inbox-known input.scope (callback_key input) store known)

handle_callback-in_inbox :
    (ids : RuntimeIds) (input : CallbackInput) (store : Store) (session : ContactSessionRecord)
    → valid_callback input ≡ true
    → get_session_for_update input.scope store ≡ some session
    → session.owner_actor_id ≡ input.owner_actor_id
    → in_inbox input.scope (callback_key input) (handle_callback ids input store).1.inbox ≡ true
handle_callback-in_inbox ids input store session valid found owner =
    let (at, timed) = valid_callback-timed input valid in
    let recorded =
      callback_recorded-Completes ids session input at
        (insert_inbox_if_absent input.scope (callback_key input) store)
        (inbox-found session.scope input.scope (callback_key input) store session
          (own_scope input.scope store session found)) in
    subst (λ q. in_inbox input.scope (callback_key input) q.1.inbox ≡ true)
      (sym (handle_callback-eq ids input store session at valid timed found owner))
      (Writes-in_inbox input.scope (callback_key input) recorded.writes
        (insert_inbox-in_inbox input.scope (callback_key input) store))

-- A callback that reached its session is answered IDEMPOTENT when it comes again, however many transactions of any kind
-- ran in between, and changes nothing then.
pub handle_callback_replayed :
    (ids : RuntimeIds) (input : CallbackInput) (store : Store) (session : ContactSessionRecord)
    (ts : List Transaction)
    → valid_callback input ≡ true
    → get_session_for_update input.scope store ≡ some session
    → session.owner_actor_id ≡ input.owner_actor_id
    → let later = perform_all ids ts (handle_callback ids input store).1 in
      handle_callback ids input later ≡ (RuntimeDisposition.idempotent, later)
handle_callback_replayed ids input store session ts valid found owner =
    let after = (handle_callback ids input store).1 in
    let written = (handle_callback-Completes ids input store).writes in
    let first = Writes-Continues input.scope session written found in
    let last = perform_all-Continues ids ts after input.scope first.later first.found in
    handle_callback-known ids input (perform_all ids ts after) last.later valid last.found
      (last.owner ∙ first.owner ∙ owner)
      (Writes-in_inbox input.scope (callback_key input) (perform_all-Writes ids ts after)
        (handle_callback-in_inbox ids input store session valid found owner))

valid_takeover-timed :
    (input : OperatorTakeoverInput)
    → valid_takeover input ≡ true
    → (at : ℕ) × (input.occurred_at ≡ some at)
unfolding valid_takeover is_null
valid_takeover-timed input h = elim (Option-cases input.occurred_at) [
  | inl e ↦ let f : ⊥ = ground arith in absurd f
  | inr e ↦ e
]

pub operator_takeover-eq :
    (ids : RuntimeIds) (input : OperatorTakeoverInput) (store : Store)
    (session : ContactSessionRecord) (at : ℕ)
    → valid_takeover input ≡ true
    → input.occurred_at ≡ some at
    → get_session_for_update input.scope store ≡ some session
    → operator_takeover ids input store
      ≡ takeover_recorded ids session input at
          (insert_inbox_if_absent input.scope (takeover_key input) store)
unfolding operator_takeover takeover_at takeover_found
operator_takeover-eq ids input store session at valid timed found = ground arith

operator_takeover-known :
    (ids : RuntimeIds) (input : OperatorTakeoverInput) (store : Store)
    (session : ContactSessionRecord)
    → valid_takeover input ≡ true
    → get_session_for_update input.scope store ≡ some session
    → in_inbox input.scope (takeover_key input) store.inbox ≡ true
    → operator_takeover ids input store ≡ (RuntimeDisposition.idempotent, store)
unfolding takeover_recorded
operator_takeover-known ids input store session valid found known =
    let (at, timed) = valid_takeover-timed input valid in
    operator_takeover-eq ids input store session at valid timed found
    ∙ ap (takeover_recorded ids session input at)
        (insert_inbox-known input.scope (takeover_key input) store known)

operator_takeover-in_inbox :
    (ids : RuntimeIds) (input : OperatorTakeoverInput) (store : Store)
    (session : ContactSessionRecord)
    → valid_takeover input ≡ true
    → get_session_for_update input.scope store ≡ some session
    → in_inbox input.scope (takeover_key input) (operator_takeover ids input store).1.inbox ≡ true
operator_takeover-in_inbox ids input store session valid found =
    let (at, timed) = valid_takeover-timed input valid in
    let recorded =
      takeover_recorded-Completes ids session input at
        (insert_inbox_if_absent input.scope (takeover_key input) store)
        (inbox-found session.scope input.scope (takeover_key input) store session
          (own_scope input.scope store session found)) in
    subst (λ q. in_inbox input.scope (takeover_key input) q.1.inbox ≡ true)
      (sym (operator_takeover-eq ids input store session at valid timed found))
      (Writes-in_inbox input.scope (takeover_key input) recorded.writes
        (insert_inbox-in_inbox input.scope (takeover_key input) store))

-- A takeover that reached its session is answered IDEMPOTENT when it comes again, however many transactions of any kind
-- ran in between, and changes nothing then.
pub operator_takeover_replayed :
    (ids : RuntimeIds) (input : OperatorTakeoverInput) (store : Store)
    (session : ContactSessionRecord) (ts : List Transaction)
    → valid_takeover input ≡ true
    → get_session_for_update input.scope store ≡ some session
    → let later = perform_all ids ts (operator_takeover ids input store).1 in
      operator_takeover ids input later ≡ (RuntimeDisposition.idempotent, later)
operator_takeover_replayed ids input store session ts valid found =
    let after = (operator_takeover ids input store).1 in
    let written = (operator_takeover-Completes ids input store).writes in
    let first = Writes-Continues input.scope session written found in
    let last = perform_all-Continues ids ts after input.scope first.later first.found in
    operator_takeover-known ids input (perform_all ids ts after) last.later valid last.found (
      Writes-in_inbox input.scope (takeover_key input) (perform_all-Writes ids ts after)
        (operator_takeover-in_inbox ids input store session valid found))
