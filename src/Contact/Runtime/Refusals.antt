-- ===== src/Contact/Runtime/Refusals.antt =====
-- Who may speak for a session: the checks of `handleCallback` before anything is written.
use ros_road_operating_syste.Prelude.{
  ℕ, false, Option, none, some, ◌≡◌, ◌≢◌, ◌⊎◌, inl, inr, arith, Bool-cases, if◌then◌else◌,
}
use ros_road_operating_syste.Prelude.Text.{Text, text_eq, text_eq_iff}
use ros_road_operating_syste.Contact.Runtime.Records.{
  ContactSessionRecord, RuntimeIds, RuntimeDisposition, CallbackInput,
}
use ros_road_operating_syste.Contact.Runtime.Store.{Store, get_session_for_update, same_nullable}
use ros_road_operating_syste.Contact.Runtime.Rows.{same_nullable-eq}
use ros_road_operating_syste.Contact.Runtime.Service.{
  valid_callback, handle_callback, callback_at, callback_found,
}

-- What makes a callback speak for a session that is not its own.
pub data IsForeign (input : CallbackInput) (store : Store) : Type 0 where
  other_tenant : input.authenticated_tenant_id ≢ input.scope.tenant_id → IsForeign input store
  other_case : input.authenticated_case_id ≢ input.scope.case_id → IsForeign input store
  no_session : get_session_for_update input.scope store ≡ none → IsForeign input store
  other_owner :
      (session : ContactSessionRecord)
      → get_session_for_update input.scope store ≡ some session
      → session.owner_actor_id ≢ input.owner_actor_id
      → IsForeign input store

text_eq-different : (s t : Text) → s ≢ t → text_eq s t ≡ false
text_eq-different s t h = elim (Bool-cases (text_eq s t)) [
  | inl e ↦ absurd (h ((text_eq_iff s t).0 e))
  | inr e ↦ e
]

IsForeign-refused :
    (ids : RuntimeIds) (input : CallbackInput) (at : Option ℕ) (store : Store)
    → (valid_callback input ≡ false)
      ⊎ ((get_session_for_update input.scope store ≡ none)
          ⊎ ((session : ContactSessionRecord) × (get_session_for_update input.scope store
                ≡ some session)
              × (same_nullable session.owner_actor_id input.owner_actor_id ≡ false)))
    → (if valid_callback input
        then callback_at ids input at store
        else (RuntimeDisposition.human_review, store))
      ≡ (RuntimeDisposition.human_review, store)
unfolding callback_at callback_found
IsForeign-refused ids input none store h = ground arith
IsForeign-refused ids input (some at) store h = ground arith

invalid_tenant :
    (input : CallbackInput)
    → input.authenticated_tenant_id ≢ input.scope.tenant_id
    → valid_callback input ≡ false
unfolding valid_callback
invalid_tenant input h =
    let e = text_eq-different input.authenticated_tenant_id input.scope.tenant_id h in ground arith

invalid_case :
    (input : CallbackInput)
    → input.authenticated_case_id ≢ input.scope.case_id
    → valid_callback input ≡ false
unfolding valid_callback
invalid_case input h =
    let e = text_eq-different input.authenticated_case_id input.scope.case_id h in ground arith

different : (a b : Option Text) → a ≢ b → same_nullable a b ≡ false
different a b h = elim (Bool-cases (same_nullable a b)) [
  | inl e ↦ absurd (h (same_nullable-eq a b e))
  | inr e ↦ e
]

-- A callback that is authenticated for another tenant or case than it names, that names no session, or that comes from
-- another owner than the session's is answered HUMAN_REVIEW, and no table changes.
pub handle_callback_refuses_foreign :
    (ids : RuntimeIds) (input : CallbackInput) (store : Store)
    → IsForeign input store
    → handle_callback ids input store ≡ (RuntimeDisposition.human_review, store)
unfolding handle_callback
handle_callback_refuses_foreign ids input store foreign =
    IsForeign-refused ids input input.occurred_at store (reason foreign)
  where
    reason :
        IsForeign input store
        → (valid_callback input ≡ false)
          ⊎ ((get_session_for_update input.scope store ≡ none)
              ⊎ ((session : ContactSessionRecord) × (get_session_for_update input.scope store
                    ≡ some session)
                  × (same_nullable session.owner_actor_id input.owner_actor_id ≡ false)))
    reason (other_tenant h) = inl (invalid_tenant input h)
    reason (other_case h) = inl (invalid_case input h)
    reason (no_session h) = inr (inl h)
    reason (other_owner session found h) =
        inr (inr (session, found, different session.owner_actor_id input.owner_actor_id h))
