-- ===== src/Contact/Runtime/Commands/Opening.antt =====
-- contact-orchestration.ts: the writes of `open`.
use ros_road_operating_syste.Prelude.{
  ℕ, Option, none, some, ◌≡◌, inl, inr, refl, arith, Bool-cases, Option-cases, Loose, known,
  unknown,
}
use ros_road_operating_syste.Contact.Protocol.{HumanContactLanguage}
use ros_road_operating_syste.Contact.Runtime.Records.{
  ContactSessionRecord, ContactPromptId, RuntimeIds, OpenContactInput,
}
use ros_road_operating_syste.Contact.Runtime.Store.{
  Store, Insertion, get_session_for_update, insert_inbox_if_absent, insert_session, session_row,
  is_null,
}
use ros_road_operating_syste.Contact.Runtime.Rows.{same_scope_refl}
use ros_road_operating_syste.Contact.Runtime.Service.{
  opened, open_in, open_recorded, open_valid, open_contact, open_key, valid_open,
}
use ros_road_operating_syste.Contact.Runtime.Writes.{IsSession, opens, Writes, nothing, trans, one}
use ros_road_operating_syste.Contact.Runtime.Transactions.{
  insert_audit_if_absent-Writes, insert_inbox_if_absent-Writes, send_message-Writes,
}

pub opened-IsSession :
    (input : OpenContactInput) (language : HumanContactLanguage) (at : ℕ)
    → IsSession (opened input language at)
unfolding opened is_null
opened-IsSession input language at = record {
  versioned = omega arith;
  attempted = omega arith;
  bounded = omega arith;
  unscheduled = λ h. ground arith;
  leased = refl;
}

pub insert_session-found :
    (session : ContactSessionRecord) (store : Store)
    → get_session_for_update session.scope (insert_session session store) ≡ some session
unfolding get_session_for_update insert_session session_row
insert_session-found session store = rw (same_scope_refl session.scope) refl

pub open_in-Writes :
    (ids : RuntimeIds) (input : OpenContactInput) (language : HumanContactLanguage) (at : ℕ)
    (store : Store)
    → get_session_for_update input.scope store ≡ none
    → Writes store (open_in ids input language at store).1
unfolding open_in opened
open_in-Writes ids input language at store fresh =
    let session : ContactSessionRecord = opened input language at in
    let start : Writes store (insert_session session store) =
      one (opens session fresh (opened-IsSession input language at) refl) in
    let found : get_session_for_update session.scope (insert_session session store) ≡ some session =
      insert_session-found session store in
    trans start (
      trans
        (send_message-Writes ids session input.preferred_channel ContactPromptId.consent at
          (insert_session session store) found refl)
        (insert_audit_if_absent-Writes _ _))

pub open_contact-Writes :
    (ids : RuntimeIds) (input : OpenContactInput) (store : Store)
    → Writes store (open_contact ids input store).1
unfolding open_contact open_recorded open_valid is_null
open_contact-Writes ids input store = elim (Bool-cases (valid_open input)) [
  | inl e ↦ rw e (valid input.language input.occurred_at)
  | inr e ↦ rw e nothing
]
  where
    recorded :
        (language : HumanContactLanguage) (at : ℕ) (result : Insertion × Store)
        → Writes store result.1
        → Writes store (open_recorded ids input language at result).1
    recorded language at (Insertion.exists, later) w = w
    recorded language at (Insertion.inserted, later) w =
        elim (Option-cases (get_session_for_update input.scope later)) [
          | inl e ↦ rw e (trans w (open_in-Writes ids input language at later e))
          | inr (s, e) ↦ rw e w
        ]

    valid :
        (language : Loose HumanContactLanguage) (at : Option ℕ)
        → Writes store (open_valid ids input language at store).1
    valid (known language) (some at) =
        recorded language at (insert_inbox_if_absent input.scope (open_key input) store)
          (insert_inbox_if_absent-Writes input.scope (open_key input) store)
    valid (known language) none = nothing
    valid unknown at = nothing
