-- ===== src/RoadEvent/Authorizing.antt =====
-- packages/domain/src/road-event/road-event.ts, lines 41-57 and 160-169: the branches of `authorizeClosure`.
use ros_road_operating_syste.Prelude.{
  ℕ, true, false, ◌||◌, ltb, none, some, ◌≡◌, ◌↔◌, arith, refl, ◌⊎◌, inl, inr, Bool-cases, length,
  Option, ◌==◌,
}
use ros_road_operating_syste.Prelude.Text.{Text, trim, trim_idempotent}
use ros_road_operating_syste.Prelude.Result.{ok, err, invalid_transition, invalid_road_event}
use ros_road_operating_syste.RoadEvent.Status.{closed, may_follow}
use ros_road_operating_syste.RoadEvent.Aggregate.{
  RoadEvent, next_version, copy_authorization, require_non_empty, bad_time, ClosureAuthorization,
  authorize_closure,
}
use ros_road_operating_syste.RoadEvent.Validity.{IsName, IsPast}

-- A closure authorization that is accepted: a named actor and a reason once trimmed, and a time that is not ahead.
pub record IsAcceptable (now : ℕ) (a : ClosureAuthorization) : Type 0 where
  pub actor_id : IsName 128 (trim a.actor_id)
  pub reason : IsName 500 (trim a.reason)
  pub authorized_at : IsPast now a.authorized_at

abbrev pub trimmed : ClosureAuthorization → ClosureAuthorization
trimmed a = record {
  actor_id = trim a.actor_id;
  reason = trim a.reason;
  authorized_at = a.authorized_at;
}

IsName-cases :
    (t : Text) (most : ℕ)
    → ((require_non_empty t most ≡ ok (trim t)) × IsName most (trim t))
      ⊎ ((require_non_empty t most ≡ err invalid_road_event) × ¬ IsName most (trim t))
unfolding require_non_empty
IsName-cases t most = elim (Bool-cases (length (trim t) == 0 || ltb most (length (trim t)))) [
  | inl e ↦ inr (rw e refl, λ n. ground arith)
  | inr e ↦ inl (
    rw e refl,
    record { trimmed = trim_idempotent t; non_empty = ground arith; bounded = ground arith },
  )
]

IsPast-cases :
    (now : ℕ) (t : Option ℕ)
    → ((bad_time now t ≡ false) × IsPast now t) ⊎ ((bad_time now t ≡ true) × ¬ IsPast now t)
unfolding bad_time
IsPast-cases now none = inr (refl, λ h. h)
IsPast-cases now (some t) = ground arith

copy_authorization-cases :
    (now : ℕ) (a : ClosureAuthorization)
    → ((copy_authorization now a ≡ ok (trimmed a)) × IsAcceptable now a)
      ⊎ ((copy_authorization now a ≡ err invalid_road_event) × ¬ IsAcceptable now a)
unfolding copy_authorization
copy_authorization-cases now a = elim (IsName-cases a.actor_id 128) [
  | inr (p, q) ↦ inr (rw p refl, λ h. q h.actor_id)
  | inl (p, q) ↦ elim (IsName-cases a.reason 500) [
    | inr (p', q') ↦ inr (rw (p, p') refl, λ h. q' h.reason)
    | inl (p', q') ↦ elim (IsPast-cases now a.authorized_at) [
      | inr (p'', q'') ↦ inr (rw (p, p', p'') refl, λ h. q'' h.authorized_at)
      | inl (p'', q'') ↦
          inl (rw (p, p', p'') refl, record { actor_id = q; reason = q'; authorized_at = q'' })
    ]
  ]
]

-- A closure is authorized exactly if the transition table allows to close the event and the
-- authorization is acceptable: the event then has it with the actor and the reason trimmed, its
-- version is raised, and all else is kept. The transition error comes exactly if the table does not
-- allow to close, and the validation error exactly if it does and the authorization is not
-- acceptable.
pub authorize_closure_iff :
    (now : ℕ) (a : ClosureAuthorization) (e e' : RoadEvent)
    → ((authorize_closure now a e ≡ ok e') ↔ (
        (may_follow e.status closed ≡ true)
        × IsAcceptable now a
        × (e' ≡ record e {
          closure_authorization = some (trimmed a);
          version = next_version e.version;
        })))
      × ((authorize_closure now a e ≡ err invalid_transition)
          ↔ (may_follow e.status closed ≡ false))
      × ((authorize_closure now a e ≡ err invalid_road_event)
          ↔ ((may_follow e.status closed ≡ true) × ¬ IsAcceptable now a))
unfolding authorize_closure
authorize_closure_iff now a e e' = elim (copy_authorization-cases now a) [
  | inl (p, q) ↦ rw p (
    (λ h. (ground arith, q, ground arith), λ (m, _, s). ground arith),
    (λ h. ground arith, λ h. ground arith),
    (λ h. absurd (ground arith), λ (m, n). absurd (n q)),
  )
  | inr (p, q) ↦ rw p (
    (λ h. absurd (ground arith), λ (m, n, s). absurd (q n)),
    (λ h. ground arith, λ h. ground arith),
    (λ h. (ground arith, q), λ (m, n). ground arith),
  )
]
