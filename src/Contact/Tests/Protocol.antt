-- ===== src/Contact/Tests/Protocol.antt =====
-- The theorems about the contact protocol, at concrete requests.
use ros_road_operating_syste.Prelude.{
  ℕ, ◌+◌, ◌<◌, ◌≤◌, Bool, true, false, Option, none, some, List, [], ◌∷◌, ◌++◌, known, ◌≡◌, ◌≢◌,
  ◌↔◌, ◌⊎◌, inl, inr, refl, arith,
}
use ros_road_operating_syste.Prelude.Text.{Text, units}
use ros_road_operating_syste.Contact.Protocol.{
  HumanContactState, HumanContactLanguage, HumanContactIdentityConfidence, HumanSafetyActorRole,
  ReasonCode, ContactCallbackKind, SessionView, HumanContactTransitionContext,
  decide_human_contact_transition, allows, transition_authority, includes_role,
}
use ros_road_operating_syste.Contact.Protocol.Laws.{
  allows_iff_authority, Approvable, decide_human_contact_transition_iff,
  decide_human_contact_transition-denied, human_closes_contact,
}

abbrev pub seen : SessionView
seen = record {
  state = HumanContactState.awaiting_response;
  version = 5;
  identity_confidence = HumanContactIdentityConfidence.unverified;
  attempt_count = 1;
}

abbrev pub by_operator : HumanContactTransitionContext
by_operator = record {
  actor_id = units "operator-1";
  actor_roles = HumanSafetyActorRole.operator ∷ [];
  occurred_at = some 30000;
  reason = units "operator_takeover";
  trace_id = units "trace-3";
  channel_healthy = true;
  accessibility_satisfied = true;
  expected_version = 5;
}

abbrev pub by_system : HumanContactTransitionContext
by_system = record by_operator { actor_roles = HumanSafetyActorRole.system ∷ [] }

allows_iff_authority_example :
    (allows HumanContactState.no_response HumanContactState.contacting ≡ true)
    ↔ (transition_authority HumanContactState.no_response HumanContactState.contacting ≢ none)
allows_iff_authority_example =
    allows_iff_authority HumanContactState.no_response HumanContactState.contacting

decide_human_contact_transition_iff_example :
    ((decide_human_contact_transition seen HumanContactState.operator_takeover by_operator).allowed
      ≡ true)
    ↔ Approvable seen HumanContactState.operator_takeover by_operator
decide_human_contact_transition_iff_example =
    decide_human_contact_transition_iff seen HumanContactState.operator_takeover by_operator

operator_allowed :
    (decide_human_contact_transition seen HumanContactState.operator_takeover by_operator).allowed
    ≡ true
unfolding decide_human_contact_transition ros_road_operating_syste.Contact.Protocol.non_empty
    ros_road_operating_syste.Prelude.Text.trim allows transition_authority
    ros_road_operating_syste.Contact.Protocol.authorized_role includes_role
    ros_road_operating_syste.Contact.Protocol.holds
operator_allowed = refl

system_denied :
    (decide_human_contact_transition seen HumanContactState.operator_takeover by_system).allowed
    ≡ false
unfolding decide_human_contact_transition ros_road_operating_syste.Contact.Protocol.non_empty
    ros_road_operating_syste.Prelude.Text.trim allows transition_authority
    ros_road_operating_syste.Contact.Protocol.authorized_role includes_role
    ros_road_operating_syste.Contact.Protocol.holds
system_denied = refl

human_closes_contact_example :
    (includes_role by_operator.actor_roles HumanSafetyActorRole.operator ≡ true)
    ⊎ ((includes_role by_operator.actor_roles HumanSafetyActorRole.supervisor ≡ true)
        ⊎ (includes_role by_operator.actor_roles HumanSafetyActorRole.safety_lead ≡ true))
human_closes_contact_example =
    human_closes_contact seen HumanContactState.operator_takeover by_operator operator_allowed
      (inl refl)

decide_human_contact_transition-denied_example :
    let d = decide_human_contact_transition seen HumanContactState.operator_takeover by_system in
    ((d.next_state ≡ HumanContactState.awaiting_response)
      ⊎ ((d.next_state ≡ HumanContactState.human_review)
          ⊎ (d.next_state ≡ HumanContactState.escalated)))
    × (d.deadline_at ≡ none)
decide_human_contact_transition-denied_example =
    decide_human_contact_transition-denied seen HumanContactState.operator_takeover by_system
      system_denied
