-- ===== src/Contact/Protocol/Laws.antt =====
-- packages/contracts/src/human-contact-protocol.ts: the decisions of `decideHumanContactTransition`, and its tables.
use ros_road_operating_syste.Prelude.{
  ℕ, ◌<◌, true, false, Option, none, some, List, ◌≡◌, ◌≢◌, ◌↔◌, ◌⊎◌, refl, arith,
}
use ros_road_operating_syste.Contact.Protocol.States.{
  max_automated_attempts, HumanContactState, contacting, operator_takeover, human_review, escalated,
  completed, HumanContactAuthority, role_authorities, authority_rank, first_authorized,
  HumanSafetyActorRole, operator, supervisor, safety_lead, confirmed, allows, transition_authority,
  authorized_role, holds, includes_role, same_state, state_rank,
}
use ros_road_operating_syste.Contact.Protocol.Decision.{
  decide_at, decide_authority, decide_role, decide_authorized, allow, deny, is_confirmed,
  SessionView, HumanContactTransitionContext, non_empty, is_human_state,
  decide_human_contact_transition,
}

-- A transition has a required authority exactly if the protocol allows it.
pub allows_iff_authority :
    (s t : HumanContactState) → (allows s t ≡ true) ↔ (transition_authority s t ≢ none)
unfolding allows transition_authority
allows_iff_authority s t = (λ h. ground arith, λ h. ground arith)

-- What a request for a state needs, whatever the order in which the code tests it.
pub record Approvable (current : SessionView) (requested : HumanContactState)
    (context : HumanContactTransitionContext) : Type 0 where
  pub now : ℕ
  pub timed : context.occurred_at ≡ some now
  pub fresh : context.expected_version ≡ current.version
  pub attributed :
      (non_empty context.actor_id ≡ true)
      × (non_empty context.reason ≡ true)
      × (non_empty context.trace_id ≡ true)
  pub permitted : allows current.state requested ≡ true
  pub authority : HumanContactAuthority
  pub required : transition_authority current.state requested ≡ some authority
  pub role : HumanSafetyActorRole
  pub entitled : authorized_role context.actor_roles authority ≡ some role
  pub reachable : (context.channel_healthy ≡ true) ⊎ (is_human_state requested ≡ true)
  pub accessible : (context.accessibility_satisfied ≡ true) ⊎ (is_human_state requested ≡ true)
  pub retriable : requested ≡ contacting → current.attempt_count < max_automated_attempts
  pub identified : requested ≡ completed → current.identity_confidence ≡ confirmed

decide_authorized_iff :
    (now : ℕ) (current : SessionView) (requested : HumanContactState)
    (context : HumanContactTransitionContext) (a : HumanContactAuthority) (r : HumanSafetyActorRole)
    → ((decide_authorized now current requested context a r).allowed ≡ true) ↔ (
        ((context.channel_healthy ≡ true) ⊎ (is_human_state requested ≡ true))
        × ((context.accessibility_satisfied ≡ true) ⊎ (is_human_state requested ≡ true))
        × (requested ≡ contacting → current.attempt_count < max_automated_attempts)
        × (requested ≡ completed → current.identity_confidence ≡ confirmed))
unfolding decide_authorized allow deny same_state state_rank is_human_state is_confirmed
decide_authorized_iff now current requested context a r = ground arith

decide_role-allowed :
    (now : ℕ) (current : SessionView) (requested : HumanContactState)
    (context : HumanContactTransitionContext) (a : HumanContactAuthority)
    (o : Option HumanSafetyActorRole)
    → (decide_role now current requested context a o).allowed ≡ true
    → (r : HumanSafetyActorRole) × (o ≡ some r)
      × ((decide_authorized now current requested context a r).allowed ≡ true)
unfolding decide_role deny
decide_role-allowed now current requested context a none h = ground arith
decide_role-allowed now current requested context a (some r) h = (r, refl, h)

decide_authority-allowed :
    (now : ℕ) (current : SessionView) (requested : HumanContactState)
    (context : HumanContactTransitionContext) (o : Option HumanContactAuthority)
    → (decide_authority now current requested context o).allowed ≡ true
    → (a : HumanContactAuthority) × (o ≡ some a)
      × ((decide_role now current requested context a
            (authorized_role context.actor_roles a)).allowed
          ≡ true)
unfolding decide_authority deny
decide_authority-allowed now current requested context none h = ground arith
decide_authority-allowed now current requested context (some a) h = (a, refl, h)

decide_at-allowed :
    (o : Option ℕ) (current : SessionView) (requested : HumanContactState)
    (context : HumanContactTransitionContext)
    → (decide_at o current requested context).allowed ≡ true
    → (now : ℕ) × (o ≡ some now)
      × (context.expected_version ≡ current.version)
      × ((non_empty context.actor_id ≡ true)
          × (non_empty context.reason ≡ true)
          × (non_empty context.trace_id ≡ true))
      × (allows current.state requested ≡ true)
      × ((decide_authority now current requested context
            (transition_authority current.state requested)).allowed
          ≡ true)
unfolding decide_at deny
decide_at-allowed none current requested context h = ground arith
decide_at-allowed (some now) current requested context h =
    let rest : (context.expected_version ≡ current.version)
        × ((non_empty context.actor_id ≡ true)
            × (non_empty context.reason ≡ true)
            × (non_empty context.trace_id ≡ true))
        × (allows current.state requested ≡ true)
        × ((decide_authority now current requested context
              (transition_authority current.state requested)).allowed
            ≡ true) =
      ground arith in
    let (a, b, c, d) = rest in (now, refl, a, b, c, d)

allowed-Approvable :
    (current : SessionView) (requested : HumanContactState)
    (context : HumanContactTransitionContext)
    → (decide_at context.occurred_at current requested context).allowed ≡ true
    → Approvable current requested context
allowed-Approvable current requested context h =
    let (now, timed, fresh, attributed, permitted, h1) =
      decide_at-allowed context.occurred_at current requested context h in
    let (a, required, h2) =
      decide_authority-allowed now current requested context
        (transition_authority current.state requested) h1 in
    let (r, entitled, h3) =
      decide_role-allowed now current requested context a (authorized_role context.actor_roles a)
        h2 in
    let (reachable, accessible, retriable, identified) =
      (decide_authorized_iff now current requested context a r).0 h3 in
    record {
      now = now;
      timed = timed;
      fresh = fresh;
      attributed = attributed;
      permitted = permitted;
      authority = a;
      required = required;
      role = r;
      entitled = entitled;
      reachable = reachable;
      accessible = accessible;
      retriable = retriable;
      identified = identified;
    }

Approvable-allowed :
    (current : SessionView) (requested : HumanContactState)
    (context : HumanContactTransitionContext)
    → Approvable current requested context
    → (decide_at context.occurred_at current requested context).allowed ≡ true
unfolding decide_at decide_authority decide_role
Approvable-allowed current requested context ap =
    let f = ap.fresh in
    let (x, y, z) = ap.attributed in
    let q = ap.permitted in
    let h3 =
      (decide_authorized_iff ap.now current requested context ap.authority ap.role).1
        (ap.reachable, ap.accessible, ap.retriable, ap.identified) in
    ground arith

-- A request is allowed exactly if it is approvable: in time, for the version that is current, with a named
-- actor, reason and trace, a move that the protocol has, by a role that holds its authority, over a
-- healthy and accessible channel unless a human takes over, within the retry limit, and with a
-- confirmed identity when it completes the session.
pub decide_human_contact_transition_iff :
    (current : SessionView) (requested : HumanContactState)
    (context : HumanContactTransitionContext)
    → ((decide_human_contact_transition current requested context).allowed ≡ true)
      ↔ Approvable current requested context
unfolding decide_human_contact_transition
decide_human_contact_transition_iff current requested context =
    (allowed-Approvable current requested context, Approvable-allowed current requested context)

-- A refused request leaves the state or hands the case to a human: the state that it names is the current one,
-- HUMAN_REVIEW or ESCALATED, and it sets no deadline.
pub decide_human_contact_transition-denied :
    (current : SessionView) (requested : HumanContactState)
    (context : HumanContactTransitionContext)
    → (decide_human_contact_transition current requested context).allowed ≡ false
    → let d = decide_human_contact_transition current requested context in
      ((d.next_state ≡ current.state)
        ⊎ ((d.next_state ≡ human_review) ⊎ (d.next_state ≡ escalated)))
      × (d.deadline_at ≡ none)
unfolding decide_human_contact_transition decide_at decide_authority decide_role decide_authorized
    allow deny
decide_human_contact_transition-denied current requested context h = ground arith

authorized_role_lem :
    (roles : List HumanSafetyActorRole) (a : HumanContactAuthority) (r : HumanSafetyActorRole)
    → authorized_role roles a ≡ some r
    → (includes_role roles r ≡ true) × (holds r a ≡ true)
unfolding authorized_role first_authorized
authorized_role_lem roles a r h = ground arith

human_holds :
    (s t : HumanContactState) (a : HumanContactAuthority) (r : HumanSafetyActorRole)
    (roles : List HumanSafetyActorRole)
    → transition_authority s t ≡ some a
    → holds r a ≡ true
    → includes_role roles r ≡ true
    → (t ≡ operator_takeover) ⊎ (t ≡ completed)
    → (includes_role roles operator ≡ true)
      ⊎ ((includes_role roles supervisor ≡ true) ⊎ (includes_role roles safety_lead ≡ true))
unfolding transition_authority holds role_authorities authority_rank
human_holds s t a r roles h1 h2 h3 e = ground arith

-- A request to take a session over or to complete it is allowed only if the roles of the caller include operator,
-- supervisor or safety lead.
pub human_closes_contact :
    (current : SessionView) (requested : HumanContactState)
    (context : HumanContactTransitionContext)
    → (decide_human_contact_transition current requested context).allowed ≡ true
    → (requested ≡ operator_takeover) ⊎ (requested ≡ completed)
    → (includes_role context.actor_roles operator ≡ true)
      ⊎ ((includes_role context.actor_roles supervisor ≡ true)
          ⊎ (includes_role context.actor_roles safety_lead ≡ true))
human_closes_contact current requested context h e =
    let ap = (decide_human_contact_transition_iff current requested context).0 h in
    let (among, held) = authorized_role_lem context.actor_roles ap.authority ap.role ap.entitled in
    human_holds current.state requested ap.authority ap.role context.actor_roles ap.required held
      among e

-- An allowed request enters the state that was requested.
pub decide_human_contact_transition-allowed :
    (current : SessionView) (requested : HumanContactState)
    (context : HumanContactTransitionContext)
    → (decide_human_contact_transition current requested context).allowed ≡ true
    → (decide_human_contact_transition current requested context).next_state ≡ requested
unfolding decide_human_contact_transition decide_at decide_authority decide_role decide_authorized
    allow deny
decide_human_contact_transition-allowed current requested context h = ground arith
