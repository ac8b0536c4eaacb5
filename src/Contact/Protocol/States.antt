-- ===== src/Contact/Protocol/States.antt =====
-- packages/contracts/src/human-contact-protocol.ts: the states of a contact session, the moves that the
-- protocol allows, and the authority that each role holds.
use ros_road_operating_syste.Prelude.{
  ℕ, Bool, ◌&&◌, Option, none, some, List, [], ◌∷◌, ◌==◌, any, if◌then◌else◌,
}

abbrev pub max_automated_attempts : ℕ
max_automated_attempts = 3

abbrev pub response_deadline_ms : ℕ
response_deadline_ms = 30000

abbrev pub retry_base_delay_ms : ℕ
retry_base_delay_ms = 15000

pub data HumanContactState : Type 0 where
  created consent_pending language_selection contacting awaiting_response partial_response
        response_confirmed disconnected no_response unreachable operator_takeover human_review
        escalated completed :
      HumanContactState

pub data HumanContactLanguage : Type 0 where
  ar en unknown : HumanContactLanguage

pub data HumanContactIdentityConfidence : Type 0 where
  unverified partial confirmed : HumanContactIdentityConfidence

pub data HumanContactAuthority : Type 0 where
  start_contact record_response retry_contact escalate_contact take_over_contact complete_contact :
      HumanContactAuthority

pub data HumanSafetyActorRole : Type 0 where
  system operator supervisor safety_lead auditor simulated_channel : HumanSafetyActorRole

unfoldable pub state_rank : HumanContactState → ℕ
state_rank created = 0
state_rank consent_pending = 1
state_rank language_selection = 2
state_rank contacting = 3
state_rank awaiting_response = 4
state_rank partial_response = 5
state_rank response_confirmed = 6
state_rank disconnected = 7
state_rank no_response = 8
state_rank unreachable = 9
state_rank operator_takeover = 10
state_rank human_review = 11
state_rank escalated = 12
state_rank completed = 13

unfoldable pub same_state : HumanContactState → HumanContactState → Bool
unfolding state_rank
same_state a b = state_rank a == state_rank b

unfoldable pub authority_rank : HumanContactAuthority → ℕ
authority_rank start_contact = 0
authority_rank record_response = 1
authority_rank retry_contact = 2
authority_rank escalate_contact = 3
authority_rank take_over_contact = 4
authority_rank complete_contact = 5

role_rank : HumanSafetyActorRole → ℕ
role_rank system = 0
role_rank operator = 1
role_rank supervisor = 2
role_rank safety_lead = 3
role_rank auditor = 4
role_rank simulated_channel = 5

same_role : HumanSafetyActorRole → HumanSafetyActorRole → Bool
unfolding role_rank
same_role a b = role_rank a == role_rank b

-- HUMAN_CONTACT_ROLE_AUTHORITIES
unfoldable pub role_authorities : HumanSafetyActorRole → List HumanContactAuthority
role_authorities system = start_contact ∷ record_response ∷ retry_contact ∷ escalate_contact ∷ []
role_authorities operator =
    start_contact ∷ record_response ∷ retry_contact ∷ escalate_contact ∷ take_over_contact
    ∷ complete_contact ∷ []
role_authorities supervisor =
    start_contact ∷ record_response ∷ retry_contact ∷ escalate_contact ∷ take_over_contact
    ∷ complete_contact ∷ []
role_authorities safety_lead =
    start_contact ∷ record_response ∷ retry_contact ∷ escalate_contact ∷ take_over_contact
    ∷ complete_contact ∷ []
role_authorities auditor = []
role_authorities simulated_channel = []

-- ALLOWED
unfoldable pub allowed_states : HumanContactState → List HumanContactState
allowed_states created = consent_pending ∷ human_review ∷ escalated ∷ []
allowed_states consent_pending = language_selection ∷ human_review ∷ escalated ∷ []
allowed_states language_selection = contacting ∷ human_review ∷ escalated ∷ []
allowed_states contacting = awaiting_response ∷ human_review ∷ escalated ∷ []
allowed_states awaiting_response =
    partial_response ∷ response_confirmed ∷ disconnected ∷ no_response ∷ operator_takeover
    ∷ human_review ∷ escalated ∷ []
allowed_states partial_response =
    awaiting_response ∷ response_confirmed ∷ disconnected ∷ operator_takeover ∷ human_review
    ∷ escalated ∷ []
allowed_states response_confirmed = operator_takeover ∷ human_review ∷ escalated ∷ completed ∷ []
allowed_states disconnected = contacting ∷ operator_takeover ∷ human_review ∷ escalated ∷ []
allowed_states no_response = contacting ∷ operator_takeover ∷ human_review ∷ escalated ∷ []
allowed_states unreachable = operator_takeover ∷ human_review ∷ escalated ∷ []
allowed_states operator_takeover = human_review ∷ escalated ∷ completed ∷ []
allowed_states human_review = operator_takeover ∷ escalated ∷ completed ∷ []
allowed_states escalated = operator_takeover ∷ human_review ∷ []
allowed_states completed = human_review ∷ escalated ∷ []

unfoldable pub allows : HumanContactState → HumanContactState → Bool
unfolding allowed_states same_state
allows current requested = any (same_state requested) (allowed_states current)

-- TRANSITION_AUTHORITIES
unfoldable pub transition_authority :
    HumanContactState → HumanContactState → Option HumanContactAuthority
transition_authority created consent_pending = some start_contact
transition_authority created human_review = some escalate_contact
transition_authority created escalated = some escalate_contact
transition_authority consent_pending language_selection = some record_response
transition_authority consent_pending human_review = some escalate_contact
transition_authority consent_pending escalated = some escalate_contact
transition_authority language_selection contacting = some start_contact
transition_authority language_selection human_review = some escalate_contact
transition_authority language_selection escalated = some escalate_contact
transition_authority contacting awaiting_response = some start_contact
transition_authority contacting human_review = some escalate_contact
transition_authority contacting escalated = some escalate_contact
transition_authority awaiting_response partial_response = some record_response
transition_authority awaiting_response response_confirmed = some record_response
transition_authority awaiting_response disconnected = some record_response
transition_authority awaiting_response no_response = some record_response
transition_authority awaiting_response operator_takeover = some take_over_contact
transition_authority awaiting_response human_review = some escalate_contact
transition_authority awaiting_response escalated = some escalate_contact
transition_authority partial_response awaiting_response = some retry_contact
transition_authority partial_response response_confirmed = some record_response
transition_authority partial_response disconnected = some record_response
transition_authority partial_response operator_takeover = some take_over_contact
transition_authority partial_response human_review = some escalate_contact
transition_authority partial_response escalated = some escalate_contact
transition_authority response_confirmed operator_takeover = some take_over_contact
transition_authority response_confirmed human_review = some escalate_contact
transition_authority response_confirmed escalated = some escalate_contact
transition_authority response_confirmed completed = some complete_contact
transition_authority disconnected contacting = some retry_contact
transition_authority disconnected operator_takeover = some take_over_contact
transition_authority disconnected human_review = some escalate_contact
transition_authority disconnected escalated = some escalate_contact
transition_authority no_response contacting = some retry_contact
transition_authority no_response operator_takeover = some take_over_contact
transition_authority no_response human_review = some escalate_contact
transition_authority no_response escalated = some escalate_contact
transition_authority unreachable operator_takeover = some take_over_contact
transition_authority unreachable human_review = some escalate_contact
transition_authority unreachable escalated = some escalate_contact
transition_authority operator_takeover human_review = some escalate_contact
transition_authority operator_takeover escalated = some escalate_contact
transition_authority operator_takeover completed = some complete_contact
transition_authority human_review operator_takeover = some take_over_contact
transition_authority human_review escalated = some escalate_contact
transition_authority human_review completed = some complete_contact
transition_authority escalated operator_takeover = some take_over_contact
transition_authority escalated human_review = some escalate_contact
transition_authority completed human_review = some escalate_contact
transition_authority completed escalated = some escalate_contact
transition_authority _ _ = none

-- ROLE_PRIORITY
abbrev pub role_priority : List HumanSafetyActorRole
role_priority = safety_lead ∷ supervisor ∷ operator ∷ system ∷ auditor ∷ simulated_channel ∷ []

unfoldable pub holds : HumanSafetyActorRole → HumanContactAuthority → Bool
unfolding role_authorities authority_rank
holds role authority =
    any (λ a. authority_rank authority == authority_rank a) (role_authorities role)

unfoldable pub includes_role : List HumanSafetyActorRole → HumanSafetyActorRole → Bool
unfolding same_role
includes_role roles role = any (same_role role) roles

unfoldable pub first_authorized :
    List HumanSafetyActorRole
    → List HumanSafetyActorRole
    → HumanContactAuthority
    → Option HumanSafetyActorRole
first_authorized [] roles authority = none
first_authorized (role ∷ rest) roles authority =
    if includes_role roles role && holds role authority
    then some role
    else first_authorized rest roles authority

unfoldable pub authorized_role :
    List HumanSafetyActorRole → HumanContactAuthority → Option HumanSafetyActorRole
unfolding first_authorized
authorized_role roles authority = first_authorized role_priority roles authority
