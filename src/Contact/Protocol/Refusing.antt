-- ===== src/Contact/Protocol/Refusing.antt =====
-- When a reply is refused: packages/contracts/src/human-contact-protocol.ts, `validateHumanContactReply` and
-- `consumeHumanContactReply`.
use ros_road_operating_syste.Prelude.{
  ℕ, ◌+◌, min, true, false, Option, none, some, List, [], ◌∷◌, ◌≡◌, ◌≢◌, ◌⊎◌, ◌↔◌, refl, subst,
  arith, all,
}
use ros_road_operating_syste.Prelude.Text.{Text, units}
use ros_road_operating_syste.Prelude.Dict.{lookup}
use ros_road_operating_syste.Contact.Protocol.Replies.{
  ReplyInput, object, no_object, ReplyDecision, HumanContactReplyEnvelope, Value, Element,
  array_value, yes, no, element_text, is_reply_option, distinct, includes_option, has_unknown_key,
  valid_options, is_contradictory, reply_decision, as_reply, validate_human_contact_reply, process,
  reply_ttl_ms,
}
use ros_road_operating_syste.Contact.Protocol.Acceptance.{
  ReplyRegistry, HumanContactReplyConsumeResult, consumed, HumanContactReplyAcceptanceDecision,
  acceptance, answer, with_scope_digest, with_digest, at_times, consume_typed,
  consume_human_contact_reply, reply_key, reply_scope_key,
}

-- A structured reply: an object of known fields whose options are known, distinct, and not both YES and NO.
pub record Structured (input : ReplyInput) : Type 0 where
  pub fields : List (Text × Value)
  pub shape : input ≡ object fields
  pub known : has_unknown_key fields ≡ false
  pub elements : List Element
  pub text : Text
  pub selected : lookup (units "selectedOptions") fields ≡ some (array_value elements text)
  pub chosen : elements ≢ []
  pub once : distinct elements ≡ true
  pub listed : all (λ e. is_reply_option (element_text e)) elements ≡ true
  pub consistent :
      (includes_option yes (some (array_value elements text)) ≡ false)
      ⊎ (includes_option no (some (array_value elements text)) ≡ false)

options_of :
    (o : Option Value)
    → valid_options o ≡ true
    → (elements : List Element) × (text : Text) × (o ≡ some (array_value elements text))
      × (elements ≢ [])
      × (distinct elements ≡ true)
      × (all (λ e. is_reply_option (element_text e)) elements ≡ true)
unfolding valid_options
options_of none h = let f : ⊥ = ground arith in absurd f
options_of (some (array_value (x ∷ xs) text)) h =
    let fact : (distinct (x ∷ xs) ≡ true)
        × (all (λ e. is_reply_option (element_text e)) (x ∷ xs) ≡ true) =
      ground arith in
    (x ∷ xs, text, refl, (λ e. ground arith), fact.0, fact.1)
options_of (some _) h = let f : ⊥ = ground arith in absurd f

valid-Structured :
    (date_parse : Text → Option ℕ) (input : ReplyInput)
    → (validate_human_contact_reply date_parse input).valid ≡ true
    → Structured input
unfolding validate_human_contact_reply reply_decision is_contradictory
valid-Structured date_parse no_object h = let f : ⊥ = ground arith in absurd f
valid-Structured date_parse (object fields) h =
    let fact : (has_unknown_key fields ≡ false)
        × (valid_options (lookup (units "selectedOptions") fields) ≡ true)
        × ((includes_option yes (lookup (units "selectedOptions") fields) ≡ false)
            ⊎ (includes_option no (lookup (units "selectedOptions") fields) ≡ false)) =
      ground arith in
    let (elements, text, selected, chosen, once, listed) =
      options_of (lookup (units "selectedOptions") fields) fact.1 in
    record {
      fields = fields;
      shape = refl;
      known = fact.0;
      elements = elements;
      text = text;
      selected = selected;
      chosen = chosen;
      once = once;
      listed = listed;
      consistent =
          subst (λ o. (includes_option yes o ≡ false) ⊎ (includes_option no o ≡ false)) selected
            fact.2;
    }

-- A decision that accepts, of a consumed reply, or one that refuses, of a reply that was not consumed.
Settled : HumanContactReplyAcceptanceDecision → Type 0
Settled d =
    ((d.accepted ≡ true) × (d.disposition ≡ process) × (d.consume_result ≡ some consumed))
    ⊎ ((d.accepted ≡ false) × (d.disposition ≢ process) × (d.consume_result ≢ some consumed))

module _ (date_parse : Text → Option ℕ) (digest : Text → Option Text)
    (registry : ReplyRegistry) where
  answer-Settled :
      (a b : Text) (r : Option HumanContactReplyConsumeResult × registry.State)
      → Settled (answer date_parse digest registry a b r).0
  unfolding Settled answer acceptance
  answer-Settled a b (r, s) = ground arith

  scoped-Settled :
      (a : Text) (o : Option Text) (until clock : ℕ) (s : registry.State)
      → Settled (with_scope_digest date_parse digest registry a o until clock s).0
  unfolding Settled with_scope_digest acceptance
  scoped-Settled a none until clock s = ground arith
  scoped-Settled a (some b) until clock s =
      let deep = answer-Settled a b (
        registry.consume clock (record { reply_digest = a; scope_digest = b; expires_at = until })
          s) in
      ground arith

  digested-Settled :
      (reply : HumanContactReplyEnvelope) (o : Option Text) (until clock : ℕ) (s : registry.State)
      → Settled (with_digest date_parse digest registry reply o until clock s).0
  unfolding Settled with_digest acceptance
  digested-Settled reply none until clock s = ground arith
  digested-Settled reply (some a) until clock s =
      let deep = scoped-Settled a (digest (reply_scope_key reply)) until clock s in ground arith

  timed-Settled :
      (reply : HumanContactReplyEnvelope) (e r : Option ℕ) (clock : ℕ) (s : registry.State)
      → Settled (at_times date_parse digest registry reply e r clock s).0
  unfolding Settled at_times acceptance
  timed-Settled reply none r clock s = ground arith
  timed-Settled reply (some e) none clock s = ground arith
  timed-Settled reply (some e) (some r) clock s =
      let deep =
        digested-Settled reply (digest (reply_key reply)) (min r e + reply_ttl_ms) clock s in
      ground arith

  validated :
      (input : ReplyInput)
      → let d = validate_human_contact_reply date_parse input in
        ((d.valid ≡ true) × (d.disposition ≡ process))
        ⊎ ((d.valid ≡ false) × (d.disposition ≢ process))
  unfolding validate_human_contact_reply reply_decision
  validated no_object = ground arith
  validated (object fields) = ground arith

  accepted_typed :
      (d : ReplyDecision) (o : Option HumanContactReplyEnvelope) (e : Text) (clock : ℕ)
      (s : registry.State)
      → (consume_typed date_parse digest registry d o e clock s).0.accepted ≡ true
      → (d.valid ≡ true)
        × ((consume_typed date_parse digest registry d o e clock s).0.consume_result
            ≡ some consumed)
  unfolding consume_typed acceptance Settled
  accepted_typed d none e clock s h = let f : ⊥ = ground arith in absurd f
  accepted_typed d (some reply) e clock s h =
      let deep = timed-Settled reply (date_parse e) (date_parse reply.received_at) clock s in
      ground arith

  -- An accepted reply is structured, and the registry consumed it.
  pub reply_accepted-Structured :
      (input : ReplyInput) (e : Text) (clock : ℕ) (s : registry.State)
      → (consume_human_contact_reply date_parse digest registry input e clock s).0.accepted ≡ true
      → Structured input
        × ((consume_human_contact_reply date_parse digest registry input e clock s).0.consume_result
            ≡ some consumed)
  unfolding consume_human_contact_reply
  reply_accepted-Structured input e clock s h =
      let (valid, taken) =
        accepted_typed (validate_human_contact_reply date_parse input) (as_reply input) e clock s
          h in
      (valid-Structured date_parse input valid, taken)

  refused_typed :
      (d : ReplyDecision) (o : Option HumanContactReplyEnvelope) (e : Text) (clock : ℕ)
      (s : registry.State)
      → ((d.valid ≡ true) × (d.disposition ≡ process))
        ⊎ ((d.valid ≡ false) × (d.disposition ≢ process))
      → let a = (consume_typed date_parse digest registry d o e clock s).0 in
        ((a.accepted ≡ false) × (a.disposition ≡ process)) ↔ ((d.valid ≡ true) × (o ≡ none))
  unfolding consume_typed acceptance Settled
  refused_typed d none e clock s h = ground arith
  refused_typed d (some reply) e clock s h =
      let deep = timed-Settled reply (date_parse e) (date_parse reply.received_at) clock s in
      ground arith

  -- A refusal has the disposition PROCESS exactly if the validation passes the input and the input is not typed as an
  -- envelope is.
  pub refused_processed_iff :
      (input : ReplyInput) (e : Text) (clock : ℕ) (s : registry.State)
      → let a = (consume_human_contact_reply date_parse digest registry input e clock s).0 in
        ((a.accepted ≡ false) × (a.disposition ≡ process))
        ↔ (((validate_human_contact_reply date_parse input).valid ≡ true) × (as_reply input ≡ none))
  unfolding consume_human_contact_reply
  refused_processed_iff input e clock s =
      refused_typed (validate_human_contact_reply date_parse input) (as_reply input) e clock s
        (validated input)
