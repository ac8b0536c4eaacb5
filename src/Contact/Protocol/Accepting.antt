-- ===== src/Contact/Protocol/Accepting.antt =====
-- What an accepted reply went through: packages/contracts/src/human-contact-protocol.ts, `consumeHumanContactReply`.
use ros_road_operating_syste.Prelude.{
  ℕ, ◌+◌, ◌≤◌, min, true, Option, none, some, ◌≡◌, ◌∙◌, refl, arith,
}
use ros_road_operating_syste.Prelude.Text.{Text}
use ros_road_operating_syste.Contact.Protocol.Replies.{
  ReplyInput, ReplyDecision, HumanContactReplyEnvelope, as_reply, validate_human_contact_reply,
  reply_max_age_ms, reply_max_clock_skew_ms, reply_ttl_ms,
}
use ros_road_operating_syste.Contact.Protocol.Acceptance.{
  ReplyRegistry, HumanContactReplyConsumeRequest, HumanContactReplyConsumeResult, consumed,
  acceptance, reply_key, reply_scope_key, answer, with_scope_digest, with_digest, at_times,
  consume_typed, consume_human_contact_reply,
}

module _ (date_parse : Text → Option ℕ) (digest : Text → Option Text)
    (registry : ReplyRegistry) where
  abbrev pub request : Text → Text → ℕ → HumanContactReplyConsumeRequest
  request a b until = record { reply_digest = a; scope_digest = b; expires_at = until }

  -- What an accepted reply went through: its envelope, its times, its digests, and the registry that consumed it.
  pub record Accepts (input : ReplyInput) (evaluated_at : Text) (clock : ℕ) (s : registry.State)
      : Type 0 where
    pub reply : HumanContactReplyEnvelope
    pub typed : as_reply input ≡ some reply
    pub evaluated : ℕ
    pub received : ℕ
    pub dated : date_parse evaluated_at ≡ some evaluated
    pub arrived : date_parse reply.received_at ≡ some received
    pub young : evaluated ≤ received + reply_max_age_ms
    pub reply_digest : Text
    pub digested : digest (reply_key reply) ≡ some reply_digest
    pub scope_digest : Text
    pub registered :
        (registry.consume clock
          (request reply_digest scope_digest (min received evaluated + reply_ttl_ms))
          s).0
        ≡ some consumed
    pub later :
        (consume_human_contact_reply date_parse digest registry input evaluated_at clock s).1
        ≡ (registry.consume clock
            (request reply_digest scope_digest (min received evaluated + reply_ttl_ms))
            s).1

  answered_consumed :
      (a b : Text) (r : Option HumanContactReplyConsumeResult × registry.State)
      → (answer date_parse digest registry a b r).0.accepted ≡ true
      → (r.0 ≡ some consumed) × ((answer date_parse digest registry a b r).1 ≡ r.1)
  unfolding answer acceptance
  answered_consumed a b (r, s) h = ground arith

  scoped_consumed :
      (a : Text) (o : Option Text) (until clock : ℕ) (s : registry.State)
      → (with_scope_digest date_parse digest registry a o until clock s).0.accepted ≡ true
      → (b : Text) × ((registry.consume clock (request a b until) s).0 ≡ some consumed)
        × ((with_scope_digest date_parse digest registry a o until clock s).1
            ≡ (registry.consume clock (request a b until) s).1)
  unfolding with_scope_digest acceptance
  scoped_consumed a none until clock s h = let f : ⊥ = ground arith in absurd f
  scoped_consumed a (some b) until clock s h =
      let r : Option HumanContactReplyConsumeResult × registry.State =
        registry.consume clock (request a b until) s in
      let fact : ((answer date_parse digest registry a b r).0.accepted ≡ true)
          × ((with_scope_digest date_parse digest registry a (some b) until clock s).1
              ≡ (answer date_parse digest registry a b r).1) =
        ground arith in
      let (taken, same) = answered_consumed a b r fact.0 in (b, taken, fact.1 ∙ same)

  digested_consumed :
      (reply : HumanContactReplyEnvelope) (o : Option Text) (until clock : ℕ) (s : registry.State)
      → (with_digest date_parse digest registry reply o until clock s).0.accepted ≡ true
      → (a : Text) × (o ≡ some a)
        × (b : Text) × ((registry.consume clock (request a b until) s).0 ≡ some consumed)
        × ((with_digest date_parse digest registry reply o until clock s).1
            ≡ (registry.consume clock (request a b until) s).1)
  unfolding with_digest acceptance
  digested_consumed reply none until clock s h = let f : ⊥ = ground arith in absurd f
  digested_consumed reply (some a) until clock s h =
      let o : Option Text = digest (reply_scope_key reply) in
      let fact : ((with_scope_digest date_parse digest registry a o until clock s).0.accepted
            ≡ true)
          × ((with_digest date_parse digest registry reply (some a) until clock s).1
              ≡ (with_scope_digest date_parse digest registry a o until clock s).1) =
        ground arith in
      let (b, taken, same) = scoped_consumed a o until clock s fact.0 in
      (a, refl, b, taken, fact.1 ∙ same)

  timed_consumed :
      (reply : HumanContactReplyEnvelope) (e r : Option ℕ) (clock : ℕ) (s : registry.State)
      → (at_times date_parse digest registry reply e r clock s).0.accepted ≡ true
      → (evaluated received : ℕ) × (e ≡ some evaluated)
        × (r ≡ some received)
        × (evaluated ≤ received + reply_max_age_ms)
        × (received ≤ evaluated + reply_max_clock_skew_ms)
        × (a : Text) × (digest (reply_key reply) ≡ some a)
        × (b : Text) × ((registry.consume clock
              (request a b (min received evaluated + reply_ttl_ms))
              s).0
            ≡ some consumed)
        × ((at_times date_parse digest registry reply e r clock s).1
            ≡ (registry.consume clock (request a b (min received evaluated + reply_ttl_ms)) s).1)
  unfolding at_times acceptance
  timed_consumed reply none r clock s h = let f : ⊥ = ground arith in absurd f
  timed_consumed reply (some e) none clock s h = let f : ⊥ = ground arith in absurd f
  timed_consumed reply (some e) (some r) clock s h =
      let o : Option Text = digest (reply_key reply) in
      let until : ℕ = min r e + reply_ttl_ms in
      let fact : (e ≤ r + reply_max_age_ms)
          × (r ≤ e + reply_max_clock_skew_ms)
          × ((with_digest date_parse digest registry reply o until clock s).0.accepted ≡ true)
          × ((at_times date_parse digest registry reply (some e) (some r) clock s).1
              ≡ (with_digest date_parse digest registry reply o until clock s).1) =
        ground arith in
      let (young, near, good, path) = fact in
      let (a, named, b, taken, same) = digested_consumed reply o until clock s good in
      (e, r, refl, refl, young, near, a, named, b, taken, path ∙ same)

  typed_consumed :
      (d : ReplyDecision) (o : Option HumanContactReplyEnvelope) (e : Text) (clock : ℕ)
      (s : registry.State)
      → (consume_typed date_parse digest registry d o e clock s).0.accepted ≡ true
      → (reply : HumanContactReplyEnvelope) × (o ≡ some reply)
        × ((at_times date_parse digest registry reply
              (date_parse e)
              (date_parse reply.received_at)
              clock
              s).0.accepted
            ≡ true)
        × ((consume_typed date_parse digest registry d o e clock s).1
            ≡ (at_times date_parse digest registry reply
                (date_parse e)
                (date_parse reply.received_at)
                clock
                s).1)
  unfolding consume_typed acceptance
  typed_consumed d none e clock s h = let f : ⊥ = ground arith in absurd f
  typed_consumed d (some reply) e clock s h =
      let fact : ((at_times date_parse digest registry reply (date_parse e)
              (date_parse reply.received_at) clock s).0.accepted
            ≡ true)
          × ((consume_typed date_parse digest registry d (some reply) e clock s).1
              ≡ (at_times date_parse digest registry reply (date_parse e)
                  (date_parse reply.received_at) clock s).1) =
        ground arith in
      (reply, refl, fact.0, fact.1)

  pub accepted-Accepts :
      (input : ReplyInput) (e : Text) (clock : ℕ) (s : registry.State)
      → (consume_human_contact_reply date_parse digest registry input e clock s).0.accepted ≡ true
      → Accepts input e clock s
  unfolding consume_human_contact_reply
  accepted-Accepts input e clock s h =
      let (reply, typed, good, path) =
        typed_consumed (validate_human_contact_reply date_parse input) (as_reply input) e clock s
          h in
      let (evaluated, received, dated, arrived, young, near, a, named, b, taken, same) =
        timed_consumed reply (date_parse e) (date_parse reply.received_at) clock s good in
      record {
        reply = reply;
        typed = typed;
        evaluated = evaluated;
        received = received;
        dated = dated;
        arrived = arrived;
        young = young;
        reply_digest = a;
        digested = named;
        scope_digest = b;
        registered = taken;
        later = path ∙ same;
      }
