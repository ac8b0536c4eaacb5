-- ===== src/Contact/Protocol/Once.antt =====
-- Two replies under one reply id: packages/contracts/src/human-contact-protocol.ts, `consumeHumanContactReply`.
use ros_road_operating_syste.Prelude.{
  ℕ, ◌+◌, ◌≤◌, min, true, false, Option, none, some, List, [], ◌∷◌, ◌≡◌, ◌∙◌, ◌⊎◌, inl, inr, refl,
  sym, subst, ap, arith, Bool-cases, some_inj, not_true→false,
}
use ros_road_operating_syste.Prelude.Text.{Text}
use ros_road_operating_syste.Contact.Protocol.Replies.{
  ReplyInput, ReplyDecision, HumanContactReplyEnvelope, as_reply, validate_human_contact_reply,
  reply_ttl_ms,
}
use ros_road_operating_syste.Contact.Protocol.Acceptance.{
  ReplyRegistry, HumanContactReplyConsumeRequest, HumanContactReplyConsumeResult, valid_digest,
  reply_key, reply_scope_key, answer, with_scope_digest, with_digest, at_times, consume_typed,
  consume_human_contact_reply,
}
use ros_road_operating_syste.Contact.Protocol.Accepting.{request, Accepts, accepted-Accepts}

module _ (date_parse : Text → Option ℕ) (digest : Text → Option Text)
    (registry : ReplyRegistry) where
  reply_key-same_id :
      (other reply : HumanContactReplyEnvelope)
      → other.reply_id ≡ reply.reply_id
      → reply_key other ≡ reply_key reply
  unfolding reply_key
  reply_key-same_id other reply h = rw h refl

  -- The registry after a call: as it was, or after one consumption.
  Consumes : ℕ → registry.State → registry.State → Type 0
  Consumes clock s t =
      (t ≡ s) ⊎ ((q : HumanContactReplyConsumeRequest) × (t ≡ (registry.consume clock q s).1))

  answer-state :
      (a b : Text) (r : Option HumanContactReplyConsumeResult × registry.State)
      → (answer date_parse digest registry a b r).1 ≡ r.1
  unfolding answer
  answer-state a b (r, s) = ground arith

  scoped-Consumes :
      (a : Text) (o : Option Text) (until clock : ℕ) (s : registry.State)
      → Consumes clock s (with_scope_digest date_parse digest registry a o until clock s).1
  unfolding Consumes with_scope_digest
  scoped-Consumes a none until clock s = inl refl
  scoped-Consumes a (some b) until clock s = elim (Bool-cases (valid_digest b)) [
    | inl e ↦
        let q : HumanContactReplyConsumeRequest = request date_parse digest registry a b until in
        inr (q, rw e (answer-state a b (registry.consume clock q s)))
    | inr e ↦ inl (rw e refl)
  ]

  digested-Consumes :
      (reply : HumanContactReplyEnvelope) (o : Option Text) (until clock : ℕ) (s : registry.State)
      → Consumes clock s (with_digest date_parse digest registry reply o until clock s).1
  unfolding Consumes with_digest
  digested-Consumes reply none until clock s = inl refl
  digested-Consumes reply (some a) until clock s = elim (Bool-cases (valid_digest a)) [
    | inl e ↦ rw e (scoped-Consumes a (digest (reply_scope_key reply)) until clock s)
    | inr e ↦ inl (rw e refl)
  ]

  timed-Consumes :
      (reply : HumanContactReplyEnvelope) (e r : Option ℕ) (clock : ℕ) (s : registry.State)
      → Consumes clock s (at_times date_parse digest registry reply e r clock s).1
  unfolding at_times Consumes
  timed-Consumes reply none r clock s = inl refl
  timed-Consumes reply (some e) none clock s = inl refl
  timed-Consumes reply (some e) (some r) clock s =
      let deep : Consumes clock s
          (with_digest date_parse digest registry reply (digest (reply_key reply))
            (min r e + reply_ttl_ms) clock s).1 =
        digested-Consumes reply (digest (reply_key reply)) (min r e + reply_ttl_ms) clock s in
      ground arith

  typed-Consumes :
      (d : ReplyDecision) (o : Option HumanContactReplyEnvelope) (e : Text) (clock : ℕ)
      (s : registry.State)
      → Consumes clock s (consume_typed date_parse digest registry d o e clock s).1
  unfolding Consumes consume_typed
  typed-Consumes d none e clock s = inl refl
  typed-Consumes d (some reply) e clock s = elim (Bool-cases d.valid) [
    | inl h ↦ rw h (timed-Consumes reply (date_parse e) (date_parse reply.received_at) clock s)
    | inr h ↦ inl (rw h refl)
  ]

  remembered :
      (input : ReplyInput) (e : Text) (clock : ℕ) (s : registry.State) (a : Text) (until : ℕ)
      → registry.Remembers s a until
      → registry.Remembers
          (consume_human_contact_reply date_parse digest registry input e clock s).1
          a
          until
  unfolding consume_human_contact_reply Consumes
  remembered input e clock s a until m =
      kept
        (typed-Consumes (validate_human_contact_reply date_parse input) (as_reply input) e clock s)
    where
      kept : {t : registry.State} → Consumes clock s t → registry.Remembers t a until
      kept (inl same) = subst (λ t. registry.Remembers t a until) (sym same) m
      kept (inr (q, same)) =
          subst (λ t. registry.Remembers t a until) (sym same) (registry.keeps clock q s a until m)

  -- The registry after further replies, each with its time and the registry's clock.
  unfoldable pub consume_all : List (ReplyInput × Text × ℕ) → registry.State → registry.State
  consume_all [] s = s
  consume_all ((input, e, clock) ∷ rest) s =
      consume_all rest (consume_human_contact_reply date_parse digest registry input e clock s).1

  consume_all-remembers :
      (between : List (ReplyInput × Text × ℕ)) (s : registry.State) (a : Text) (until : ℕ)
      → registry.Remembers s a until
      → registry.Remembers (consume_all between s) a until
  unfolding consume_all
  consume_all-remembers [] s a until m = m
  consume_all-remembers ((input, e, clock) ∷ rest) s a until m =
      consume_all-remembers rest _ a until (remembered input e clock s a until m)

  -- An accepted reply that is not ahead of its evaluation is registered until a TTL after it was received.
  registered_until :
      (input : ReplyInput) (reply : HumanContactReplyEnvelope) (e : Text)
      (received evaluated clock : ℕ) (s : registry.State)
      → as_reply input ≡ some reply
      → date_parse reply.received_at ≡ some received
      → date_parse e ≡ some evaluated
      → received ≤ evaluated
      → Accepts date_parse digest registry input e clock s
      → (a : Text) × (digest (reply_key reply) ≡ some a)
        × registry.Remembers
            (consume_human_contact_reply date_parse digest registry input e clock s).1
            a
            (received + reply_ttl_ms)
  registered_until input reply e received evaluated clock s typed arrived dated past ac =
      let same : ac.reply ≡ reply = some_inj (sym ac.typed ∙ typed) in
      let r : ac.received ≡ received =
        some_inj (sym ac.arrived ∙ ap (λ q. date_parse q.received_at) same ∙ arrived) in
      let v : ac.evaluated ≡ evaluated = some_inj (sym ac.dated ∙ dated) in
      let until : min ac.received ac.evaluated + reply_ttl_ms ≡ received + reply_ttl_ms =
        omega (arith, r, v, past) in
      (
        ac.reply_digest,
        sym (ap (λ q. digest (reply_key q)) same) ∙ ac.digested,
        subst (λ t. registry.Remembers t ac.reply_digest (received + reply_ttl_ms)) (sym ac.later)
            (subst (registry.Remembers _ ac.reply_digest) until
              (registry.registers clock _ s ac.registered)),
      )

  -- A reply whose digest the registry remembers until its age ends is not accepted.
  remembered_refused :
      (input : ReplyInput) (reply : HumanContactReplyEnvelope) (e a : Text)
      (earlier received again clock : ℕ) (s : registry.State)
      → as_reply input ≡ some reply
      → date_parse reply.received_at ≡ some earlier
      → earlier ≤ received
      → date_parse e ≡ some again
      → clock ≤ again
      → digest (reply_key reply) ≡ some a
      → registry.Remembers s a (received + reply_ttl_ms)
      → Accepts date_parse digest registry input e clock s
      → ⊥
  remembered_refused input reply e a earlier received again clock s typed arrived order dated behind
        digested m ac =
      let same : ac.reply ≡ reply = some_inj (sym ac.typed ∙ typed) in
      let r : ac.received ≡ earlier =
        some_inj (sym ac.arrived ∙ ap (λ q. date_parse q.received_at) same ∙ arrived) in
      let v : ac.evaluated ≡ again = some_inj (sym ac.dated ∙ dated) in
      let d : a ≡ ac.reply_digest =
        some_inj (sym digested ∙ sym (ap (λ q. digest (reply_key q)) same) ∙ ac.digested) in
      let y = ac.young in
      registry.refuses clock _ s (received + reply_ttl_ms)
        (subst (λ x. registry.Remembers s x (received + reply_ttl_ms)) d m) (omega arith)
        ac.registered

  -- A reply that was accepted, and was not received after the time at which it was evaluated, is not accepted again, nor is
  -- a reply under the same reply id that was received no later than it: whatever replies are evaluated in between,
  -- and whatever the later time is, if the registry keeps a registration until it expires and its clock is then not
  -- ahead of that time.
  pub reply_accepted_once :
      (first second : ReplyInput) (reply other : HumanContactReplyEnvelope) (e1 e2 : Text)
      (received earlier evaluated again c1 c2 : ℕ) (s : registry.State)
      (between : List (ReplyInput × Text × ℕ))
      → as_reply first ≡ some reply
      → as_reply second ≡ some other
      → other.reply_id ≡ reply.reply_id
      → date_parse reply.received_at ≡ some received
      → date_parse other.received_at ≡ some earlier
      → earlier ≤ received
      → date_parse e1 ≡ some evaluated
      → received ≤ evaluated
      → date_parse e2 ≡ some again
      → c2 ≤ again
      → (consume_human_contact_reply date_parse digest registry first e1 c1 s).0.accepted ≡ true
      → let later =
          consume_all between
            (consume_human_contact_reply date_parse digest registry first e1 c1 s).1 in
        (consume_human_contact_reply date_parse digest registry second e2 c2 later).0.accepted
        ≡ false
  reply_accepted_once first second reply other e1 e2 received earlier evaluated again c1 c2 s
        between t1 t2 same_id a1 a2 order d1 past d2 behind h =
      let (a, named, m) =
        registered_until first reply e1 received evaluated c1 s t1 a1 d1 past
          (accepted-Accepts date_parse digest registry first e1 c1 s h) in
      not_true→false _ (λ e.
        remembered_refused second other e2 a earlier received again c2 _ t2 a2 order d2 behind
          (ap digest (reply_key-same_id other reply same_id) ∙ named)
          (consume_all-remembers between _ a (received + reply_ttl_ms) m)
          (accepted-Accepts date_parse digest registry second e2 c2 _ e))
