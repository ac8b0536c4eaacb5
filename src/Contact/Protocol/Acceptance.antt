-- ===== src/Contact/Protocol/Acceptance.antt =====
-- packages/contracts/src/human-contact-protocol.ts, lines 212-233: `consumeHumanContactReply`, its digests and the
-- port of the registry of replies.
use ros_road_operating_syste.Prelude.{
  ℕ, ◌+◌, min, Bool, true, false, not, ◌&&◌, ◌||◌, ◌==◌, leb, ltb, Option, none, some, List, [],
  ◌∷◌, ◌++◌, ◌≡◌, ◌≢◌, ◌≤◌, all, length, if◌then◌else◌,
}
use ros_road_operating_syste.Prelude.Text.{Text, units}
use ros_road_operating_syste.Contact.Protocol.Replies.{
  reply_max_clock_skew_ms, reply_max_age_ms, reply_ttl_ms, reply_replay_policy_version, ReplyInput,
  ReplyDisposition, process, quarantine, human_review, ReplyReason, invalid_acceptance_time,
  reply_received_in_future, reply_too_old, invalid_reply_digest, invalid_reply_scope_digest,
  duplicate_reply, reply_registry_unavailable, reply_consumed, ReplyDecision,
  HumanContactReplyEnvelope, as_reply, validate_human_contact_reply,
}

pub data HumanContactReplyConsumeResult : Type 0 where
  consumed duplicate unavailable : HumanContactReplyConsumeResult

pub record HumanContactReplyConsumeRequest : Type 0 where
  pub reply_digest : Text
  pub scope_digest : Text
  pub expires_at : ℕ

pub record HumanContactReplyAcceptanceDecision : Type 0 where
  pub accepted : Bool
  pub disposition : ReplyDisposition
  pub reason_code : ReplyReason
  -- `none` is NOT_ATTEMPTED.
  pub consume_result : Option HumanContactReplyConsumeResult
  pub reply_digest : Option Text
  pub scope_digest : Option Text

unfoldable pub acceptance :
    Bool
    → ReplyDisposition
    → ReplyReason
    → Option HumanContactReplyConsumeResult
    → Option Text
    → Option Text
    → HumanContactReplyAcceptanceDecision
acceptance accepted disposition reason_code consume_result reply_digest scope_digest = record {
  accepted = accepted;
  disposition = disposition;
  reason_code = reason_code;
  consume_result = consume_result;
  reply_digest = reply_digest;
  scope_digest = scope_digest;
}

-- The class `[a-f0-9]` without case.
unfoldable pub is_hex_digit : ℕ → Bool
is_hex_digit c = leb b'0' c && leb c b'9' || leb b'a' c && leb c b'f' || leb b'A' c && leb c b'F'

unfoldable pub valid_digest : Text → Bool
unfolding is_hex_digit
valid_digest value = length value == 64 && all is_hex_digit value

-- Parts of a template string joined by `|`.
unfoldable pub joined : Text → List Text → Text
joined first [] = first
joined first (next ∷ rest) = first ++ units "|" ++ joined next rest

unfoldable pub reply_key : HumanContactReplyEnvelope → Text
unfolding joined
reply_key reply = joined reply_replay_policy_version (reply.reply_id ∷ [])

unfoldable pub reply_scope_key : HumanContactReplyEnvelope → Text
unfolding joined
reply_scope_key reply =
    joined reply_replay_policy_version
      (reply.session_id ∷ reply.prompt_id ∷ reply.prompt_version ∷ reply.idempotency_key ∷ [])

-- The port of the registry. Its state is its own; it reads its own clock, and a call may fail, which is `none`. It
-- remembers a consumed digest until the registration expires: `Remembers s digest until`.
pub record ReplyRegistry : Type 1 where
  pub State : Type 0
  pub consume :
      ℕ → HumanContactReplyConsumeRequest → State → Option HumanContactReplyConsumeResult × State
  pub Remembers : State → Text → ℕ → Type 0
  pub registers :
      (clock : ℕ) (request : HumanContactReplyConsumeRequest) (s : State)
      → (consume clock request s).0 ≡ some consumed
      → Remembers (consume clock request s).1 request.reply_digest request.expires_at
  pub keeps :
      (clock : ℕ) (request : HumanContactReplyConsumeRequest) (s : State) (digest : Text)
      (until : ℕ)
      → Remembers s digest until
      → Remembers (consume clock request s).1 digest until
  pub refuses :
      (clock : ℕ) (request : HumanContactReplyConsumeRequest) (s : State) (until : ℕ)
      → Remembers s request.reply_digest until
      → clock ≤ until
      → (consume clock request s).0 ≢ some consumed

module _ (date_parse : Text → Option ℕ) (digest : Text → Option Text)
    (registry : ReplyRegistry) where
  unfoldable pub answer :
      Text
      → Text
      → Option HumanContactReplyConsumeResult × registry.State
      → HumanContactReplyAcceptanceDecision × registry.State
  answer reply_digest scope_digest (none, s) =
      (acceptance false human_review reply_registry_unavailable (some unavailable) none none, s)
  answer reply_digest scope_digest (some consumed, s) = (
    acceptance true process reply_consumed (some consumed) (some reply_digest) (some scope_digest),
    s,
  )
  answer reply_digest scope_digest (some duplicate, s) = (
    acceptance false quarantine duplicate_reply (some duplicate) (some reply_digest)
        (some scope_digest),
    s,
  )
  answer reply_digest scope_digest (some result, s) = (
    acceptance false human_review reply_registry_unavailable (some result) (some reply_digest)
        (some scope_digest),
    s,
  )

  unfoldable pub with_scope_digest :
      Text
      → Option Text
      → ℕ
      → ℕ
      → registry.State
      → HumanContactReplyAcceptanceDecision × registry.State
  unfolding answer
  with_scope_digest reply_digest none expires_at clock s =
      (acceptance false human_review reply_registry_unavailable (some unavailable) none none, s)
  with_scope_digest reply_digest (some scope_digest) expires_at clock s =
      if not (valid_digest scope_digest)
      then (
        acceptance false quarantine invalid_reply_scope_digest (some unavailable)
            (some reply_digest) none,
        s,
      )
      else answer reply_digest scope_digest (
          registry.consume clock
            (record {
              reply_digest = reply_digest;
              scope_digest = scope_digest;
              expires_at = expires_at;
            })
            s)

  unfoldable pub with_digest :
      HumanContactReplyEnvelope
      → Option Text
      → ℕ
      → ℕ
      → registry.State
      → HumanContactReplyAcceptanceDecision × registry.State
  unfolding with_scope_digest
  with_digest reply none expires_at clock s =
      (acceptance false human_review reply_registry_unavailable (some unavailable) none none, s)
  with_digest reply (some reply_digest) expires_at clock s =
      if not (valid_digest reply_digest)
      then (acceptance false quarantine invalid_reply_digest (some unavailable) none none, s)
      else with_scope_digest reply_digest (digest (reply_scope_key reply)) expires_at clock s

  unfoldable pub at_times :
      HumanContactReplyEnvelope
      → Option ℕ
      → Option ℕ
      → ℕ
      → registry.State
      → HumanContactReplyAcceptanceDecision × registry.State
  unfolding with_digest
  at_times reply (some evaluated) (some received) clock s =
      if ltb (evaluated + reply_max_clock_skew_ms) received
      then (acceptance false human_review reply_received_in_future none none none, s)
      else if ltb (received + reply_max_age_ms) evaluated
      then (acceptance false quarantine reply_too_old none none none, s)
      else with_digest reply (digest (reply_key reply)) (min received evaluated + reply_ttl_ms)
          clock s
  at_times reply _ _ clock s =
      (acceptance false quarantine invalid_acceptance_time none none none, s)

  unfoldable pub consume_typed :
      ReplyDecision
      → Option HumanContactReplyEnvelope
      → Text
      → ℕ
      → registry.State
      → HumanContactReplyAcceptanceDecision × registry.State
  unfolding at_times
  consume_typed structural none evaluated_at clock s =
      (acceptance false structural.disposition structural.reason_code none none none, s)
  consume_typed structural (some reply) evaluated_at clock s =
      if not structural.valid
      then (acceptance false structural.disposition structural.reason_code none none none, s)
      else at_times reply (date_parse evaluated_at) (date_parse reply.received_at) clock s

  -- The registry's clock when it is called is an argument.
  unfoldable pub consume_human_contact_reply :
      ReplyInput → Text → ℕ → registry.State → HumanContactReplyAcceptanceDecision × registry.State
  unfolding consume_typed
  consume_human_contact_reply input evaluated_at clock s =
      consume_typed (validate_human_contact_reply date_parse input) (as_reply input) evaluated_at
        clock s
