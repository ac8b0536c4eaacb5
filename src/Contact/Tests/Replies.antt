-- ===== src/Contact/Tests/Replies.antt =====
-- Runs of the acceptance of replies over a registry in memory, and the theorems about it at a concrete reply.
use ros_road_operating_syste.Prelude.{
  ℕ, ◌+◌, ◌*◌, ◌≤◌, ◌%◌, Bool, true, false, ◌&&◌, ◌||◌, Option, none, some, List, [], ◌∷◌, ◌≡◌, ◌≢◌,
  ◌↔◌, zero, suc, refl, arith, any, leb, length, if◌then◌else◌,
}
use ros_road_operating_syste.Prelude.Text.{Text, units, text_eq, text_eq_refl}
use ros_road_operating_syste.Prelude.Number.{whole}
use ros_road_operating_syste.Contact.Protocol.Replies.{
  ReplyInput, object, Value, text_value, number_value, array_value, text_element,
  HumanContactReplyEnvelope, as_reply, process, validate_human_contact_reply,
}
use ros_road_operating_syste.Contact.Protocol.Acceptance.{
  ReplyRegistry, HumanContactReplyConsumeRequest, HumanContactReplyConsumeResult, consumed,
  duplicate, consume_human_contact_reply,
}
use ros_road_operating_syste.Contact.Protocol.Once.{consume_all, reply_accepted_once}
use ros_road_operating_syste.Contact.Protocol.Refusing.{
  Structured, reply_accepted-Structured, refused_processed_iff,
}

-- A registry that keeps each digest with the time at which its registration expires.
unfoldable live : Text → ℕ → List (Text × ℕ) → Bool
live digest clock [] = false
live digest clock ((d, until) ∷ s) = text_eq d digest && leb clock until || live digest clock s

unfoldable consume_in :
    ℕ
    → HumanContactReplyConsumeRequest
    → List (Text × ℕ)
    → Option HumanContactReplyConsumeResult × List (Text × ℕ)
unfolding live
consume_in clock request s =
    if live request.reply_digest clock s
    then (some duplicate, s)
    else (some consumed, (request.reply_digest, request.expires_at) ∷ s)

live-earlier :
    (digest : Text) (clock until : ℕ) (s : List (Text × ℕ))
    → clock ≤ until
    → live digest until s ≡ true
    → live digest clock s ≡ true
unfolding live
live-earlier digest clock until [] le h = let f : ⊥ = ground arith in absurd f
live-earlier digest clock until ((d, u) ∷ s) le h =
    ground (arith, live-earlier digest clock until s le)

consume_in-registers :
    (clock : ℕ) (request : HumanContactReplyConsumeRequest) (s : List (Text × ℕ))
    → (consume_in clock request s).0 ≡ some consumed
    → live request.reply_digest request.expires_at (consume_in clock request s).1 ≡ true
unfolding consume_in live
consume_in-registers clock request s h = ground (arith, text_eq_refl request.reply_digest)

consume_in-keeps :
    (clock : ℕ) (request : HumanContactReplyConsumeRequest) (s : List (Text × ℕ)) (digest : Text)
    (until : ℕ)
    → live digest until s ≡ true
    → live digest until (consume_in clock request s).1 ≡ true
unfolding consume_in live
consume_in-keeps clock request s digest until h = ground arith

consume_in-refuses :
    (clock : ℕ) (request : HumanContactReplyConsumeRequest) (s : List (Text × ℕ)) (until : ℕ)
    → live request.reply_digest until s ≡ true
    → clock ≤ until
    → (consume_in clock request s).0 ≢ some consumed
unfolding consume_in
consume_in-refuses clock request s until h le =
    let known = live-earlier request.reply_digest clock until s le h in ground arith

abbrev registry : ReplyRegistry
registry = record {
  State = List (Text × ℕ);
  consume = consume_in;
  Remembers = λ s digest until. live digest until s ≡ true;
  registers = consume_in-registers;
  keeps = consume_in-keeps;
  refuses = consume_in-refuses;
}

-- A text of one unit is a time in seconds here; no other text is a time.
abbrev date_parse : Text → Option ℕ
date_parse [] = none
date_parse (seconds ∷ []) = some (seconds * 1000)
date_parse (a ∷ b ∷ rest) = none

abbrev repeated : ℕ → ℕ → Text
repeated zero unit = []
repeated (suc n) unit = unit ∷ repeated n unit

-- A digest of 64 digits that depends on the length alone.
abbrev digest : Text → Option Text
digest text = some (repeated 64 (48 + length text % 10))

abbrev reply_fields : Value → List (Text × Value)
reply_fields received_at =
    (units "replyId", text_value (units "reply-1"))
    ∷ (units "sessionId", text_value (units "session-1"))
    ∷ (units "promptId", text_value (units "contact.response"))
    ∷ (units "promptVersion", number_value (whole 1) (units "1"))
    ∷ (units "idempotencyKey", text_value (units "reply-0001"))
    ∷ (units "receivedAt", received_at)
    ∷ (units "selectedOptions", array_value (text_element (units "YES") ∷ []) (units "YES"))
    ∷ []

abbrev reply : ReplyInput
reply = object (reply_fields (text_value (1000 ∷ [])))

-- Its time of receipt is a number, of which `String` makes a text that is a time.
abbrev untyped_reply : ReplyInput
untyped_reply = object (reply_fields (number_value (whole 2026) (1000 ∷ [])))

accepts :
    (consume_human_contact_reply date_parse digest registry reply (1001 ∷ []) 1001000 []).0.accepted
    ≡ true
unfolding consume_human_contact_reply as_reply ros_road_operating_syste.Prelude.Dict.lookup text_eq
    validate_human_contact_reply ros_road_operating_syste.Contact.Protocol.Replies.has_unknown_key
    ros_road_operating_syste.Prelude.Dict.member
    ros_road_operating_syste.Contact.Protocol.Replies.valid_id_value
    ros_road_operating_syste.Prelude.Text.matches_id
    ros_road_operating_syste.Contact.Protocol.Replies.valid_version
    ros_road_operating_syste.Prelude.Number.is_integer whole
    ros_road_operating_syste.Prelude.Number.number_lt
    ros_road_operating_syste.Contact.Protocol.Replies.is_null_time
    ros_road_operating_syste.Contact.Protocol.Replies.printed
    ros_road_operating_syste.Contact.Protocol.Replies.valid_options
    ros_road_operating_syste.Contact.Protocol.Replies.includes_option
    ros_road_operating_syste.Contact.Protocol.Acceptance.acceptance
    ros_road_operating_syste.Contact.Protocol.Acceptance.answer
    ros_road_operating_syste.Contact.Protocol.Acceptance.at_times
    ros_road_operating_syste.Contact.Protocol.Acceptance.consume_typed
    ros_road_operating_syste.Contact.Protocol.Acceptance.is_hex_digit
    ros_road_operating_syste.Contact.Protocol.Acceptance.joined
    ros_road_operating_syste.Contact.Protocol.Acceptance.reply_key
    ros_road_operating_syste.Contact.Protocol.Acceptance.reply_scope_key
    ros_road_operating_syste.Contact.Protocol.Acceptance.valid_digest
    ros_road_operating_syste.Contact.Protocol.Acceptance.with_digest
    ros_road_operating_syste.Contact.Protocol.Acceptance.with_scope_digest
    ros_road_operating_syste.Contact.Protocol.Replies.distinct
    ros_road_operating_syste.Contact.Protocol.Replies.element_text
    ros_road_operating_syste.Contact.Protocol.Replies.is_contradictory
    ros_road_operating_syste.Contact.Protocol.Replies.is_reply_option
    ros_road_operating_syste.Contact.Protocol.Replies.option_text
    ros_road_operating_syste.Contact.Protocol.Replies.reply_decision
    ros_road_operating_syste.Contact.Protocol.Replies.same_element
    ros_road_operating_syste.Contact.Protocol.Replies.valid_metadata
    ros_road_operating_syste.Prelude.Text.is_id_char consume_in
accepts = refl

abbrev envelope : HumanContactReplyEnvelope
envelope = record {
  reply_id = units "reply-1";
  session_id = units "session-1";
  prompt_id = units "contact.response";
  prompt_version = units "1";
  idempotency_key = units "reply-0001";
  received_at = 1000 ∷ [];
  selected_options = text_element (units "YES") ∷ [];
}

reply_typed : as_reply reply ≡ some envelope
unfolding as_reply ros_road_operating_syste.Prelude.Dict.lookup text_eq
reply_typed = refl

-- A reply that was received a second after the time at which it was evaluated is accepted a second time a day later,
-- when its registration has expired and it is not yet too old.
early_accepted_twice :
    (consume_human_contact_reply date_parse digest registry reply
      (87400 ∷ [])
      87399001
      (consume_human_contact_reply date_parse digest registry reply
        (999 ∷ [])
        999000
        []).1).0.accepted
    ≡ true
unfolding consume_human_contact_reply as_reply ros_road_operating_syste.Prelude.Dict.lookup text_eq
    validate_human_contact_reply ros_road_operating_syste.Contact.Protocol.Replies.has_unknown_key
    ros_road_operating_syste.Prelude.Dict.member
    ros_road_operating_syste.Contact.Protocol.Replies.valid_id_value
    ros_road_operating_syste.Prelude.Text.matches_id
    ros_road_operating_syste.Contact.Protocol.Replies.valid_version
    ros_road_operating_syste.Prelude.Number.is_integer whole
    ros_road_operating_syste.Prelude.Number.number_lt
    ros_road_operating_syste.Contact.Protocol.Replies.is_null_time
    ros_road_operating_syste.Contact.Protocol.Replies.printed
    ros_road_operating_syste.Contact.Protocol.Replies.valid_options
    ros_road_operating_syste.Contact.Protocol.Replies.includes_option
    ros_road_operating_syste.Contact.Protocol.Acceptance.acceptance
    ros_road_operating_syste.Contact.Protocol.Acceptance.answer
    ros_road_operating_syste.Contact.Protocol.Acceptance.at_times
    ros_road_operating_syste.Contact.Protocol.Acceptance.consume_typed
    ros_road_operating_syste.Contact.Protocol.Acceptance.is_hex_digit
    ros_road_operating_syste.Contact.Protocol.Acceptance.joined
    ros_road_operating_syste.Contact.Protocol.Acceptance.reply_key
    ros_road_operating_syste.Contact.Protocol.Acceptance.reply_scope_key
    ros_road_operating_syste.Contact.Protocol.Acceptance.valid_digest
    ros_road_operating_syste.Contact.Protocol.Acceptance.with_digest
    ros_road_operating_syste.Contact.Protocol.Acceptance.with_scope_digest
    ros_road_operating_syste.Contact.Protocol.Replies.distinct
    ros_road_operating_syste.Contact.Protocol.Replies.element_text
    ros_road_operating_syste.Contact.Protocol.Replies.is_contradictory
    ros_road_operating_syste.Contact.Protocol.Replies.is_reply_option
    ros_road_operating_syste.Contact.Protocol.Replies.option_text
    ros_road_operating_syste.Contact.Protocol.Replies.reply_decision
    ros_road_operating_syste.Contact.Protocol.Replies.same_element
    ros_road_operating_syste.Contact.Protocol.Replies.valid_metadata
    ros_road_operating_syste.Prelude.Text.is_id_char consume_in
early_accepted_twice = refl

-- A reply whose time of receipt is a number is refused with the disposition PROCESS.
untyped_processed :
    let d =
      (consume_human_contact_reply date_parse digest registry untyped_reply
        (1001 ∷ [])
        1001000
        []).0 in
    (d.accepted ≡ false) × (d.disposition ≡ process)
unfolding consume_human_contact_reply as_reply ros_road_operating_syste.Prelude.Dict.lookup text_eq
    ros_road_operating_syste.Contact.Protocol.Acceptance.acceptance validate_human_contact_reply
    ros_road_operating_syste.Contact.Protocol.Replies.has_unknown_key
    ros_road_operating_syste.Prelude.Dict.member
    ros_road_operating_syste.Contact.Protocol.Replies.valid_id_value
    ros_road_operating_syste.Prelude.Text.matches_id
    ros_road_operating_syste.Contact.Protocol.Replies.valid_version
    ros_road_operating_syste.Prelude.Number.is_integer whole
    ros_road_operating_syste.Prelude.Number.number_lt
    ros_road_operating_syste.Contact.Protocol.Replies.is_null_time
    ros_road_operating_syste.Contact.Protocol.Replies.printed
    ros_road_operating_syste.Contact.Protocol.Replies.valid_options
    ros_road_operating_syste.Contact.Protocol.Acceptance.answer
    ros_road_operating_syste.Contact.Protocol.Acceptance.at_times
    ros_road_operating_syste.Contact.Protocol.Acceptance.consume_typed
    ros_road_operating_syste.Contact.Protocol.Acceptance.is_hex_digit
    ros_road_operating_syste.Contact.Protocol.Acceptance.joined
    ros_road_operating_syste.Contact.Protocol.Acceptance.reply_key
    ros_road_operating_syste.Contact.Protocol.Acceptance.reply_scope_key
    ros_road_operating_syste.Contact.Protocol.Acceptance.valid_digest
    ros_road_operating_syste.Contact.Protocol.Acceptance.with_digest
    ros_road_operating_syste.Contact.Protocol.Acceptance.with_scope_digest
    ros_road_operating_syste.Contact.Protocol.Replies.distinct
    ros_road_operating_syste.Contact.Protocol.Replies.element_text
    ros_road_operating_syste.Contact.Protocol.Replies.includes_option
    ros_road_operating_syste.Contact.Protocol.Replies.is_contradictory
    ros_road_operating_syste.Contact.Protocol.Replies.is_reply_option
    ros_road_operating_syste.Contact.Protocol.Replies.option_text
    ros_road_operating_syste.Contact.Protocol.Replies.reply_decision
    ros_road_operating_syste.Contact.Protocol.Replies.same_element
    ros_road_operating_syste.Contact.Protocol.Replies.valid_metadata
    ros_road_operating_syste.Prelude.Text.is_id_char
untyped_processed = (refl, refl)

reply_accepted_once_example :
    let later =
      consume_all date_parse digest registry
        ((untyped_reply, 1002 ∷ [], 1002000) ∷ [])
        (consume_human_contact_reply date_parse digest registry reply (1001 ∷ []) 1001000 []).1 in
    (consume_human_contact_reply date_parse digest registry reply
      (1003 ∷ [])
      1003000
      later).0.accepted
    ≡ false
reply_accepted_once_example =
    reply_accepted_once date_parse digest registry reply reply envelope envelope (1001 ∷ [])
      (1003 ∷ []) 1000000 1000000 1001000 1003000 1001000 1003000 []
      ((untyped_reply, 1002 ∷ [], 1002000) ∷ []) reply_typed reply_typed refl refl refl
      (omega arith) refl (omega arith) refl (omega arith) accepts

reply_accepted-Structured_example :
    Structured reply
    × ((consume_human_contact_reply date_parse digest registry reply
          (1001 ∷ [])
          1001000
          []).0.consume_result
        ≡ some consumed)
reply_accepted-Structured_example =
    reply_accepted-Structured date_parse digest registry reply (1001 ∷ []) 1001000 [] accepts

refused_processed_iff_example :
    let d =
      (consume_human_contact_reply date_parse digest registry untyped_reply
        (1001 ∷ [])
        1001000
        []).0 in
    ((d.accepted ≡ false) × (d.disposition ≡ process)) ↔ (
      ((validate_human_contact_reply date_parse untyped_reply).valid ≡ true)
      × (as_reply untyped_reply ≡ none))
refused_processed_iff_example =
    refused_processed_iff date_parse digest registry untyped_reply (1001 ∷ []) 1001000 []
