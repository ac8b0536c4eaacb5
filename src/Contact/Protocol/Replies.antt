-- ===== src/Contact/Protocol/Replies.antt =====
-- packages/contracts/src/human-contact-protocol.ts, lines 202-246: `validateHumanContactReply` and
-- `consumeHumanContactReply`.
use ros_road_operating_syste.Prelude.{
  ℕ, ◌*◌, Bool, true, false, not, ◌&&◌, ◌==◌, Option, none, some, List, [], ◌∷◌, any, all, length,
  if◌then◌else◌,
}
use ros_road_operating_syste.Prelude.Text.{Text, units, text_eq, matches_id}
use ros_road_operating_syste.Prelude.Number.{Number, whole, number_lt, is_integer}
use ros_road_operating_syste.Prelude.Dict.{lookup, member}

abbrev pub reply_max_clock_skew_ms : ℕ
reply_max_clock_skew_ms = 5 * 60 * 1000

abbrev pub reply_max_age_ms : ℕ
reply_max_age_ms = 24 * 60 * 60 * 1000

abbrev pub reply_ttl_ms : ℕ
reply_ttl_ms = 24 * 60 * 60 * 1000

abbrev pub reply_replay_policy_version : Text
reply_replay_policy_version = units "ros-eye.contact-reply-replay.v1"

pub data HumanContactReplyOption : Type 0 where
  yes no unknown help_requested cannot_speak accessibility_support_required :
      HumanContactReplyOption

unfoldable pub option_text : HumanContactReplyOption → Text
option_text yes = units "YES"
option_text no = units "NO"
option_text unknown = units "UNKNOWN"
option_text help_requested = units "HELP_REQUESTED"
option_text cannot_speak = units "CANNOT_SPEAK"
option_text accessibility_support_required = units "ACCESSIBILITY_SUPPORT_REQUIRED"

abbrev pub reply_options : List HumanContactReplyOption
reply_options =
    yes ∷ no ∷ unknown ∷ help_requested ∷ cannot_speak ∷ accessibility_support_required ∷ []

-- An element of an array that was parsed from JSON: a string, or another value by its identity, under which `Set`
-- tells values apart, and by what `String` makes of it.
pub data Element : Type 0 where
  text_element : Text → Element
  other_element : ℕ → Text → Element

-- A field of an object that was parsed from JSON, with what `String` makes of it where it is not a string.
pub data Value : Type 0 where
  text_value : Text → Value
  number_value : Number → Text → Value
  array_value : List Element → Text → Value
  other_value : Text → Value

-- The input: the fields of an object, or a value that is no object or an array.
pub data ReplyInput : Type 0 where
  object : List (Text × Value) → ReplyInput
  no_object : ReplyInput

pub data ReplyDisposition : Type 0 where
  process quarantine human_review : ReplyDisposition

pub data ReplyReason : Type 0 where
  invalid_reply free_text_or_unknown_field_prohibited invalid_reply_metadata : ReplyReason
  invalid_structured_options contradictory_reply structured_reply_valid : ReplyReason
  invalid_acceptance_time reply_received_in_future reply_too_old invalid_reply_digest : ReplyReason
  invalid_reply_scope_digest duplicate_reply reply_registry_unavailable reply_consumed : ReplyReason

pub record ReplyDecision : Type 0 where
  pub valid : Bool
  pub disposition : ReplyDisposition
  pub reason_code : ReplyReason

unfoldable pub reply_decision : Bool → ReplyDisposition → ReplyReason → ReplyDecision
reply_decision valid disposition reason_code = record {
  valid = valid;
  disposition = disposition;
  reason_code = reason_code;
}

abbrev pub reply_keys : List Text
reply_keys =
    units "replyId"
    ∷ units "sessionId"
    ∷ units "promptId"
    ∷ units "promptVersion"
    ∷ units "idempotencyKey"
    ∷ units "receivedAt"
    ∷ units "selectedOptions"
    ∷ []

unfoldable pub has_unknown_key : List (Text × Value) → Bool
has_unknown_key fields = any (λ field. not (member field.0 reply_keys)) fields

-- `validId` on a field of the input.
unfoldable pub valid_id_value : Option Value → Bool
valid_id_value (some (text_value value)) = matches_id 2 127 value
valid_id_value _ = false

-- `Number.isInteger(value) && Number(value) >= 1`
unfoldable pub valid_version : Option Value → Bool
valid_version (some (number_value value printed)) =
    is_integer value && not (number_lt value (whole 1))
valid_version _ = false

unfoldable pub printed : Option Value → Text
printed none = units "undefined"
printed (some (text_value value)) = value
printed (some (number_value value text)) = text
printed (some (array_value elements text)) = text
printed (some (other_value text)) = text

unfoldable pub element_text : Element → Text
element_text (text_element value) = value
element_text (other_element identity text) = text

unfoldable pub same_element : Element → Element → Bool
same_element (text_element a) (text_element b) = text_eq a b
same_element (other_element a s) (other_element b t) = a == b
same_element _ _ = false

-- `new Set(elements).size === elements.length`
unfoldable pub distinct : List Element → Bool
distinct [] = true
distinct (x ∷ xs) = not (any (same_element x) xs) && distinct xs

unfoldable pub is_reply_option : Text → Bool
unfolding option_text
is_reply_option text = any (λ o. text_eq text (option_text o)) reply_options

unfoldable pub valid_options : Option Value → Bool
unfolding distinct is_reply_option element_text
valid_options (some (array_value elements text)) =
    not (length elements == 0)
    && distinct elements
    && all (λ e. is_reply_option (element_text e)) elements
valid_options _ = false

unfoldable pub includes_option : HumanContactReplyOption → Option Value → Bool
unfolding same_element option_text
includes_option o (some (array_value elements text)) =
    any (same_element (text_element (option_text o))) elements
includes_option o _ = false

unfoldable pub is_null_time : Option ℕ → Bool
is_null_time none = true
is_null_time (some time) = false

pub record HumanContactReplyEnvelope : Type 0 where
  pub reply_id : Text
  pub session_id : Text
  pub prompt_id : Text
  pub prompt_version : Text
  pub idempotency_key : Text
  pub received_at : Text
  pub selected_options : List Element

-- `isReply`, with the input as it then is typed; a number stands as its digits in a template string.
unfoldable pub as_reply : ReplyInput → Option HumanContactReplyEnvelope
as_reply no_object = none
as_reply (object fields) =
    typed (lookup (units "replyId") fields) (lookup (units "sessionId") fields)
      (lookup (units "promptId") fields) (lookup (units "promptVersion") fields)
      (lookup (units "idempotencyKey") fields) (lookup (units "receivedAt") fields)
      (lookup (units "selectedOptions") fields)
  where
    typed :
        Option Value
        → Option Value
        → Option Value
        → Option Value
        → Option Value
        → Option Value
        → Option Value
        → Option HumanContactReplyEnvelope
    typed (some (text_value reply_id)) (some (text_value session_id)) (some (text_value prompt_id))
          (some (number_value version digits)) (some (text_value idempotency_key))
          (some (text_value received_at)) (some (array_value elements text)) =
        some (record {
          reply_id = reply_id;
          session_id = session_id;
          prompt_id = prompt_id;
          prompt_version = digits;
          idempotency_key = idempotency_key;
          received_at = received_at;
          selected_options = elements;
        })
    typed _ _ _ _ _ _ _ = none

module _ (date_parse : Text → Option ℕ) where
  unfoldable pub valid_metadata : List (Text × Value) → Bool
  valid_metadata fields =
      valid_id_value (lookup (units "replyId") fields)
      && valid_id_value (lookup (units "sessionId") fields)
      && valid_id_value (lookup (units "promptId") fields)
      && valid_id_value (lookup (units "idempotencyKey") fields)
      && valid_version (lookup (units "promptVersion") fields)
      && not (is_null_time (date_parse (printed (lookup (units "receivedAt") fields))))

  unfoldable pub is_contradictory : List (Text × Value) → Bool
  is_contradictory fields =
      includes_option yes (lookup (units "selectedOptions") fields)
      && includes_option no (lookup (units "selectedOptions") fields)

  unfoldable pub validate_human_contact_reply : ReplyInput → ReplyDecision
  unfolding valid_metadata is_contradictory
  validate_human_contact_reply no_object = reply_decision false quarantine invalid_reply
  validate_human_contact_reply (object fields) =
      if has_unknown_key fields
      then reply_decision false quarantine free_text_or_unknown_field_prohibited
      else if not (valid_metadata fields)
      then reply_decision false quarantine invalid_reply_metadata
      else if not (valid_options (lookup (units "selectedOptions") fields))
      then reply_decision false quarantine invalid_structured_options
      else if is_contradictory fields
      then reply_decision false human_review contradictory_reply
      else reply_decision true process structured_reply_valid
