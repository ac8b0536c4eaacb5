-- ===== src/Contact/Runtime/Due/Stages.antt =====
-- contact-orchestration.ts: the sessions that a step of the worker leaves.
use ros_road_operating_syste.Prelude.{ℕ, ◌+◌, Option, none, some}
use ros_road_operating_syste.Contact.Protocol.{HumanContactState}
use ros_road_operating_syste.Contact.Runtime.Records.{ContactSessionRecord, ContactChannel}
use ros_road_operating_syste.Contact.Runtime.Steps.{to_safety_channel}

unfoldable pub awaiting_on :
    ContactSessionRecord → ContactChannel → Option ℕ → ℕ → ContactSessionRecord
awaiting_on current channel deadline_at now = record current {
  state = HumanContactState.awaiting_response;
  active_channel = some (to_safety_channel channel);
  response_deadline_at = deadline_at;
  next_action_at = deadline_at;
  version = current.version + 1;
  updated_at = now;
}

unfoldable pub awaiting_again : ContactSessionRecord → Option ℕ → ℕ → ContactSessionRecord
awaiting_again current deadline_at now = record current {
  state = HumanContactState.awaiting_response;
  response_deadline_at = deadline_at;
  next_action_at = deadline_at;
  version = current.version + 1;
  updated_at = now;
}

unfoldable pub unanswered : ContactSessionRecord → Option ℕ → ℕ → ContactSessionRecord
unanswered current deadline_at now = record current {
  state = HumanContactState.no_response;
  response_deadline_at = none;
  next_action_at = deadline_at;
  version = current.version + 1;
  updated_at = now;
}

unfoldable pub escalated_session : ContactSessionRecord → ℕ → ContactSessionRecord
escalated_session current now = record current {
  state = HumanContactState.escalated;
  next_action_at = none;
  response_deadline_at = none;
  version = current.version + 1;
  updated_at = now;
}

unfoldable pub contacting_again : ContactSessionRecord → ℕ → ContactSessionRecord
contacting_again current now = record current {
  state = HumanContactState.contacting;
  attempt_count = current.attempt_count + 1;
  response_deadline_at = none;
  next_action_at = some now;
  version = current.version + 1;
  updated_at = now;
}
