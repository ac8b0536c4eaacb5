-- ===== src/Contact/Runtime/Progress/Measure.antt =====
-- The steps that the worker can still take in a session.
use ros_road_operating_syste.Prelude.{ℕ, ◌+◌, ◌-◌, ◌*◌, ◌<◌, Option, none, some, ◌≡◌}
use ros_road_operating_syste.Contact.Protocol.{
  max_automated_attempts, HumanContactState, contacting, awaiting_response, partial_response,
  disconnected, no_response,
}
use ros_road_operating_syste.Contact.Runtime.Records.{ContactSessionRecord}
use ros_road_operating_syste.Contact.Runtime.Store.{Store, get_session_for_update}

-- How far a state stands from the next attempt.
unfoldable pub stage : HumanContactState → ℕ
stage contacting = 3
stage partial_response = 3
stage awaiting_response = 2
stage no_response = 1
stage disconnected = 1
stage _ = 0

unfoldable pub scheduled : Option ℕ → ℕ → ℕ
scheduled none n = 0
scheduled (some time) n = 1 + n

-- The steps that the worker can still take in a session: none without a next action.
unfoldable pub remaining : ContactSessionRecord → ℕ
unfolding scheduled
remaining session =
    scheduled session.next_action_at
      (4 * (max_automated_attempts - session.attempt_count) + stage session.state)

-- After the work on a session, the store has it with fewer steps to go.
pub record Progresses (current : ContactSessionRecord) (store : Store) : Type 0 where
  pub later : ContactSessionRecord
  pub found : get_session_for_update current.scope store ≡ some later
  pub fewer : remaining later < remaining current
