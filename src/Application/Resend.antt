-- ===== src/Application/Resend.antt =====
-- Sending a command of apps/api/src/application/road-event-application.ts again.
use ros_road_operating_syste.Prelude.{ℕ, ◌+◌, ◌≤◌, List, Bool, true, false, Option, ◌≡◌, arith}
use ros_road_operating_syste.Prelude.Text.{Text}
use ros_road_operating_syste.Prelude.Result.{ok}
use ros_road_operating_syste.Application.Monad.{Response, World}
use ros_road_operating_syste.Application.Commands.{
  CommandContext, Command, create_command, reassess_command, transition_command, authorize_command,
  attach_command, ScopeMaterial,
}
use ros_road_operating_syste.Application.Replay.{Follows}
use ros_road_operating_syste.Application.Records.{serve-Follows, serve-later}
use ros_road_operating_syste.Application.Retry.{commands_resend}
use ros_road_operating_syste.Application.Journal.{handle, serve}

unfoldable pub is_attachment : Command → Bool
is_attachment (attach_command c) = true
is_attachment _ = false

-- A command other than the attachment of a signal that has succeeded once can be sent again, at any
-- later time and whatever commands were served in between: it returns the same response and changes
-- nothing.
pub handle_resent :
    (date_parse : Text → Option ℕ) (fingerprint : Command → Text) (digest : ScopeMaterial → Text)
    (now : ℕ) (c : Command) (context : CommandContext) (w w' : World) (value : Response)
    (between : List (ℕ × Command × CommandContext)) (delay : ℕ)
    → is_attachment c ≡ false
    → handle date_parse fingerprint digest now c context w ≡ (ok value, w')
    → let (time, later) = serve date_parse fingerprint digest now between w' in
      handle date_parse fingerprint digest (time + delay) c context later ≡ (ok value, later)
unfolding handle is_attachment
handle_resent date_parse fingerprint digest now c context w w' value between delay kind h =
    again c kind h
  where
    time : ℕ
    time = (serve date_parse fingerprint digest now between w').0 + delay

    later : World
    later = (serve date_parse fingerprint digest now between w').1

    follows : Follows w' later
    follows = serve-Follows date_parse fingerprint digest now between w'

    le : now ≤ time
    le = let p = serve-later date_parse fingerprint digest now between w' in omega arith

    again :
        (c : Command)
        → is_attachment c ≡ false
        → handle date_parse fingerprint digest now c context w ≡ (ok value, w')
        → handle date_parse fingerprint digest time c context later ≡ (ok value, later)
    again (create_command c) kind h =
        ((commands_resend now time date_parse fingerprint digest context le).0 c).again w w' later
          value h follows
    again (reassess_command c) kind h =
        ((commands_resend now time date_parse fingerprint digest context le).1 c).again w w' later
          value h follows
    again (transition_command c) kind h =
        ((commands_resend now time date_parse fingerprint digest context le).2 c).again w w' later
          value h follows
    again (authorize_command c) kind h =
        ((commands_resend now time date_parse fingerprint digest context le).3 c).again w w' later
          value h follows
    again (attach_command c) kind h = let f : ⊥ = ground arith in absurd f
