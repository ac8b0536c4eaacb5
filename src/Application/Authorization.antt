-- ===== src/Application/Authorization.antt =====
-- apps/api/src/application/local-adapters.ts: the role matrix.
use ros_road_operating_syste.Prelude.{ℕ, Bool, not, List, [], ◌∷◌, ◌==◌, any}
use ros_road_operating_syste.Prelude.Result.{Result, authorization_denied, throw_if}
use ros_road_operating_syste.Application.Ports.{
  RosRole, field_user, operator, supervisor, auditor, integration_service, AuthenticatedActor,
  RoadEventPermission, create, read, list, attach_signal, reassess_severity, transition,
  authorize_closure, close, audit_read,
}

unfoldable pub role_permissions : RosRole → List RoadEventPermission
role_permissions field_user = create ∷ read ∷ attach_signal ∷ []
role_permissions operator =
    create ∷ read ∷ list ∷ attach_signal ∷ reassess_severity ∷ transition ∷ close ∷ []
role_permissions supervisor =
    create ∷ read ∷ list ∷ attach_signal ∷ reassess_severity ∷ transition ∷ authorize_closure
    ∷ close ∷ audit_read ∷ []
role_permissions auditor = read ∷ list ∷ audit_read ∷ []
role_permissions integration_service = create ∷ read ∷ attach_signal ∷ []

permission_rank : RoadEventPermission → ℕ
permission_rank create = 0
permission_rank read = 1
permission_rank list = 2
permission_rank attach_signal = 3
permission_rank reassess_severity = 4
permission_rank transition = 5
permission_rank authorize_closure = 6
permission_rank close = 7
permission_rank audit_read = 8

same_permission : RoadEventPermission → RoadEventPermission → Bool
unfolding permission_rank
same_permission a b = permission_rank a == permission_rank b

unfoldable pub grants : RoadEventPermission → RosRole → Bool
unfolding role_permissions same_permission
grants permission role = any (same_permission permission) (role_permissions role)

-- `assertAllowed`
unfoldable pub assert_allowed : AuthenticatedActor → RoadEventPermission → Result (Unit {0})
unfolding grants
assert_allowed actor permission =
    throw_if (not (any (grants permission) actor.roles)) authorization_denied
