-- ===== src/RoadEvent/Severity.antt =====
-- packages/domain/src/road-event/severity.ts
use ros_road_operating_syste.Prelude.{
  ℕ, Bool, true, false, not, ◌&&◌, ◌||◌, List, ◌==◌, ltb, length, any, Loose, known, unknown,
}
use ros_road_operating_syste.Prelude.Text.{Text, trim}
use ros_road_operating_syste.Prelude.Number.{Number, whole, out_of_range}
use ros_road_operating_syste.Prelude.Result.{Result, ok, type_error, range_error, throw_if, ◌>>◌}

pub data SeverityLevel : Type 0 where
  informational low moderate high critical : SeverityLevel

-- A level's place, by which `===` compares two.
unfoldable pub level_rank : Loose SeverityLevel → ℕ
level_rank unknown = 0
level_rank (known informational) = 1
level_rank (known low) = 2
level_rank (known moderate) = 3
level_rank (known high) = 4
level_rank (known critical) = 5

-- The level is loose: `validate_severity_assessment` checks that it is one of the enumeration.
pub record SeverityAssessment : Type 0 where
  pub level : Loose SeverityLevel
  pub score : Number
  pub reason_codes : List Text
  pub confidence : Number
  pub requires_human_review : Bool

unfoldable pub is_level : Loose SeverityLevel → Bool
is_level (known l) = true
is_level unknown = false

unfoldable pub is_high_severity : Loose SeverityLevel → Bool
is_high_severity (known high) = true
is_high_severity (known critical) = true
is_high_severity _ = false

unfoldable pub bad_reason_code : Text → Bool
bad_reason_code code = length (trim code) == 0 || ltb 64 (length code)

unfoldable pub validate_severity_assessment : SeverityAssessment → Result (Unit {0})
unfolding is_level is_high_severity bad_reason_code out_of_range whole
validate_severity_assessment assessment = do
  throw_if (not (is_level assessment.level)) type_error
  throw_if (out_of_range (whole 0) (whole 100) assessment.score) range_error
  throw_if (out_of_range (whole 0) (whole 1) assessment.confidence) range_error
  throw_if (length assessment.reason_codes == 0 || any bad_reason_code assessment.reason_codes)
      type_error
  throw_if (is_high_severity assessment.level && not assessment.requires_human_review) type_error

-- Freezing a copy returns the same value.
unfoldable pub freeze_severity_assessment : SeverityAssessment → Result SeverityAssessment
freeze_severity_assessment assessment = do validate_severity_assessment assessment; ok assessment
