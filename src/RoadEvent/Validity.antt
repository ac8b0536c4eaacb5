-- ===== src/RoadEvent/Validity.antt =====
-- When a RoadEvent of packages/domain/src/road-event/road-event.ts is well formed.
use ros_road_operating_syste.Prelude.{
  ℕ, ◌+◌, ◌≤◌, true, false, Option, none, some, List, [], ◌∷◌, length, ◌≡◌, refl, arith, All, any,
}
use ros_road_operating_syste.Prelude.Text.{Text, trim, trim_idempotent}
use ros_road_operating_syste.Prelude.Number.{whole, minus_whole, out_of_range}
use ros_road_operating_syste.Prelude.Result.{ok}
use ros_road_operating_syste.RoadEvent.Severity.{
  SeverityAssessment, is_level, is_high_severity, validate_severity_assessment,
  freeze_severity_assessment, bad_reason_code,
}
use ros_road_operating_syste.RoadEvent.Aggregate.{
  RoadEvent, ClosureAuthorization, max_clock_skew_milliseconds, require_non_empty,
  copy_authorization, bad_time, require_reporter, copy_optional_authorization,
}

-- A text that has been trimmed, of one to `most` units.
pub record IsName (most : ℕ) (t : Text) : Type 0 where
  pub trimmed : trim t ≡ t
  pub non_empty : 1 ≤ length t
  pub bounded : length t ≤ most

abbrev pub IsReasonCode : Text → Type 0
IsReasonCode code = (1 ≤ length (trim code)) × (length code ≤ 64)

pub record IsAssessment (a : SeverityAssessment) : Type 0 where
  pub level : is_level a.level ≡ true
  pub score : out_of_range (whole 0) (whole 100) a.score ≡ false
  pub confidence : out_of_range (whole 0) (whole 1) a.confidence ≡ false
  pub reasons : 1 ≤ length a.reason_codes
  pub reason_codes : All IsReasonCode a.reason_codes
  pub reviewed : is_high_severity a.level ≡ true → a.requires_human_review ≡ true

-- A time that is finite and at most the clock skew ahead of `now`.
abbrev pub IsPast : ℕ → Option ℕ → Type 0
IsPast now none = ⊥
IsPast now (some t) = t ≤ now + max_clock_skew_milliseconds

pub record IsAuthorization (now : ℕ) (a : ClosureAuthorization) : Type 0 where
  pub actor_id : IsName 128 a.actor_id
  pub reason : IsName 500 a.reason
  pub authorized_at : IsPast now a.authorized_at

abbrev pub Optional : {A : Type 0} → (A → Type 0) → Option A → Type 0
Optional P none = Unit
Optional P (some a) = P a

pub record IsValid (now : ℕ) (e : RoadEvent) : Type 0 where
  pub id : IsName 128 e.id
  pub reporter : Optional (IsName 128) e.reporter_actor_id
  pub occurred_at : IsPast now e.occurred_at
  pub latitude : out_of_range (minus_whole 90) (whole 90) e.latitude ≡ false
  pub longitude : out_of_range (minus_whole 180) (whole 180) e.longitude ≡ false
  pub severity : IsAssessment e.severity
  pub version : 1 ≤ e.version
  pub authorization : Optional (IsAuthorization now) e.closure_authorization

pub require_non_empty-IsName :
    (t : Text) (most : ℕ) (u : Text) → require_non_empty t most ≡ ok u → IsName most u
unfolding require_non_empty
require_non_empty-IsName t most u h = ground (arith, trim_idempotent t)

pub require_non_empty_fixed :
    (t : Text) (most : ℕ) → IsName most t → require_non_empty t most ≡ ok t
unfolding require_non_empty
require_non_empty_fixed t most h = ground arith

reason_codes_sound :
    (codes : List Text) → any bad_reason_code codes ≡ false → All IsReasonCode codes
unfolding bad_reason_code
reason_codes_sound [] h = tt
reason_codes_sound (c ∷ cs) h = ((ground arith, ground arith), reason_codes_sound cs (ground arith))

reason_codes_complete :
    (codes : List Text) → All IsReasonCode codes → any bad_reason_code codes ≡ false
unfolding bad_reason_code
reason_codes_complete [] h = refl
reason_codes_complete (c ∷ cs) (h, hs) = ground (arith, reason_codes_complete cs hs)

pub validate-IsAssessment :
    (a : SeverityAssessment) {u : Unit {0}} → validate_severity_assessment a ≡ ok u → IsAssessment a
unfolding validate_severity_assessment
validate-IsAssessment a h = ground (arith, reason_codes_sound a.reason_codes)

pub validate_of_IsAssessment :
    (a : SeverityAssessment) → IsAssessment a → validate_severity_assessment a ≡ ok tt
unfolding validate_severity_assessment
validate_of_IsAssessment a h = ground (arith, reason_codes_complete a.reason_codes h.reason_codes)

pub require_reporter-IsName :
    (r s : Option Text) → require_reporter r ≡ ok s → Optional (IsName 128) s
unfolding require_reporter
require_reporter-IsName none s h = ground arith
require_reporter-IsName (some t) none h = ground arith
require_reporter-IsName (some t) (some u) h = require_non_empty-IsName t 128 u (ground arith)

pub copy_authorization-IsAuthorization :
    (now : ℕ) (a b : ClosureAuthorization) → copy_authorization now a ≡ ok b → IsAuthorization now b
unfolding copy_authorization bad_time
copy_authorization-IsAuthorization now a b h = record {
  actor_id = require_non_empty-IsName a.actor_id 128 b.actor_id (ground arith);
  reason = require_non_empty-IsName a.reason 500 b.reason (ground arith);
  authorized_at = ground arith;
}

pub copy_authorization_fixed :
    (now : ℕ) (a : ClosureAuthorization) → IsAuthorization now a → copy_authorization now a ≡ ok a
unfolding copy_authorization bad_time
copy_authorization_fixed now a h = ground (
  arith,
  require_non_empty_fixed a.actor_id 128 h.actor_id,
  require_non_empty_fixed a.reason 500 h.reason,
)

pub copy-Optional-IsAuthorization :
    (now : ℕ) (a b : Option ClosureAuthorization)
    → copy_optional_authorization now a ≡ ok b
    → Optional (IsAuthorization now) b
unfolding copy_optional_authorization
copy-Optional-IsAuthorization now none b h = ground arith
copy-Optional-IsAuthorization now (some a) none h = ground arith
copy-Optional-IsAuthorization now (some a) (some b) h =
    copy_authorization-IsAuthorization now a b (ground arith)

pub copy-Optional_fixed :
    (now : ℕ) (a : Option ClosureAuthorization)
    → Optional (IsAuthorization now) a
    → copy_optional_authorization now a ≡ ok a
unfolding copy_optional_authorization
copy-Optional_fixed now none h = refl
copy-Optional_fixed now (some a) h = ground (arith, copy_authorization_fixed now a h)

pub require_reporter_fixed : (r : Option Text) → Optional (IsName 128) r → require_reporter r ≡ ok r
unfolding require_reporter
require_reporter_fixed none h = refl
require_reporter_fixed (some t) h = ground (arith, require_non_empty_fixed t 128 h)

-- A time that was acceptable stays so.
pub bad_time_of_IsPast :
    (now later : ℕ) (t : Option ℕ) → IsPast now t → now ≤ later → bad_time later t ≡ false
unfolding bad_time
bad_time_of_IsPast now later none h le = absurd h
bad_time_of_IsPast now later (some t) h le = ground arith

pub IsPast-le : (now later : ℕ) (t : Option ℕ) → IsPast now t → now ≤ later → IsPast later t
IsPast-le now later none h le = h
IsPast-le now later (some t) h le = omega arith

pub Optional-IsAuthorization-le :
    (now later : ℕ) (a : Option ClosureAuthorization)
    → Optional (IsAuthorization now) a
    → now ≤ later
    → Optional (IsAuthorization later) a
Optional-IsAuthorization-le now later none h le = tt
Optional-IsAuthorization-le now later (some a) h le = record {
  actor_id = h.actor_id;
  reason = h.reason;
  authorized_at = IsPast-le now later a.authorized_at h.authorized_at le;
}

-- What is well formed now is well formed at any later time.
pub IsValid-le : (now later : ℕ) (e : RoadEvent) → IsValid now e → now ≤ later → IsValid later e
IsValid-le now later e v le = record {
  id = v.id;
  reporter = v.reporter;
  occurred_at = IsPast-le now later e.occurred_at v.occurred_at le;
  latitude = v.latitude;
  longitude = v.longitude;
  severity = v.severity;
  version = v.version;
  authorization = Optional-IsAuthorization-le now later e.closure_authorization v.authorization le;
}

pub freeze_of_IsAssessment :
    (a : SeverityAssessment) → IsAssessment a → freeze_severity_assessment a ≡ ok a
unfolding freeze_severity_assessment
freeze_of_IsAssessment a h = rw (validate_of_IsAssessment a h)
