-- ===== src/RoadEvent/Status.antt =====
-- packages/domain/src/road-event/road-event-status.ts
use ros_road_operating_syste.Prelude.{ℕ, Bool, true, List, [], ◌∷◌, ◌≡◌, ◌↔◌, arith, ◌==◌, any}

pub data RoadEventStatus : Type 0 where
  detected validating confirmed safety_assessment response_coordination road_clearance recovery
        closed false_positive duplicate under_review transferred_to_authority :
      RoadEventStatus

unfoldable pub allowed_transitions : RoadEventStatus → List RoadEventStatus
allowed_transitions detected = validating ∷ false_positive ∷ []
allowed_transitions validating = confirmed ∷ under_review ∷ false_positive ∷ duplicate ∷ []
allowed_transitions confirmed = safety_assessment ∷ []
allowed_transitions safety_assessment = response_coordination ∷ []
allowed_transitions response_coordination = road_clearance ∷ transferred_to_authority ∷ []
allowed_transitions road_clearance = recovery ∷ []
allowed_transitions recovery = closed ∷ []
allowed_transitions under_review = validating ∷ confirmed ∷ false_positive ∷ duplicate ∷ []
allowed_transitions transferred_to_authority = closed ∷ []
allowed_transitions closed = []
allowed_transitions false_positive = []
allowed_transitions duplicate = []

-- A status's place in the enumeration, by which `===` compares two.
status_rank : RoadEventStatus → ℕ
status_rank detected = 0
status_rank validating = 1
status_rank confirmed = 2
status_rank safety_assessment = 3
status_rank response_coordination = 4
status_rank road_clearance = 5
status_rank recovery = 6
status_rank closed = 7
status_rank false_positive = 8
status_rank duplicate = 9
status_rank under_review = 10
status_rank transferred_to_authority = 11

unfoldable pub same_status : RoadEventStatus → RoadEventStatus → Bool
unfolding status_rank
same_status a b = status_rank a == status_rank b

pub same_status_iff : (a b : RoadEventStatus) → (same_status a b ≡ true) ↔ (a ≡ b)
unfolding same_status
same_status_iff a b = ground arith

-- `allowedTransitions[current].includes(next)`
unfoldable pub may_follow : RoadEventStatus → RoadEventStatus → Bool
unfolding allowed_transitions same_status
may_follow current next = any (same_status next) (allowed_transitions current)
