-- ===== src/RoadEvent/Closure.antt =====
-- The life of a RoadEvent as a sequence of the calls of road-event.ts that do not throw. A call that
-- throws leaves the object as it was, so it is no step.
use ros_road_operating_syste.Prelude.{
  ℕ, ◌+◌, ◌≤◌, min, suc, Bool, true, false, none, ◌≡◌, ◌≢◌, refl, arith, ◌∙◌,
}
use ros_road_operating_syste.Prelude.Result.{ok}
use ros_road_operating_syste.RoadEvent.Status.{
  RoadEventStatus, detected, validating, confirmed, safety_assessment, response_coordination,
  road_clearance, recovery, closed, false_positive, duplicate, under_review,
  transferred_to_authority, may_follow,
}
use ros_road_operating_syste.RoadEvent.Severity.{SeverityAssessment, is_high_severity}
use ros_road_operating_syste.RoadEvent.Aggregate.{
  RoadEvent, ClosureAuthorization, next_version, max_safe_integer, transition_to, assess_severity,
  authorize_closure,
}
use ros_road_operating_syste.RoadEvent.Operations.{transition_to_iff}

pub data Step (e e' : RoadEvent) : Type 0 where
  transition : (next : RoadEventStatus) → transition_to next e ≡ ok e' → Step e e'
  assess : (a : SeverityAssessment) → assess_severity a e ≡ ok e' → Step e e'
  authorize : (now : ℕ) (a : ClosureAuthorization) → authorize_closure now a e ≡ ok e' → Step e e'

pub data History (start : RoadEvent) : RoadEvent → Type 0 where
  here : History start start
  then : {e e' : RoadEvent} → History start e → Step e e' → History start e'

abbrev pub steps : {start e : RoadEvent} → History start e → ℕ
steps here = 0
steps (then h s) = suc (steps h)

-- A closure was authorized, and no severity has been assessed since.
abbrev pub Granted : {start e : RoadEvent} → History start e → Type 0
Granted here = ⊥
Granted (then h (transition next p)) = Granted h
Granted (then h (assess a p)) = ⊥
Granted (then h (authorize now a p)) = Unit

History-Granted :
    {start e : RoadEvent} (h : History start e)
    → start.closure_authorization ≡ none
    → e.closure_authorization ≢ none
    → Granted h
unfolding transition_to assess_severity authorize_closure
History-Granted here p q = absurd (q p)
History-Granted (then {e} h (transition next t)) p q = History-Granted h p (λ n. q (ground arith))
History-Granted (then h (assess a t)) p q = absurd (q (ground arith))
History-Granted (then h (authorize now a t)) p q = tt

-- Whatever happened before, an event that began without a closure authorization and is of severity S3
-- or S4 is closed only if a closure was authorized and no severity assessed since.
pub closed_needs_grant :
    {start e e' : RoadEvent} (h : History start e)
    → start.closure_authorization ≡ none
    → is_high_severity e.severity.level ≡ true
    → transition_to closed e ≡ ok e'
    → Granted h
closed_needs_grant {e} {e'} h p severe t =
    let (m, n, s) = (transition_to_iff closed e e').0.0 t in
    History-Granted h p (λ q. n (refl, severe, q))

version-Step : {e e' : RoadEvent} → Step e e' → e'.version ≡ next_version e.version
unfolding transition_to assess_severity authorize_closure
version-Step (transition next t) = ground arith
version-Step (assess a t) = ground arith
version-Step (authorize now a t) = ground arith

next_version-min :
    (v n m k : ℕ)
    → n ≡ next_version v
    → v ≡ min (m + k) (max_safe_integer + 1)
    → n ≡ min (m + suc k) (max_safe_integer + 1)
next_version-min v n m k h e = ground arith

-- If the first version of an event is a safe integer, its version after any calls that do not throw
-- is the first version plus their number, or 2 ^ 53 if that is less.
pub version-History :
    {start e : RoadEvent} (h : History start e)
    → start.version ≤ max_safe_integer
    → e.version ≡ min (start.version + steps h) (max_safe_integer + 1)
version-History here safe = omega arith
version-History {start = start} (then {e} h s) safe =
    next_version-min e.version _ start.version (steps h) (version-Step s) (version-History h safe)

abbrev pub is_terminal : RoadEventStatus → Bool
is_terminal closed = true
is_terminal false_positive = true
is_terminal duplicate = true
is_terminal _ = false

-- From the confirmation on.
abbrev pub is_confirmed : RoadEventStatus → Bool
is_confirmed detected = false
is_confirmed validating = false
is_confirmed under_review = false
is_confirmed false_positive = false
is_confirmed duplicate = false
is_confirmed _ = true

Step-terminal : {e e' : RoadEvent} → Step e e' → is_terminal e.status ≡ true → e'.status ≡ e.status
unfolding transition_to assess_severity authorize_closure may_follow
Step-terminal (transition next t) h = ground arith
Step-terminal (assess a t) h = ground arith
Step-terminal (authorize now a t) h = ground arith

Step-confirmed :
    {e e' : RoadEvent} → Step e e' → is_confirmed e.status ≡ true → is_confirmed e'.status ≡ true
unfolding transition_to assess_severity authorize_closure may_follow
Step-confirmed (transition next t) h = ground arith
Step-confirmed (assess a t) h = ground arith
Step-confirmed (authorize now a t) h = ground arith

-- What no call undoes: a terminal status, and a confirmation.
History-status :
    {start e : RoadEvent}
    → History start e
    → (is_terminal start.status ≡ true → e.status ≡ start.status)
      × (is_confirmed start.status ≡ true → is_confirmed e.status ≡ true)
History-status here = (λ t. refl, λ c. c)
History-status (then h s) =
    let (to, co) = History-status h in
    (λ t. Step-terminal s (rw (to t) t) ∙ to t, λ c. Step-confirmed s (co c))

-- Once an event is closed, false positive or duplicate, no sequence of calls changes its status again.
pub History-terminal :
    {start e : RoadEvent}
    → History start e
    → is_terminal start.status ≡ true
    → e.status ≡ start.status
History-terminal h t = (History-status h).0 t

-- Once an event is confirmed, no sequence of calls makes it unconfirmed, a false positive or a duplicate.
pub History-confirmed :
    {start e : RoadEvent}
    → History start e
    → is_confirmed start.status ≡ true
    → is_confirmed e.status ≡ true
History-confirmed h c = (History-status h).1 c

-- Moves that the transition table allows, one after another.
infix 40 ◌⟶*◌
data ◌⟶*◌ : RoadEventStatus → RoadEventStatus → Type 0 where
  stay : {s : RoadEventStatus} → s ⟶* s
  move : {s u : RoadEventStatus} (t : RoadEventStatus) → may_follow s t ≡ true → t ⟶* u → s ⟶* u

from_confirmed : confirmed ⟶* closed
unfolding may_follow
from_confirmed = move safety_assessment refl (
    move response_coordination refl
      (move road_clearance refl (move recovery refl (move closed refl stay))))

to_closed : (s : RoadEventStatus) → s ≢ false_positive → s ≢ duplicate → s ⟶* closed
unfolding may_follow
to_closed detected h k = move validating refl (move confirmed refl from_confirmed)
to_closed validating h k = move confirmed refl from_confirmed
to_closed confirmed h k = from_confirmed
to_closed safety_assessment h k =
    move response_coordination refl
      (move road_clearance refl (move recovery refl (move closed refl stay)))
to_closed response_coordination h k =
    move road_clearance refl (move recovery refl (move closed refl stay))
to_closed road_clearance h k = move recovery refl (move closed refl stay)
to_closed recovery h k = move closed refl stay
to_closed closed h k = stay
to_closed under_review h k = move confirmed refl from_confirmed
to_closed transferred_to_authority h k = move closed refl stay
to_closed false_positive h k = absurd (h refl)
to_closed duplicate h k = absurd (k refl)

-- An event with a closure authorization follows the moves, and keeps the authorization.
walk :
    {start : RoadEvent} (e : RoadEvent) {s u : RoadEventStatus}
    → History start e
    → e.status ≡ s
    → e.closure_authorization ≢ none
    → s ⟶* u
    → (e' : RoadEvent) × History start e' × (e'.status ≡ u)
walk e h at granted stay = (e, h, at)
walk e {s} h at granted (move t allowed rest) =
    let e' : RoadEvent = record e { status = t; version = next_version e.version } in
    walk e'
      (then h
        (transition t ((transition_to_iff t e e').0.1 (rw at allowed, λ l. granted l.2, refl))))
      refl granted rest

-- From every event that is not a false positive or a duplicate, and that has a closure authorization, calls that do not
-- throw lead to a closed event.
pub closed_reachable :
    (e : RoadEvent)
    → e.status ≢ false_positive
    → e.status ≢ duplicate
    → e.closure_authorization ≢ none
    → (e' : RoadEvent) × History e e' × (e'.status ≡ closed)
closed_reachable e h k granted = walk e here refl granted (to_closed e.status h k)
