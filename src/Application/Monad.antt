-- ===== src/Application/Monad.antt =====
-- The world of a use case and the monad of its steps: an operation returns or throws, and what it had
-- changed by then stays changed.
use ros_road_operating_syste.Prelude.{List}
use ros_road_operating_syste.Prelude.Text.{Text}
use ros_road_operating_syste.Prelude.Result.{Result, ok, err}
use ros_road_operating_syste.Application.Ports.{IdempotencyRecord, RoadEventReadModel}
use ros_road_operating_syste.Application.Memory.{MemoryRepository, MemorySignals}

-- What a command returns and the idempotency store keeps: a read model, or `{ attached: true }`.
pub data Response : Type 0 where
  road_event : RoadEventReadModel → Response
  attached : Response

pub record World : Type 0 where
  pub repository : MemoryRepository
  pub records : List (Text × IdempotencyRecord Response)
  pub in_flight : List Text
  pub signals : MemorySignals

abbrev pub M : Type 0 → Type 0
M A = World → Result A × World

abbrev pub bind_result : {A B : Type 0} → Result A → World → (A → M B) → Result B × World
bind_result (ok a) w f = f a w
bind_result (err e) w f = (err e, w)

infixl 5 ◌>>=◌ ◌>>◌
abbrev pub ◌>>=◌ : {A B : Type 0} → M A → (A → M B) → M B
◌>>=◌ m f w = bind_result (m w).0 (m w).1 f

abbrev pub ◌>>◌ : {B : Type 0} → M (Unit {0}) → M B → M B
m >> k = m >>= λ _. k

abbrev pub pure : {A : Type 0} → A → M A
pure a w = (ok a, w)

-- A step that changes nothing.
abbrev pub lift : {A : Type 0} → Result A → M A
lift r w = (r, w)

abbrev stored : Result MemoryRepository → World → Result (Unit {0}) × World
stored (ok repository) w = (ok tt, record w { repository = repository })
stored (err e) w = (err e, w)

-- A method of the repository that changes it.
abbrev pub on_repository : (MemoryRepository → Result MemoryRepository) → M (Unit {0})
on_repository f w = stored (f w.repository) w

-- A method of the repository that reads it.
abbrev pub from_repository : {A : Type 0} → (MemoryRepository → Result A) → M A
from_repository f w = (f w.repository, w)

abbrev signalled : Result MemorySignals → World → Result (Unit {0}) × World
signalled (ok signals) w = (ok tt, record w { signals = signals })
signalled (err e) w = (err e, w)

abbrev pub on_signals : (MemoryRepository → MemorySignals → Result MemorySignals) → M (Unit {0})
on_signals f w = signalled (f w.repository w.signals) w
