-- ===== src/Prelude/Result.antt =====
-- What an operation of the domain or of the application returns or throws. An error carries its class,
-- by which the callers tell errors apart; the messages are left out.
use mathlib.Core.Path.{◌≡◌, refl}
use mathlib.Core.Bool.{Bool, true, false}

pub data Error : Type 0 where
  invalid_road_event invalid_transition closure_requires_human_authorization : Error
  type_error range_error plain_error : Error
  already_exists not_found concurrency : Error
  application_validation application_conflict : Error
  idempotency_conflict idempotency_in_flight authorization_denied : Error

pub data Result {ℓ} (V : Type ℓ) : Type ℓ where
  err : Error → Result V
  ok : V → Result V

-- `if (bad) throw e`
abbrev pub throw_if : Bool → Error → Result (Unit {0})
throw_if true e = err e
throw_if false e = ok tt

-- The rest of a body runs on what the step before it returned, unless that step threw.
infixl 5 ◌>>=◌
abbrev pub ◌>>=◌ {ℓ κ} : {V : Type ℓ} {W : Type κ} → Result V → (V → Result W) → Result W
err thrown >>= rest = err thrown
ok value >>= rest = rest value

infixl 5 ◌>>◌
abbrev pub ◌>>◌ {κ} : {W : Type κ} → Result (Unit {0}) → Result W → Result W
step >> rest = step >>= λ _. rest

pub throw_if-eq-ok : (b : Bool) (e : Error) {u : Unit {0}} → throw_if b e ≡ ok u → b ≡ false
throw_if-eq-ok true e h = cc
throw_if-eq-ok false e h = refl

-- If a chain returns, its first step returned and the rest returned on that.
pub >>=-eq-ok {ℓ κ} :
    {V : Type ℓ} {W : Type κ} (step : Result V) (rest : V → Result W) {w : W}
    → (step >>= rest) ≡ ok w
    → (v : V) × (step ≡ ok v) × (rest v ≡ ok w)
>>=-eq-ok (err thrown) rest h = cc
>>=-eq-ok (ok v) rest h = (v, refl, h)
