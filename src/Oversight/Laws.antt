-- ===== src/Oversight/Laws.antt =====
-- The pure policy and the orchestrator of apps/api/src/ros-eye/privacy-security-oversight.ts.
use ros_road_operating_syste.Prelude.{ℕ, true, false, Option, none, some, ◌≡◌, refl, arith}
use ros_road_operating_syste.Oversight.Policy.{
  AccessRequest, AccessDecision, deny, allow, minimum, restricted_raw, requires_consent, valid_time,
  is_raw_token, validate_common, evaluate_checked, evaluate_access,
}
use ros_road_operating_syste.Oversight.Access.{GrantPorts}
use ros_road_operating_syste.Oversight.Orchestrator.{consented, checked, authorize_access}

module _ (ports : GrantPorts) where
  checked-evaluate_checked :
      (o : Option AccessDecision) (r : AccessRequest) (final_now : Option ℕ) (s : ports.State)
      → requires_consent r.purpose ≡ false
      → restricted_raw r.data_kind ≡ false
      → checked ports o r final_now s ≡ (evaluate_checked r o, s)
  unfolding checked consented evaluate_checked
  checked-evaluate_checked (some d) r final_now s free plain = refl
  checked-evaluate_checked none r final_now s free plain = ground arith

  -- Where the purpose needs no consent and the data are not restricted, the orchestrator decides as the pure policy does at
  -- the trusted time, and writes nothing.
  pub authorize_access-evaluate_access :
      (r : AccessRequest) (now : ℕ) (final_now : Option ℕ) (s : ports.State)
      → requires_consent r.purpose ≡ false
      → restricted_raw r.data_kind ≡ false
      → authorize_access ports r (some now) final_now s
        ≡ (evaluate_access (record r { now = some now }), s)
  unfolding authorize_access evaluate_access valid_time
  authorize_access-evaluate_access r now final_now s free plain =
      checked-evaluate_checked (validate_common (record r { now = some now }))
        (record r { now = some now }) final_now s free plain

-- The pure policy opens no restricted data and no token: what it allows is among the data that the purpose needs, for a
-- purpose without consent.
pub evaluate_access-minimum :
    (r : AccessRequest)
    → (evaluate_access r).allowed ≡ true
    → (minimum r.purpose r.data_kind ≡ true)
      × (restricted_raw r.data_kind ≡ false)
      × (is_raw_token r.data_kind ≡ false)
      × (requires_consent r.purpose ≡ false)
unfolding evaluate_access evaluate_checked deny allow validate_common
evaluate_access-minimum r h = ground arith
