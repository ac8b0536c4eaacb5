-- ===== src/Oversight/Leases.antt =====
-- Access to restricted data: apps/api/src/ros-eye/privacy-security-oversight.ts, lines 92-136.
use ros_road_operating_syste.Prelude.{
  ℕ, Bool, true, false, Option, none, some, ◌≡◌, ◌⊎◌, ◌≢◌, refl, inl, inr, arith, sym, ap, subst,
  ◌∙◌, if◌then◌else◌,
}
use ros_road_operating_syste.Prelude.Text.{Text}
use ros_road_operating_syste.Oversight.Policy.{
  AccessRequest, AccessDecision, BreakGlassLease, deny, allow, restricted_raw, requires_consent,
  full, break_glass_authorized, valid_id, is_export, validate_common,
}
use ros_road_operating_syste.Oversight.Access.{
  valid_break_glass, or_empty, check_grant, ConsentGrantReceipt, BreakGlassGrantInput, AbuseVerdict,
  GrantOutcome, GrantPorts,
}
use ros_road_operating_syste.Oversight.Orchestrator.{
  is_valid_lease, verify_consent, finalized, finish, audited, alerted, judged, unless_authorized,
  leased, break_glass_access, consented, checked, authorize_access,
}

module _ (ports : GrantPorts) where
  -- A grant that was written: the request passed the abuse check, the alert and the audit entry are durable, the lease was
  -- valid at the second reading of the clock in the very state in which the grant was finalized, and the finalization
  -- did not conflict.
  pub record Granted (r : AccessRequest) (lease_id : Text) (input : BreakGlassGrantInput)
      (final_now : Option ℕ) (s : ports.State) (result : AccessDecision × ports.State)
      : Type 0 where
    pub screened_state : ports.State
    pub screened : ports.consume_abuse input s ≡ (AbuseVerdict.allow_verdict, screened_state)
    pub alert : Text
    pub alerted_state : ports.State
    pub alerted : ports.reserve_alert input screened_state ≡ (some alert, alerted_state)
    pub audit : Text
    pub audited_state : ports.State
    pub audited : ports.append_audit input alert alerted_state ≡ (some audit, audited_state)
    pub rechecked :
        is_valid_lease (ports.find_lease_for_update r lease_id audited_state) r final_now ≡ true
    pub outcome : GrantOutcome
    pub grant_id : Text
    pub finalized :
        ports.finalize_grant (record input { occurred_at = final_now }) alert audit audited_state
        ≡ ((outcome, some grant_id), result.1)
    pub settled : outcome ≢ GrantOutcome.conflict
    pub decided : result.0 ≡ allow full break_glass_authorized (some grant_id)

  -- An earlier grant, with no write, or a grant that was written.
  abbrev pub Backed :
      AccessRequest
      → Text
      → BreakGlassGrantInput
      → Option ℕ
      → ports.State
      → Option Text
      → AccessDecision × ports.State
      → Type 0
  Backed r lease_id input final_now s existing result =
      ((grant_id : Text) × (existing ≡ some grant_id)
        × (result ≡ (allow full break_glass_authorized (some grant_id), s)))
      ⊎ Granted r lease_id input final_now s result

  abbrev pub input_of : AccessRequest → Text → BreakGlassLease → BreakGlassGrantInput
  input_of r lease_id lease = record {
    grant_id = ports.create_id r lease_id;
    request = r;
    lease_id = lease.lease_id;
    reason_code = lease.reason_code;
    occurred_at = r.now;
  }

  -- What stands behind an access to restricted data: a valid idempotency key; a lease that the request names, that the
  -- database has, and that is valid at the first reading of the clock; and either an earlier grant, with no write, or
  -- a grant that was written.
  pub record Leased (r : AccessRequest) (final_now : Option ℕ) (s : ports.State)
      (result : AccessDecision × ports.State) : Type 0 where
    pub requested : BreakGlassLease
    pub named : r.break_glass ≡ some requested
    pub keyed : valid_id (or_empty r.idempotency_key) ≡ true
    pub lease : BreakGlassLease
    pub found : ports.find_lease_for_update r requested.lease_id s ≡ some lease
    pub valid : valid_break_glass lease r r.now ≡ true
    pub backed :
        Backed r requested.lease_id
          (input_of r requested.lease_id lease)
          final_now
          s
          (ports.find_authorized r (ports.create_id r requested.lease_id) lease.lease_id s)
          result

  finalized-allowed :
      (p : (GrantOutcome × Option Text) × ports.State)
      → (finalized ports p).0.allowed ≡ true
      → (outcome : GrantOutcome) × (grant_id : Text) × (p
          ≡ ((outcome, some grant_id), (finalized ports p).1))
        × (outcome ≢ GrantOutcome.conflict)
        × ((finalized ports p).0 ≡ allow full break_glass_authorized (some grant_id))
  unfolding finalized deny
  finalized-allowed ((GrantOutcome.authorized, some g), s) h =
      (GrantOutcome.authorized, g, refl, λ e. ground arith, refl)
  finalized-allowed ((GrantOutcome.idempotent, some g), s) h =
      (GrantOutcome.idempotent, g, refl, λ e. ground arith, refl)
  finalized-allowed ((GrantOutcome.conflict, some g), s) h = let f : ⊥ = ground arith in absurd f
  finalized-allowed ((GrantOutcome.authorized, none), s) h = let f : ⊥ = ground arith in absurd f
  finalized-allowed ((GrantOutcome.idempotent, none), s) h = let f : ⊥ = ground arith in absurd f
  finalized-allowed ((GrantOutcome.conflict, none), s) h = let f : ⊥ = ground arith in absurd f

  module _ (r : AccessRequest) (lease_id : Text) (input : BreakGlassGrantInput)
      (final_now : Option ℕ) (s : ports.State) where
    audited-Granted :
        (s1 s2 : ports.State) (a : Text) (p : Option Text × ports.State)
        → ports.consume_abuse input s ≡ (AbuseVerdict.allow_verdict, s1)
        → ports.reserve_alert input s1 ≡ (some a, s2)
        → ports.append_audit input a s2 ≡ p
        → (audited ports r lease_id input a final_now p).0.allowed ≡ true
        → Granted r lease_id input final_now s (audited ports r lease_id input a final_now p)
    unfolding audited finish deny
    audited-Granted s1 s2 a (none, s3) q1 q2 q3 h = let f : ⊥ = ground arith in absurd f
    audited-Granted s1 s2 a (some b, s3) q1 q2 q3 h =
        let last : (GrantOutcome × Option Text) × ports.State =
          ports.finalize_grant (record input { occurred_at = final_now }) a b s3 in
        let fact : (is_valid_lease (ports.find_lease_for_update r lease_id s3) r final_now ≡ true)
            × ((finalized ports last).0.allowed ≡ true)
            × (finish ports r lease_id input a b final_now s3 ≡ finalized ports last) =
          ground arith in
        let (outcome, grant_id, written, settled, decided) = finalized-allowed last fact.1 in
        record {
          screened_state = s1;
          screened = q1;
          alert = a;
          alerted_state = s2;
          alerted = q2;
          audit = b;
          audited_state = s3;
          audited = q3;
          rechecked = fact.0;
          outcome = outcome;
          grant_id = grant_id;
          finalized = written ∙ ap (λ x. ((outcome, some grant_id), x.1)) (sym fact.2);
          settled = settled;
          decided = ap (λ x. x.0) fact.2 ∙ decided;
        }

    alerted-Granted :
        (s1 : ports.State) (p : Option Text × ports.State)
        → ports.consume_abuse input s ≡ (AbuseVerdict.allow_verdict, s1)
        → ports.reserve_alert input s1 ≡ p
        → (alerted ports r lease_id input final_now p).0.allowed ≡ true
        → Granted r lease_id input final_now s (alerted ports r lease_id input final_now p)
    unfolding alerted deny
    alerted-Granted s1 (none, s2) q1 q2 h = let f : ⊥ = ground arith in absurd f
    alerted-Granted s1 (some a, s2) q1 q2 h =
        audited-Granted s1 s2 a (ports.append_audit input a s2) q1 q2 refl h

    judged-Granted :
        (p : AbuseVerdict × ports.State)
        → ports.consume_abuse input s ≡ p
        → (judged ports r lease_id input final_now p).0.allowed ≡ true
        → Granted r lease_id input final_now s (judged ports r lease_id input final_now p)
    unfolding judged deny
    judged-Granted (AbuseVerdict.rate_limit, s1) q h = let f : ⊥ = ground arith in absurd f
    judged-Granted (AbuseVerdict.anomaly_review, s1) q h = let f : ⊥ = ground arith in absurd f
    judged-Granted (AbuseVerdict.allow_verdict, s1) q h =
        alerted-Granted s1 (ports.reserve_alert input s1) q refl h

    unless_authorized-Backed :
        (o : Option Text)
        → (unless_authorized ports o r lease_id input final_now s).0.allowed ≡ true
        → Backed r lease_id input final_now s o
            (unless_authorized ports o r lease_id input final_now s)
    unfolding unless_authorized
    unless_authorized-Backed (some g) h = inl (g, refl, refl)
    unless_authorized-Backed none h = inr (judged-Granted (ports.consume_abuse input s) refl h)

  leased-Leased :
      (r : AccessRequest) (requested : BreakGlassLease) (o : Option BreakGlassLease)
      (final_now : Option ℕ) (s : ports.State)
      → r.break_glass ≡ some requested
      → valid_id (or_empty r.idempotency_key) ≡ true
      → ports.find_lease_for_update r requested.lease_id s ≡ o
      → let result =
          leased ports o r requested.lease_id (ports.create_id r requested.lease_id) final_now s in
        result.0.allowed ≡ true → Leased r final_now s result
  unfolding leased deny
  leased-Leased r l none final_now s named keyed found h = let f : ⊥ = ground arith in absurd f
  leased-Leased r l (some lease) final_now s named keyed found h =
      let o : Option Text =
        ports.find_authorized r (ports.create_id r l.lease_id) lease.lease_id s in
      let result : AccessDecision × ports.State =
        leased ports (some lease) r l.lease_id (ports.create_id r l.lease_id) final_now s in
      let fact : (valid_break_glass lease r r.now ≡ true)
          × (result
              ≡ unless_authorized ports o r l.lease_id (input_of r l.lease_id lease) final_now s) =
        ground arith in
      record {
        requested = l;
        named = named;
        keyed = keyed;
        lease = lease;
        found = found;
        valid = fact.0;
        backed =
            subst (Backed r l.lease_id (input_of r l.lease_id lease) final_now s o) (sym fact.1) (
              unless_authorized-Backed r l.lease_id (input_of r l.lease_id lease) final_now s o
                (subst (λ x. x.0.allowed ≡ true) fact.1 h));
      }

  break_glass_access-Leased :
      (o : Option BreakGlassLease) (r : AccessRequest) (final_now : Option ℕ) (s : ports.State)
      → r.break_glass ≡ o
      → (break_glass_access ports o r final_now s).0.allowed ≡ true
      → Leased r final_now s (break_glass_access ports o r final_now s)
  unfolding break_glass_access deny
  break_glass_access-Leased none r final_now s named h = let f : ⊥ = ground arith in absurd f
  break_glass_access-Leased (some l) r final_now s named h =
      let inner : AccessDecision × ports.State =
        leased ports (ports.find_lease_for_update r l.lease_id s) r l.lease_id
          (ports.create_id r l.lease_id) final_now s in
      let fact : (valid_id (or_empty r.idempotency_key) ≡ true)
          × (break_glass_access ports (some l) r final_now s ≡ inner) =
        ground arith in
      subst (Leased r final_now s) (sym fact.1) (
        leased-Leased r l (ports.find_lease_for_update r l.lease_id s) final_now s named fact.0 refl
          (subst (λ x. x.0.allowed ≡ true) fact.1 h))

  validate_common-refuses :
      (r : AccessRequest) (d : AccessDecision) → validate_common r ≡ some d → d.allowed ≡ false
  unfolding validate_common deny
  validate_common-refuses r d h = ground arith

  check_grant-refuses :
      (r : AccessRequest) (o : Option ConsentGrantReceipt) (d : AccessDecision)
      → check_grant r r.now o ≡ some d
      → d.allowed ≡ false
  unfolding check_grant deny
  check_grant-refuses r none d h = ground arith
  check_grant-refuses r (some grant) d h = ground arith

  verify_consent-refuses :
      (r : AccessRequest) (d : AccessDecision) → verify_consent ports r ≡ some d → d.allowed ≡ false
  unfolding verify_consent deny
  verify_consent-refuses r d h =
      let deep = check_grant-refuses r (ports.find_consent_grant r) d in ground arith

  consented-break_glass :
      (o : Option AccessDecision) (r : AccessRequest) (final_now : Option ℕ) (s : ports.State)
      → restricted_raw r.data_kind ≡ true
      → ((d : AccessDecision) → o ≡ some d → d.allowed ≡ false)
      → (consented ports o r final_now s).0.allowed ≡ true
      → consented ports o r final_now s ≡ break_glass_access ports r.break_glass r final_now s
  unfolding consented
  consented-break_glass none r final_now s raw refuses h = ground arith
  consented-break_glass (some d) r final_now s raw refuses h =
      let e = refuses d refl in let f : ⊥ = ground arith in absurd f

  consent-refuses :
      (b : Bool) (r : AccessRequest) (d : AccessDecision)
      → (if b then verify_consent ports r else none) ≡ some d
      → d.allowed ≡ false
  consent-refuses true r d h = verify_consent-refuses r d h
  consent-refuses false r d h = let f : ⊥ = ground (arith, h) in absurd f

  checked-break_glass :
      (o : Option AccessDecision) (r : AccessRequest) (final_now : Option ℕ) (s : ports.State)
      → restricted_raw r.data_kind ≡ true
      → ((d : AccessDecision) → o ≡ some d → d.allowed ≡ false)
      → (checked ports o r final_now s).0.allowed ≡ true
      → (is_export r.action ≡ false)
        × (checked ports o r final_now s ≡ break_glass_access ports r.break_glass r final_now s)
  unfolding checked deny
  checked-break_glass none r final_now s raw refuses h =
      let o : Option AccessDecision =
        (if requires_consent r.purpose then verify_consent ports r else none) in
      let fact : (is_export r.action ≡ false)
          × ((consented ports o r final_now s).0.allowed ≡ true)
          × (checked ports none r final_now s ≡ consented ports o r final_now s) =
        ground arith in
      (
        fact.0,
        fact.2
            ∙ consented-break_glass o r final_now s raw
                (consent-refuses (requires_consent r.purpose) r) fact.1,
      )
  checked-break_glass (some d) r final_now s raw refuses h =
      let e = refuses d refl in let f : ⊥ = ground arith in absurd f

  -- Restricted data are opened, and never exported, only to a request that names a lease which the database has and which is
  -- valid at the trusted time; and, unless the access was granted before, only if the grant was finalized in a state in
  -- which the lease was valid at the second reading of the clock, after a durable alert and a durable audit entry.
  pub authorize_access-Leased :
      (r : AccessRequest) (trusted_now final_now : Option ℕ) (s : ports.State)
      → restricted_raw r.data_kind ≡ true
      → (authorize_access ports r trusted_now final_now s).0.allowed ≡ true
      → (is_export r.action ≡ false)
        × Leased
            (record r { now = trusted_now })
            final_now
            s
            (authorize_access ports r trusted_now final_now s)
  unfolding authorize_access deny
  authorize_access-Leased r trusted_now final_now s raw h =
      let q : AccessRequest = record r { now = trusted_now } in
      let fact : authorize_access ports r trusted_now final_now s
          ≡ checked ports (validate_common q) q final_now s =
        ground arith in
      let (kept, same) =
        checked-break_glass (validate_common q) q final_now s raw (validate_common-refuses q)
          (subst (λ x. x.0.allowed ≡ true) fact h) in
      let path = fact ∙ same in
      (
        kept,
        subst (Leased q final_now s) (sym path) (
            break_glass_access-Leased r.break_glass q final_now s refl
              (subst (λ x. x.0.allowed ≡ true) path h)),
      )
