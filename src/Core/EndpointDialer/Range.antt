-- ===== src/Core/EndpointDialer/Range.antt =====
-- The indexes of a dialer: endpoint_dialer/machine.rs.
use kafka_driver.Base.{
  ℕ, zero, suc, ◌+◌, ◌%◌, ◌≤◌, ◌<◌, some, List, [], ◌∷◌, ◌≡◌, refl, length, get_elem?, arith, All,
}
use native.Mathlib.Nat.{mod-lt}
use kafka_driver.Core.EndpointDialer.{
  EndpointDialer, EndpointDialerInput, DialPhase, idle, candidate, connected, open_candidate, opens,
  resolution_completed, new, apply,
}
use kafka_driver.Core.EndpointDialer.Pass.{run}

abbrev InRange : ℕ → DialPhase → Type 0
InRange size idle = Unit
InRange size (candidate selected) = selected < size
InRange size (connected selected) = selected < size

module _ {κ} {A : Type κ} where
  -- A resolver never reports an empty set of addresses.
  abbrev pub Resolved : EndpointDialerInput A → Type 0
  Resolved (resolution_completed xs) = 1 ≤ length xs
  Resolved _ = Unit

  get_elem-found : (xs : List A) (i : ℕ) → i < length xs → (a : A) × (get_elem? xs i ≡ some a)
  get_elem-found [] i h = absurd (omega arith)
  get_elem-found (x ∷ xs) zero h = (x, refl)
  get_elem-found (x ∷ xs) (suc i) h = get_elem-found xs i (omega arith)

module _ {ℓ κ} {E : Type ℓ} {A : Type κ} where
  pub record DialerIsValid (d : EndpointDialer E A) : Type 0 where
    pub next_in_range : d.next < length d.addresses
    pub failures_in_range : d.failures < length d.addresses
    pub phase_in_range : InRange (length d.addresses) d.phase

  apply-DialerIsValid :
      (d : EndpointDialer E A) (i : EndpointDialerInput A)
      → Resolved i
      → DialerIsValid d
      → DialerIsValid (apply d i).0
  unfolding apply
  apply-DialerIsValid d i r v =
      let wraps : (d.next + 1) % length d.addresses < length d.addresses =
        mod-lt (d.next + 1) (omega (arith, v.next_in_range)) in
      ground (arith, wraps)

  run-valid :
      (d : EndpointDialer E A) (is : List (EndpointDialerInput A))
      → All Resolved is
      → DialerIsValid d
      → DialerIsValid (run d is).0
  run-valid d [] r v = v
  run-valid d (i ∷ is) r v = run-valid (apply d i).0 is r.1 (apply-DialerIsValid d i r.0 v)

  opens_idle :
      (d : EndpointDialer E A)
      → DialerIsValid d
      → d.phase ≡ idle
      → (a : A) × ((apply d opens).1 ≡ open_candidate d.endpoint a ∷ [])
  unfolding apply
  opens_idle d v rests =
      let (a, found) = get_elem-found d.addresses d.next v.next_in_range in
      (a, rw (rests, found) refl)

  -- Over any run of a dialer with at least one address, to which only sets with an address are reported,
  -- its indexes and its failures stay below the number of addresses.
  pub run-DialerIsValid :
      (e : E) (x : A) (xs : List A) (is : List (EndpointDialerInput A))
      → All Resolved is
      → DialerIsValid (run (new e (x ∷ xs)) is).0
  unfolding new
  run-DialerIsValid e x xs is r =
      run-valid (new e (x ∷ xs)) is r (record {
        next_in_range = omega arith;
        failures_in_range = omega arith;
        phase_in_range = tt;
      })

  -- After any such run that leaves the dialer idle, a request for a candidate gets one.
  pub idle_opens :
      (e : E) (x : A) (xs : List A) (is : List (EndpointDialerInput A))
      → All Resolved is
      → (run (new e (x ∷ xs)) is).0.phase ≡ idle
      → (a : A) × ((apply (run (new e (x ∷ xs)) is).0 opens).1
          ≡ open_candidate (run (new e (x ∷ xs)) is).0.endpoint a ∷ [])
  idle_opens e x xs is r rests =
      opens_idle (run (new e (x ∷ xs)) is).0 (run-DialerIsValid e x xs is r) rests
