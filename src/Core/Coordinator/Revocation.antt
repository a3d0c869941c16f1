-- ===== src/Core/Coordinator/Revocation.antt =====
-- The withdrawal of a coordinator route until newer evidence: coordinator/revocation.rs.
use kafka_driver.Core.Identity.{add_duration, OutcomeStamp, next_epoch, CoordinatorKey}
use kafka_driver.Base.{◌≡◌, some, Option, arith, List, ◌<◌, none, All, All-map, ◌∷◌, ◌≤◌, subst}
use kafka_driver.Core.Coordinator.{
  CoordinatorMachine, CoordinatorInput, CoordinatorRevocation, CoordinatorRoute, current, apply,
  new, start, start_after, resolve, refresh_at, invalidate, withdraw, succeed, fail, reject,
  retry_elapsed,
}
use kafka_driver.Core.Coordinator.Validity.{CoordinatorIsValid, run, run-CoordinatorIsValid}
use kafka_driver.Core.Coordinator.Observations.{Covers, observed, run-Covers}

-- What a machine serves has evidence from after the given moment.
abbrev ServesAfter : OutcomeStamp → Option CoordinatorRoute → Type 0
ServesAfter moment none = Unit
ServesAfter moment (some route) = moment < route.evidence

apply_after :
    (m : CoordinatorMachine) (i : CoordinatorInput) (r : CoordinatorRevocation)
    → m.pending ≡ some r
    → CoordinatorIsValid m
    → ServesAfter r.required_after (current (apply m i).0.state)
unfolding apply resolve start start_after refresh_at invalidate withdraw succeed fail reject
    retry_elapsed next_epoch add_duration current
apply_after m i r p v = ground (arith, p, v)

-- What a machine serves has evidence from after each of the given moments.
abbrev pub ServesAfterAll : List OutcomeStamp → Option CoordinatorRoute → Type 0
ServesAfterAll moments none = Unit
ServesAfterAll moments (some route) = All (λ t. t < route.evidence) moments

covered :
    (r : CoordinatorRevocation) (moments : List OutcomeStamp) (served : Option CoordinatorRoute)
    → Covers (some r) moments
    → ServesAfter r.required_after served
    → ServesAfterAll moments served
covered r moments none c h = tt
covered r moments (some route) c h =
    All-map (λ t. t ≤ r.required_after) (λ t. t < route.evidence)
      (λ t below. omega (arith, below, h)) moments c

-- After any run that leaves a revocation pending, the next input makes a route available only where its
-- evidence is newer than the required moment of the revocation and than every moment that was observed
-- against the revoked route since it was revoked.
pub revoked_until_evidence :
    (key : CoordinatorKey) (is : List CoordinatorInput) (i : CoordinatorInput)
    (r : CoordinatorRevocation)
    → (run (new key) is).0.pending ≡ some r
    → ServesAfterAll
        (r.required_after ∷ observed key is)
        (current (apply (run (new key) is).0 i).0.state)
revoked_until_evidence key is i r p =
    let m = (run (new key) is).0 in
    let seen = subst (λ q. Covers q (observed key is)) p (run-Covers key is) in
    covered r (r.required_after ∷ observed key is) (current (apply m i).0.state) (omega arith, seen)
      (apply_after m i r p (run-CoordinatorIsValid key is))
