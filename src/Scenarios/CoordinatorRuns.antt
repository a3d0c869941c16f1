-- ===== src/Scenarios/CoordinatorRuns.antt =====
-- A group coordinator that is found, revoked and found again with newer evidence.
use kafka_driver.Base.{List, ◌∷◌, ◌≡◌, [], refl, ◌++◌}
use kafka_driver.Core.Identity.{CoordinatorKey, group, add_duration, next_epoch}
use kafka_driver.Core.Endpoint.{BrokerEndpoint}
use kafka_driver.Core.Coordinator
use kafka_driver.Core.Coordinator.{
  CoordinatorRoute, CoordinatorRevocation, CoordinatorInput, resolve_input, invalidate_input,
  discovery_succeeded, discovery_rejected, retry_elapsed_input, find, ready, current,
}
use kafka_driver.Core.Coordinator.Validity
use kafka_driver.Core.Coordinator.Validity.{CoordinatorIsValid, run-CoordinatorIsValid}
use kafka_driver.Core.Coordinator.Revocation.{ServesAfterAll, revoked_until_evidence}
use kafka_driver.Core.Coordinator.Observations.{observed}
use kafka_driver.Core.Coordinator.Epochs.{found_epochs}

abbrev key : CoordinatorKey
key = record { kind = group; value = 103 ∷ [] }

abbrev broker : BrokerEndpoint
broker = record { host = record { bytes = 97 ∷ [] }; port = 9092 }

abbrev served : CoordinatorRoute
served = record { key = key; broker_id = 4; endpoint = broker; epoch = 1; evidence = 5 }

abbrev until_revoked : List CoordinatorInput
until_revoked =
    resolve_input 1
    ∷ discovery_rejected 1 1 0 2
    ∷ retry_elapsed_input 1 1 100000000 2
    ∷ discovery_succeeded 2 1 4 broker 5 3
    ∷ invalidate_input served 8 4
    ∷ []

run-CoordinatorIsValid_example :
    CoordinatorIsValid (Validity.run (Coordinator.new key) until_revoked).0
run-CoordinatorIsValid_example = run-CoordinatorIsValid key until_revoked

looked_up : found_epochs (Validity.run (Coordinator.new key) until_revoked).1 ≡ 1 ∷ 1 ∷ 2 ∷ []
unfolding Coordinator.new Coordinator.with_initial_epoch Coordinator.apply Coordinator.resolve
    Coordinator.reject Coordinator.invalidate Coordinator.succeed Coordinator.retry_elapsed
    Coordinator.start add_duration next_epoch
looked_up = refl

-- A later failure of the same route is observed while the revocation is pending, and then an earlier one.
abbrev observed_twice : List CoordinatorInput
observed_twice = until_revoked ++ invalidate_input served 11 6 ∷ invalidate_input served 9 7 ∷ []

abbrev revoked : CoordinatorRevocation
revoked = record { target = served; required_after = 11 }

all_observed : observed key observed_twice ≡ 9 ∷ 11 ∷ 8 ∷ []
unfolding Coordinator.new Coordinator.with_initial_epoch Coordinator.apply Coordinator.resolve
    Coordinator.reject Coordinator.invalidate Coordinator.succeed Coordinator.retry_elapsed
    Coordinator.start Coordinator.refresh_at add_duration next_epoch
all_observed = refl

revoked_until_evidence_example : ServesAfterAll (11 ∷ observed key observed_twice) (
    current
      (Coordinator.apply
        (Validity.run (Coordinator.new key) observed_twice).0
        (discovery_succeeded 4 2 5 broker 12 5)).0.state)
unfolding Coordinator.new Coordinator.with_initial_epoch Coordinator.apply Coordinator.resolve
    Coordinator.reject Coordinator.invalidate Coordinator.succeed Coordinator.retry_elapsed
    Coordinator.start Coordinator.refresh_at add_duration next_epoch
revoked_until_evidence_example =
    revoked_until_evidence key observed_twice (discovery_succeeded 4 2 5 broker 12 5) revoked refl
