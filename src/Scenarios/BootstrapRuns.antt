-- ===== src/Scenarios/BootstrapRuns.antt =====
-- Two endpoints whose resolutions fail, the wait after it, and the resolution of one broker.
use kafka_driver.Base.{List, [], ◌∷◌, ◌++◌, ◌≡◌, refl, arith, take, drop}
use kafka_driver.Core.Endpoint.{BrokerEndpoint, endpoint_eq, address_eq, v4, new_address}
use kafka_driver.Core.Resolution.{temporary, found, failed, name_not_found}
use kafka_driver.Core.BoundedSet
use kafka_driver.Core.BoundedSet.{Admission, admitted, refused, capacity}
use kafka_driver.Core.BoundedSet.Laws.{admission_of, admits_first}
use kafka_driver.Core.Bootstrap
use kafka_driver.Core.Bootstrap.{
  BootstrapMachine, BootstrapInput, BootstrapEffect, dormant, start, resolution_completed,
  report_exhausted,
}
use kafka_driver.Core.Bootstrap.Attempts
use kafka_driver.Core.Bootstrap.Pass.{asks, all_fail, pass_exhausts}
use kafka_driver.Core.Bootstrap.Retry
use kafka_driver.Core.Bootstrap.Retry.Rounds.{
  Round, run_rounds, resting, round_effects, rounds_grow,
}
use kafka_driver.Core.Broker.{BackoffPolicy, try_new, valid}
use kafka_driver.Core.Directory.{BrokerRoute}
use kafka_driver.Core.BrokerResolution
use kafka_driver.Core.BrokerResolution.{BrokerResolutionInput}
use kafka_driver.Core.BrokerResolution.Fencing

abbrev first_endpoint : BrokerEndpoint
first_endpoint = record { host = record { bytes = 97 ∷ [] }; port = 9092 }

abbrev second_endpoint : BrokerEndpoint
second_endpoint = record { host = record { bytes = 98 ∷ [] }; port = 9092 }

abbrev endpoints : List BrokerEndpoint
endpoints = first_endpoint ∷ second_endpoint ∷ []

abbrev configured : List BrokerEndpoint
configured = first_endpoint ∷ second_endpoint ∷ first_endpoint ∷ []

configured-kept : Bootstrap.bootstrap_set configured 3 ≡ admitted endpoints
unfolding Bootstrap.bootstrap_set BoundedSet.try_from_iter BoundedSet.keep_unique BoundedSet.finish
configured-kept = refl

configured_over : Bootstrap.bootstrap_set configured 2 ≡ refused (capacity 2)
unfolding Bootstrap.bootstrap_set BoundedSet.try_from_iter BoundedSet.keep_unique BoundedSet.finish
configured_over = refl

admits_first_example : BoundedSet.try_from_iter configured 3 ≡ admission_of configured 3
admits_first_example = admits_first configured 3

abbrev at_second : BootstrapMachine
at_second = record { endpoints = endpoints; cursor = 1; state = dormant }

pass_exhausts_example :
    (Attempts.run at_second (start 5 10 ∷ all_fail 5 temporary 12 10 (11 ∷ []))).1
    ≡ asks 5 (10 ∷ 11 ∷ []) (drop 1 endpoints ++ take 1 endpoints)
      ++ report_exhausted 5 temporary ∷ []
pass_exhausts_example =
    pass_exhausts endpoints 5 temporary 12 1 dormant 10 (11 ∷ []) (omega arith) refl tt

pass-order :
    asks 5 (10 ∷ 11 ∷ []) (drop 1 endpoints ++ take 1 endpoints)
    ≡ asks 5 (10 ∷ 11 ∷ []) (second_endpoint ∷ first_endpoint ∷ [])
pass-order = refl

abbrev starts_again : List BootstrapInput
starts_again = start 5 10 ∷ start 5 11 ∷ all_fail 5 temporary 12 10 (11 ∷ []) ++ start 6 13 ∷ []

abbrev policy : BackoffPolicy
policy = record { base_nanos = 100; max_nanos = 1000 }

policy_accepted : try_new 100 1000 ≡ valid policy
unfolding try_new
policy_accepted = refl

abbrev failed_passes : List Round
failed_passes = (10, 7) ∷ (500, 3) ∷ []

rounds_grow_example :
    run_rounds policy (Retry.new policy) 1 failed_passes
    ≡ (resting policy 3, round_effects policy 1 failed_passes)
rounds_grow_example =
    rounds_grow policy 100 1000 failed_passes policy_accepted (omega arith, (omega arith, tt))
      (omega arith)

abbrev route : BrokerRoute
route = record { generation = 1; broker_id = 7; evidence = 0 }

abbrev resolution_inputs : List BrokerResolutionInput
resolution_inputs =
    BrokerResolution.start route first_endpoint 1 9
    ∷ BrokerResolution.start route second_endpoint 2 10
    ∷ BrokerResolution.resolution_completed
        (record { epoch = 1; effect_id = 9; result = failed name_not_found })
    ∷ BrokerResolution.resolution_completed (record {
      epoch = 2;
      effect_id = 10;
      result = found (new_address (v4 (127 ∷ 0 ∷ 0 ∷ 7 ∷ [])) 9092 ∷ []);
    })
    ∷ []
