-- ===== src/Scenarios/BrokerRuns.antt =====
-- A broker whose first connections fail, a SASL exchange and a session.
use kafka_driver.Base.{List, [], ◌∷◌, ◌≡◌, ◌≤◌, ◌*◌, ◌^◌, ◌-◌, min, refl, arith, none}
use kafka_driver.Core.Authentication
use kafka_driver.Core.Authentication.{
  SaslProtocol, AuthenticationLimits, AuthenticationInput, plain, start, handshake_accepted,
  exchange_completed, continues,
}
use kafka_driver.Core.Authentication.Rounds
use kafka_driver.Core.Authentication.Rounds.{RoundIsValid, exchanges, rounds_bounded}
use kafka_driver.Core.Session
use kafka_driver.Core.Session.{SessionInput}
use kafka_driver.Core.Session.Terminal
use kafka_driver.Core.Session.Terminal.{closes, closes_once}
use kafka_driver.Core.Broker
use kafka_driver.Core.Broker.{
  BackoffPolicy, BrokerMachine, BrokerInput, RetrySchedule, connection_failed, reconnect_elapsed,
  connection_ready, begin_drain, delay, delay_cap, try_new, valid,
}
use kafka_driver.Core.Broker.Epochs
use kafka_driver.Core.Broker.Epochs.{Ascending, Retired, opened, opens-Ascending, drained_for_good}
use kafka_driver.Core.Broker.Delays.{delay_bounds}

abbrev policy : BackoffPolicy
policy = record { base_nanos = 100; max_nanos = 1000 }

abbrev schedule : RetrySchedule
schedule = record { timer_id = 5; now = 10; jitter = 7 }

abbrev inputs : List BrokerInput
inputs =
    Broker.start
    ∷ connection_failed 3 schedule
    ∷ reconnect_elapsed 3 5 200
    ∷ connection_ready 4
    ∷ connection_failed 4 schedule
    ∷ reconnect_elapsed 4 5 200
    ∷ begin_drain
    ∷ []

inputs-opened : opened (Epochs.run (Broker.new 3 policy) inputs).1 ≡ 3 ∷ 4 ∷ 5 ∷ []
unfolding Broker.new Broker.apply
inputs-opened = refl

opens-Ascending_example : Ascending 3 (opened (Epochs.run (Broker.new 3 policy) inputs).1)
opens-Ascending_example = opens-Ascending 3 policy inputs

drained_for_good_example :
    Retired (Epochs.run (Broker.new 3 policy) (begin_drain ∷ inputs)).0.state
    × ((Epochs.run (Broker.new 3 policy) (begin_drain ∷ inputs)).1
        ≡ (Broker.apply (Broker.new 3 policy) begin_drain).1.effects)
drained_for_good_example = drained_for_good (Broker.new 3 policy) inputs

policy_accepted : try_new 100 1000 ≡ valid policy
unfolding try_new
policy_accepted = refl

delay_bounds_example :
    (1 ≤ delay policy 3 7)
    × (delay policy 3 7 ≤ 1000)
    × (100 ≤ 2 * delay policy 3 7)
    × (delay policy 3 7 ≤ 100 * 2 ^ min (3 - 1) 63)
    × (delay_cap policy 3 ≤ 2 * delay policy 3 7)
delay_bounds_example = delay_bounds 100 1000 policy 3 7 policy_accepted

abbrev sasl : SaslProtocol
sasl = record { mechanism = plain; handshake_version = 1; authenticate_version = 2 }

abbrev two_rounds : AuthenticationLimits
two_rounds = record { max_exchange_rounds = 2 }

abbrev dialogue : List AuthenticationInput
dialogue =
    start (record { effect_id = 1; deadline_timer = 2; now = 0; deadline = 9 })
    ∷ handshake_accepted 1 6 1
    ∷ exchange_completed 1 6 1 1 continues
    ∷ exchange_completed 1 6 1 2 continues
    ∷ []

dialogue-exchanges : exchanges (Rounds.run (Authentication.new 1 6 sasl two_rounds) dialogue).1 ≡ 2
unfolding Authentication.new Authentication.apply
dialogue-exchanges = refl

rounds_bounded_example :
    RoundIsValid 2 (Rounds.run (Authentication.new 1 6 sasl two_rounds) dialogue).0.state
    × (exchanges (Rounds.run (Authentication.new 1 6 sasl two_rounds) dialogue).1 ≤ 2)
rounds_bounded_example = rounds_bounded 1 6 sasl two_rounds dialogue (omega arith)

abbrev failing : List SessionInput
failing =
    Session.transport_opened (record { now = 0; deadline = 9 })
    ∷ Session.api_versions_failed Session.NegotiationFailure.broker
    ∷ Session.begin_drain
    ∷ Session.transport_gone
    ∷ []

closes_once_example :
    (Terminal.rank (Session.new 4 none).state
      ≤ Terminal.rank (Terminal.run (Session.new 4 none) failing).0.state)
    × (closes (Terminal.run (Session.new 4 none) failing).1 ≤ 1)
closes_once_example = closes_once (Session.new 4 none) failing
