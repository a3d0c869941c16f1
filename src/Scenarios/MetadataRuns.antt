-- ===== src/Scenarios/MetadataRuns.antt =====
-- A cluster of two brokers: its directory, the APIs of one of them, and metadata whose routes are
-- withdrawn and confirmed.
use kafka_driver.Base.{
  binary_search_by, narrow, nat_ord, list_ord, pair_ord, List, ◌≡◌, ◌∷◌, ℕ, some, NonDescending, [],
  find?, refl, ◌==◌,
}
use kafka_driver.Core.Identity.{TopicName, next_generation}
use kafka_driver.Core.Endpoint.{BrokerEndpoint}
use kafka_driver.Core.Canonical.{adjacent_duplicate, sort_by, insert_by, find_by, remove_by}
use kafka_driver.Core.Capability
use kafka_driver.Core.Capability.{NegotiatedApi, NegotiatedCapabilities, retained}
use kafka_driver.Core.Capability.Search.{api_finds}
use kafka_driver.Core.Directory
use kafka_driver.Core.Directory.{BrokerDirectory, BrokerDirectoryEntry, BrokerRoute, built}
use kafka_driver.Core.Directory.Routes.{lookup_finds}
use kafka_driver.Core.Metadata
use kafka_driver.Core.Metadata.{
  MetadataInput, MetadataMachine, MetadataSnapshot, PartitionLeader, PartitionRoute, resolve,
  refresh_succeeded, refresh_failed, invalidate_broker_route, invalidate_partition_route, cluster,
  topic, partition_route, refreshing, find_leader,
}
use kafka_driver.Core.Metadata.Steps
use kafka_driver.Core.Metadata.Validity.{MetadataIsValid, run-MetadataIsValid}
use kafka_driver.Core.Metadata.Generations.{fetched, milestones, fetches-NonDescending}
use kafka_driver.Core.Metadata.Withdrawal.{MachineHolds, withdrawn_not_served}
use kafka_driver.Core.Metadata.LeaderEpochs.{Advances, taken_epochs_advance}

abbrev apis : List NegotiatedApi
apis =
    record { api_key = 3; versions = record { min_version = 0; max_version = 12 } }
    ∷ record { api_key = 18; versions = record { min_version = 0; max_version = 3 } }
    ∷ []

abbrev negotiated : NegotiatedCapabilities
negotiated = record { apis = apis }

negotiated-retained : Capability.try_from_iter apis 4 ≡ retained negotiated
unfolding Capability.try_from_iter
negotiated-retained = refl

api_finds_example : Capability.api negotiated 18 ≡ find? (λ a. a.api_key == 18) apis
api_finds_example = api_finds apis 4 negotiated 18 negotiated-retained

abbrev host : BrokerEndpoint
host = record { host = record { bytes = 97 ∷ [] }; port = 9092 }

abbrev entry : ℕ → BrokerDirectoryEntry
entry b = record { broker_id = b; endpoint = host }

abbrev directory : ℕ → ℕ → BrokerDirectory
directory g ev = record { generation = g; evidence = ev; entries = entry 4 ∷ entry 7 ∷ [] }

directory-built :
    Directory.try_from_iter_with_evidence 1 5 (entry 7 ∷ entry 4 ∷ []) 2 ≡ built (directory 1 5)
unfolding Directory.try_from_iter_with_evidence adjacent_duplicate sort_by insert_by
directory-built = refl

lookup_finds_example :
    Directory.find (directory 1 5) 4 ≡ find? (λ e. e.broker_id == 4) (entry 7 ∷ entry 4 ∷ [])
lookup_finds_example = lookup_finds 1 5 (entry 7 ∷ entry 4 ∷ []) 2 (directory 1 5) 4 directory-built

abbrev name : TopicName
name = 116 ∷ []

abbrev leader : ℕ → ℕ → ℕ → PartitionLeader
leader b e ev = record {
  topic = name;
  partition = 0;
  broker_id = b;
  leader_epoch = some e;
  revision = 1;
  evidence = ev;
}

abbrev snapshot : ℕ → ℕ → ℕ → ℕ → MetadataSnapshot
snapshot g ev b e = record {
  brokers = directory g ev;
  controller = some (record { generation = g; broker_id = 4; evidence = ev });
  leaders = leader b e ev ∷ [];
  topic_counts = [];
}

abbrev lost : PartitionRoute
lost = record {
  broker = record { generation = 1; broker_id = 4; evidence = 5 };
  topic = name;
  partition = 0;
  leader_epoch = some 3;
  revision = 1;
  evidence = 5;
}

abbrev inputs : List MetadataInput
inputs =
    resolve (topic name) 1
    ∷ refresh_succeeded 1 (snapshot 1 5 4 3) 2
    ∷ invalidate_broker_route (record { generation = 1; broker_id = 4; evidence = 5 }) 6 3
    ∷ invalidate_partition_route lost 7 4
    ∷ refresh_failed 3 5
    ∷ refresh_succeeded 5 (snapshot 2 6 4 3) 6
    ∷ []

abbrev last : MetadataMachine
last = (Steps.run (Metadata.with_query_limits 1 8) inputs).0

run-MetadataIsValid_example : MetadataIsValid last
run-MetadataIsValid_example = run-MetadataIsValid 1 8 inputs

fetches-NonDescending_example : NonDescending 1 (milestones (Metadata.with_query_limits 1 8) inputs)
fetches-NonDescending_example = fetches-NonDescending 1 8 inputs

withdrawn_not_served_example : MachineHolds last
withdrawn_not_served_example =
    withdrawn_not_served 1 8 inputs (tt, ((tt, tt), (tt, (tt, (tt, ((tt, tt), tt))))))

last_fetches : fetched (Steps.run (Metadata.with_query_limits 1 8) inputs).1 ≡ 1 ∷ 2 ∷ 2 ∷ []
unfolding Metadata.with_query_limits Metadata.apply Metadata.admit Metadata.start Metadata.fail
    Metadata.invalidate Metadata.invalidate_partition Metadata.withdraw_with Metadata.succeed
    Metadata.accept Metadata.follow Metadata.settle Metadata.regresses_from Metadata.find_leader
    find_by binary_search_by narrow next_generation Metadata.controller_pending
    Metadata.partition_pending partition_route Directory.route_to Directory.find
    Metadata.without_partition Metadata.remove_leader remove_by
last_fetches = refl

abbrev refreshing_topic : MetadataMachine
refreshing_topic = record {
  state = refreshing (some (snapshot 1 5 4 3)) 9 (topic name) 2 [];
  pending_queries = 8;
  revocations = Metadata.no_revocations;
}

taken_epochs_advance_example : Advances (leader 4 3 5) (leader 7 4 6) 3 4
unfolding Metadata.apply Metadata.succeed Metadata.accept Metadata.follow Metadata.settle
    Metadata.regresses_from Metadata.find_leader find_by binary_search_by narrow next_generation
taken_epochs_advance_example =
    taken_epochs_advance refreshing_topic (snapshot 1 5 4 3) (snapshot 2 6 7 4) 9 9 10 name 2 []
      name 0 (leader 7 4 6) (leader 4 3 5) 3 4 refl refl refl refl refl refl
