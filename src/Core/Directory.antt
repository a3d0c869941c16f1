-- ===== src/Core/Directory.antt =====
-- Broker membership of one metadata generation and routes to its brokers:
-- crates/kafka-driver-core/src/directory. The loop that collects the entries refuses the one that comes
-- after as many as the limit.
pub mod Routes
use kafka_driver.Base.{
  nat_ord, Bool, ℕ, List, ◌==◌, ◌∷◌, Option, if◌then◌else◌, none, [], leb, some, ltb, ◌!=◌, length,
}
use Prim.Native.Nat.{ℕ}
use kafka_driver.Core.Identity.{BrokerId, MetadataGeneration, EvidenceStamp, origin}
use kafka_driver.Core.Canonical.{sort_by, adjacent_duplicate, find_by}
use kafka_driver.Core.Endpoint.{BrokerEndpoint}

pub record BrokerDirectoryEntry : Type 0 where
  pub broker_id : BrokerId
  pub endpoint : BrokerEndpoint

pub record BrokerRoute : Type 0 where
  pub generation : MetadataGeneration
  pub broker_id : BrokerId
  pub evidence : EvidenceStamp

abbrev pub is_same_broker : BrokerRoute → BrokerRoute → Bool
is_same_broker a b = a.broker_id == b.broker_id

pub data BrokerDirectoryError : Type 0 where
  capacity : (limit : ℕ) → BrokerDirectoryError
  duplicate_broker : BrokerId → BrokerDirectoryError

pub data BrokerRouteError : Type 0 where
  stale_generation : (current routed : MetadataGeneration) → BrokerRouteError
  stale_evidence : (current routed : EvidenceStamp) → BrokerRouteError
  unknown_broker : BrokerId → BrokerRouteError

pub record BrokerDirectory : Type 0 where
  pub generation : MetadataGeneration
  pub evidence : EvidenceStamp
  pub entries : List BrokerDirectoryEntry

pub data DirectoryResult : Type 0 where
  built : BrokerDirectory → DirectoryResult
  rejected : BrokerDirectoryError → DirectoryResult

pub data ResolvedRoute : Type 0 where
  resolved : BrokerDirectoryEntry → ResolvedRoute
  unresolved : BrokerRouteError → ResolvedRoute

unfoldable pub try_from_iter_with_evidence :
    MetadataGeneration → EvidenceStamp → List BrokerDirectoryEntry → (limit : ℕ) → DirectoryResult
try_from_iter_with_evidence generation evidence entries limit =
    if ltb limit (length entries)
    then rejected (capacity limit)
    else elim (adjacent_duplicate (λ e. e.broker_id) (sort_by (λ e. e.broker_id) entries)) [
      | some duplicate ↦ rejected (duplicate_broker duplicate.broker_id)
      | none ↦ built (record {
        generation = generation;
        evidence = evidence;
        entries = sort_by (λ e. e.broker_id) entries;
      })
    ]

abbrev pub try_from_iter :
    MetadataGeneration → List BrokerDirectoryEntry → (limit : ℕ) → DirectoryResult
try_from_iter generation entries limit = try_from_iter_with_evidence generation origin entries limit

unfoldable pub find : BrokerDirectory → BrokerId → Option BrokerDirectoryEntry
find d broker_id = find_by (λ e. e.broker_id) d.entries broker_id

unfoldable pub route_to : BrokerDirectory → BrokerId → Option BrokerRoute
route_to d broker_id = elim (find d broker_id) [
  | none ↦ none
  | some _ ↦
      some (record { generation = d.generation; broker_id = broker_id; evidence = d.evidence })
]

-- `ok_or`.
entry_or : BrokerId → Option BrokerDirectoryEntry → ResolvedRoute
entry_or broker_id none = unresolved (unknown_broker broker_id)
entry_or broker_id (some entry) = resolved entry

unfoldable pub resolve : BrokerDirectory → BrokerRoute → ResolvedRoute
unfolding entry_or
resolve d route =
    if route.generation != d.generation
    then unresolved (stale_generation d.generation route.generation)
    else if route.evidence != d.evidence
    then unresolved (stale_evidence d.evidence route.evidence)
    else entry_or route.broker_id (find d route.broker_id)
