-- ===== src/Core/Directory/Routes.antt =====
-- Construction, lookup and routes of a directory: directory/set.rs.
use kafka_driver.Base.{
  List, ℕ, ◌≡◌, length, find?, some, ◌≤◌, ◌==◌, Option-cases, arith, inl, inr, Bool-cases, ltb,
  refl,
}
use kafka_driver.Base.{nat_ord}
use kafka_driver.Core.Canonical.{sort_by, adjacent_duplicate}
use kafka_driver.Core.Canonical.Sorting.{Keyed, adjacent_iff}
use kafka_driver.Core.Canonical.Lookup.{find_by-sort}
use kafka_driver.Core.Directory.{
  BrokerDirectory, BrokerDirectoryEntry, BrokerRoute, DirectoryResult, built, rejected, resolved,
  try_from_iter_with_evidence, find, route_to, resolve, MetadataGeneration, List, BrokerId,
  EvidenceStamp,
}

abbrev pub directory_of :
    MetadataGeneration → EvidenceStamp → List BrokerDirectoryEntry → BrokerDirectory
directory_of g ev entries = record {
  generation = g;
  evidence = ev;
  entries = sort_by (λ e. e.broker_id) entries;
}

-- The entries fit the limit and name no broker twice.
abbrev pub Acceptable : List BrokerDirectoryEntry → (limit : ℕ) → Type 0
Acceptable entries limit = (length entries ≤ limit) × Keyed (λ e. e.broker_id) entries

abbrev pub BuiltOrNot :
    MetadataGeneration
    → EvidenceStamp
    → List BrokerDirectoryEntry
    → (limit : ℕ) → DirectoryResult
    → Type 0
BuiltOrNot g ev entries limit (built d) = (d ≡ directory_of g ev entries) × Acceptable entries limit
BuiltOrNot g ev entries limit (rejected _) = ¬ Acceptable entries limit

-- A directory is built exactly from entries that fit the limit and name no broker twice, and holds them
-- sorted with the generation and evidence given.
pub try_from_iter_cases :
    (g : MetadataGeneration) (ev : EvidenceStamp) (entries : List BrokerDirectoryEntry) (limit : ℕ)
    → BuiltOrNot g ev entries limit (try_from_iter_with_evidence g ev entries limit)
unfolding try_from_iter_with_evidence
try_from_iter_cases g ev entries limit =
    let unique = adjacent_iff (λ e. e.broker_id) entries in
    elim (Bool-cases (ltb limit (length entries))) [
      | inl over ↦ rw over (λ a. ground (arith, a.0, over))
      | inr fits ↦
          elim (Option-cases
            (adjacent_duplicate (λ e. e.broker_id) (sort_by (λ e. e.broker_id) entries))) [
              | inl none_there ↦
                  rw (fits, none_there) (refl, (ground (arith, fits), unique.0 none_there))
              | inr (x, some_there) ↦
                  rw (fits, some_there) (λ a. ground (arith, some_there, unique.1 a.1))
            ]
    ]

-- Whatever was built, a lookup finds the entry that the source has for the broker, and nothing for other
-- brokers.
pub lookup_finds :
    (g : MetadataGeneration) (ev : EvidenceStamp) (entries : List BrokerDirectoryEntry) (limit : ℕ)
    (d : BrokerDirectory) (b : BrokerId)
    → try_from_iter_with_evidence g ev entries limit ≡ built d
    → find d b ≡ find? (λ e. e.broker_id == b) entries
unfolding try_from_iter_with_evidence find
lookup_finds g ev entries limit d b h =
    elim (Option-cases
      (adjacent_duplicate (λ e. e.broker_id) (sort_by (λ e. e.broker_id) entries))) [
        | inl none_there ↦
            let made : directory_of g ev entries ≡ d = ground (arith, h, none_there) in
            let keyed = (adjacent_iff (λ e. e.broker_id) entries).0 none_there in
            rw (← made) (find_by-sort (λ e. e.broker_id) entries b keyed)
        | inr (x, some_there) ↦ absurd (ground (arith, h, some_there))
      ]

-- A route that a directory issues for a broker resolves there to the entry of that broker.
pub routes_resolve :
    (d : BrokerDirectory) (b : BrokerId) (r : BrokerRoute) (e : BrokerDirectoryEntry)
    → route_to d b ≡ some r
    → find d b ≡ some e
    → resolve d r ≡ resolved e
unfolding route_to resolve
routes_resolve d b r e h there =
    let made : r ≡ record { generation = d.generation; broker_id = b; evidence = d.evidence } =
      ground (arith, h, there) in
    rw made (ground (arith, there))

-- A directory resolves only the routes of its own generation and evidence.
pub routes_fenced :
    (d other : BrokerDirectory) (b : BrokerId) (r : BrokerRoute) (e : BrokerDirectoryEntry)
    → route_to d b ≡ some r
    → resolve other r ≡ resolved e
    → (other.generation ≡ d.generation) × (other.evidence ≡ d.evidence)
unfolding route_to resolve
routes_fenced d other b r e h t = elim (Option-cases (find d b)) [
  | inl nothing ↦ absurd (ground (arith, h, nothing))
  | inr (x, there) ↦ ground (arith, h, there, t)
]
