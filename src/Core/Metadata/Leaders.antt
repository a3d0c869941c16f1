-- ===== src/Core/Metadata/Leaders.antt =====
-- Sets of partition leaders and their epochs: metadata/partition/set.rs and outcome.rs.
use kafka_driver.Base.{
  nat_ord, list_ord, pair_ord, List, length, ◌≡◌, Bool-cases, ◌≤◌, ltb, none, inl, arith, inr,
  Option-cases, refl, find?, subst,
}
use kafka_driver.Core.Canonical.{sort_by, adjacent_duplicate}
use kafka_driver.Core.Canonical.Sorting.{Strict, Strict-sort, Keyed, adjacent_iff}
use kafka_driver.Core.Canonical.Lookup.{has_key, find_by-sort}
use kafka_driver.Core.Identity.{TopicName, PartitionId}
use kafka_driver.Core.Metadata.{
  PartitionLeader, PartitionLeaderLimits, PartitionLeaderSet, LeaderSetResult, accepted, refused,
  try_leaders, find_leader, partition_of, count_topics,
}

-- The leaders fit the limits, and no partition has two.
abbrev pub Acceptable : List PartitionLeader → PartitionLeaderLimits → Type 0
Acceptable source limits =
    (length source ≤ limits.max_partitions)
    × Keyed partition_of source
    × (count_topics none 0 (sort_by partition_of source) ≤ limits.max_topics)

abbrev pub AcceptedOrNot : List PartitionLeader → PartitionLeaderLimits → LeaderSetResult → Type 0
AcceptedOrNot source limits (accepted leaders) =
    (leaders ≡ sort_by partition_of source) × Acceptable source limits
AcceptedOrNot source limits (refused _) = ¬ Acceptable source limits

-- A set of leaders is accepted, sorted, exactly where it fits the limits on partitions and topics and has
-- no partition twice.
pub try_leaders_cases :
    (source : List PartitionLeader) (limits : PartitionLeaderLimits)
    → AcceptedOrNot source limits (try_leaders source limits)
unfolding try_leaders
try_leaders_cases source limits =
    let unique = adjacent_iff partition_of source in
    elim (Bool-cases (ltb limits.max_partitions (length source))) [
      | inl over ↦ rw over (λ a. ground (arith, a.0, over))
      | inr fits ↦
          elim (Option-cases (adjacent_duplicate partition_of (sort_by partition_of source))) [
            | inr (x, some_there) ↦
                rw (fits, some_there)
                  (λ a. let (_, keyed, _) = a in ground (arith, some_there, unique.1 keyed))
            | inl none_there ↦
                elim (Bool-cases
                  (ltb limits.max_topics (count_topics none 0 (sort_by partition_of source)))) [
                    | inl many ↦
                        rw (fits, none_there, many)
                          (λ a. let (_, _, few) = a in ground (arith, few, many))
                    | inr few ↦
                        rw (fits, none_there, few)
                          (refl, (ground (arith, fits), unique.0 none_there, ground (arith, few)))
                  ]
          ]
    ]

-- In an accepted set a lookup finds the leader that the source has for the partition.
pub find_leader_finds :
    (source : List PartitionLeader) (limits : PartitionLeaderLimits) (leaders : PartitionLeaderSet)
    (t : TopicName) (p : PartitionId)
    → try_leaders source limits ≡ accepted leaders
    → (find_leader leaders t p ≡ find? (has_key partition_of (t, p)) source)
      × Strict partition_of leaders
unfolding find_leader
find_leader_finds source limits leaders t p h =
    let told = subst (AcceptedOrNot source limits) h (try_leaders_cases source limits) in
    let (_, keyed, _) = told.1 in
    rw told.0 (find_by-sort partition_of source (t, p) keyed, Strict-sort partition_of source keyed)
