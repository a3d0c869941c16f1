-- ===== src/Core/Metadata/Missing.antt =====
-- Leaders without the withdrawn partitions: metadata/revocation.rs and metadata/partition/set.rs.
use kafka_driver.Base.{
  nat_ord, list_ord, pair_ord, ◌≡◌, List, ℕ, none, Option, ◌∷◌, All, some, Bool-cases, inl, inr, [],
}
use kafka_driver.Core.Canonical.Sorting.{Strict}
use kafka_driver.Core.Canonical.Removal.{remove_by-Strict, removed_same, removed_none}
use kafka_driver.Core.Identity.{TopicName, PartitionId}
use kafka_driver.Core.Metadata.{
  partition_of, PartitionRoute, is_same_assignment, PartitionLeaderSet, find_leader, remove_leader,
  MetadataSnapshot, without_partition, MetadataQuery, PartitionRevocation, revoke_assignment,
  satisfied, settle_partitions,
}

abbrev pub Missing : PartitionLeaderSet → PartitionRevocation → Type 0
Missing leaders r = find_leader leaders r.route.topic r.route.partition ≡ none

-- The leaders are sorted without repeats, and none of them is of a withdrawn partition.
abbrev pub Held : List PartitionRevocation → Option MetadataSnapshot → Type 0
Held rs none = Unit
Held rs (some s) = Strict partition_of s.leaders × All (Missing s.leaders) rs

pub Missing-without :
    (leaders : PartitionLeaderSet) (t : TopicName) (p : PartitionId) (r : PartitionRevocation)
    → Strict partition_of leaders
    → Missing leaders r
    → Missing (remove_leader leaders t p) r
unfolding find_leader remove_leader
Missing-without leaders t p r s h =
    removed_none partition_of leaders (t, p) (r.route.topic, r.route.partition) s h

pub Strict-without :
    (leaders : PartitionLeaderSet) (t : TopicName) (p : PartitionId)
    → Strict partition_of leaders
    → Strict partition_of (remove_leader leaders t p)
unfolding remove_leader
Strict-without leaders t p s = remove_by-Strict partition_of leaders (t, p) s

pub gone :
    (leaders : PartitionLeaderSet) (t : TopicName) (p : PartitionId)
    → Strict partition_of leaders
    → find_leader (remove_leader leaders t p) t p ≡ none
unfolding find_leader remove_leader
gone leaders t p s = removed_same partition_of leaders (t, p) s

-- Settling removes leaders only.
pub settle-Missing :
    (rs : List PartitionRevocation) (evidence : ℕ) (s : MetadataSnapshot) (q : MetadataQuery)
    → Strict partition_of s.leaders
    → Strict partition_of (settle_partitions rs evidence s q).1.leaders
      × ((r : PartitionRevocation)
          → Missing s.leaders r
          → Missing (settle_partitions rs evidence s q).1.leaders r)
unfolding settle_partitions without_partition
settle-Missing [] evidence s q o = (o, λ r h. h)
settle-Missing (r ∷ rs) evidence s q o = elim (Bool-cases (satisfied r evidence q)) [
  | inl free ↦ rw free (settle-Missing rs evidence s q o)
  | inr held ↦
      let t = r.route.topic in
      let p = r.route.partition in
      let (order, keep) =
        settle-Missing rs evidence (without_partition s t p) q (Strict-without s.leaders t p o) in
      rw held (order, λ x h. keep x (Missing-without s.leaders t p x o h))
]

pub settle-Held :
    (rs : List PartitionRevocation) (evidence : ℕ) (s : MetadataSnapshot) (q : MetadataQuery)
    → Strict partition_of s.leaders
    → All
        (Missing (settle_partitions rs evidence s q).1.leaders)
        (settle_partitions rs evidence s q).0
unfolding settle_partitions without_partition
settle-Held [] evidence s q o = tt
settle-Held (r ∷ rs) evidence s q o = elim (Bool-cases (satisfied r evidence q)) [
  | inl free ↦ rw free (settle-Held rs evidence s q o)
  | inr held ↦
      let t = r.route.topic in
      let p = r.route.partition in
      let o' = Strict-without s.leaders t p o in
      let (_, keep) = settle-Missing rs evidence (without_partition s t p) q o' in
      rw held
        (keep r (gone s.leaders t p o), settle-Held rs evidence (without_partition s t p) q o')
]

pub revoke-Missing :
    (leaders : PartitionLeaderSet) (rs : List PartitionRevocation) (route : PartitionRoute) (o : ℕ)
    → find_leader leaders route.topic route.partition ≡ none
    → All (Missing leaders) rs
    → All (Missing leaders) (revoke_assignment rs route o)
unfolding revoke_assignment
revoke-Missing leaders [] route o here h = (here, tt)
revoke-Missing leaders (r ∷ rs) route o here h =
    elim (Bool-cases (is_same_assignment r.route route)) [
      | inl same ↦ rw same h
      | inr other ↦ rw other (h.0, revoke-Missing leaders rs route o here h.1)
    ]
