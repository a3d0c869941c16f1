-- ===== src/Core/Metadata/Settling.antt =====
-- A snapshot with the withdrawn routes taken out: metadata/revocation.rs.
use kafka_driver.Base.{Option, ℕ, List, some, ◌≡◌, none, ◌∷◌, arith, [], refl}
use kafka_driver.Core.Metadata.{
  MetadataQuery, MetadataSnapshot, MetadataRevocations, PartitionRevocation, ControllerRevocation,
  settle, settle_partitions, settle_controller, generation, without_partition,
}

-- No controller is served while its withdrawal is pending.
abbrev pub Withdrawn : Option ControllerRevocation → Option MetadataSnapshot → Type 0
Withdrawn none c = Unit
Withdrawn (some r) none = Unit
Withdrawn (some r) (some snapshot) = snapshot.controller ≡ none

pub settle_partitions-generation :
    (rs : List PartitionRevocation) (evidence : ℕ) (s : MetadataSnapshot) (q : MetadataQuery)
    → (generation (settle_partitions rs evidence s q).1 ≡ generation s)
      × ((settle_partitions rs evidence s q).1.controller ≡ s.controller)
unfolding settle_partitions without_partition
settle_partitions-generation [] evidence s q = (refl, refl)
settle_partitions-generation (r ∷ rs) evidence s q =
    let freed = settle_partitions-generation rs evidence s q in
    let held =
      settle_partitions-generation rs evidence (without_partition s r.route.topic r.route.partition)
        q in
    ground (arith, freed, held)

pub settle_controller-Withdrawn :
    (c : Option ControllerRevocation) (s : MetadataSnapshot) (q : MetadataQuery)
    → (generation (settle_controller c s q).1 ≡ generation s)
      × Withdrawn (settle_controller c s q).0 (some (settle_controller c s q).1)
unfolding settle_controller
settle_controller-Withdrawn c s q = ground arith

pub settle-Withdrawn :
    (rs : MetadataRevocations) (s : MetadataSnapshot) (q : MetadataQuery)
    → (generation (settle rs s q).1 ≡ generation s)
      × Withdrawn (settle rs s q).0.controller (some (settle rs s q).1)
unfolding settle
settle-Withdrawn rs s q =
    let (controller, first) = settle_controller rs.controller s q in
    let inner = settle_controller-Withdrawn rs.controller s q in
    let outer = settle_partitions-generation rs.partitions s.brokers.evidence first q in
    ground (arith, inner, outer)
