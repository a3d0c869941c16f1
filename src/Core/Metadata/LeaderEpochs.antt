-- ===== src/Core/Metadata/LeaderEpochs.antt =====
-- The leader epochs of a topic refresh that is taken: metadata/outcome.rs and
-- metadata/partition/set.rs.
use kafka_driver.Base.{
  nat_ord, list_ord, pair_ord, Bool, ◌≤◌, ◌≡◌, List, ℕ, ◌<◌, false, some, any, ◌⊎◌, ap, arith,
  get_elem?, ◌∙◌, ◌∷◌, subst, suc, [], zero,
}
use kafka_driver.Core.Identity.{
  OperationId, TopicName, PartitionId, LeaderEpoch, MetadataGeneration,
}
use kafka_driver.Core.Canonical.Lookup.{find_by_hits}
use kafka_driver.Core.Metadata.{
  MetadataMachine, MetadataSnapshot, MetadataQuery, PartitionLeader, PartitionLeaderSet, refreshing,
  refresh_succeeded, topic, partition_of, find_leader, regresses_against, regresses_from,
  assignment_regresses, apply, succeed, applied,
}

any-get :
    (p : PartitionLeader → Bool) (xs : List PartitionLeader) (i : ℕ) (x : PartitionLeader)
    → any p xs ≡ false
    → get_elem? xs i ≡ some x
    → p x ≡ false
any-get p [] i x h e = absurd (ground (arith, e))
any-get p (y ∷ ys) zero x h e =
    let same : y ≡ x = ground (arith, e) in subst (λ z. p z ≡ false) same (ground (arith, h))
any-get p (y ∷ ys) (suc i) x h e = any-get p ys i x (ground (arith, h)) e

-- The new epoch is not older, and the same epoch has the same broker.
abbrev pub Advances : (previous current : PartitionLeader) → LeaderEpoch → LeaderEpoch → Type 0
Advances previous current e f = (e ≤ f) × ((e < f) ⊎ (current.broker_id ≡ previous.broker_id))

found_forward :
    (leaders previous : PartitionLeaderSet) (t : TopicName) (p : PartitionId)
    (x y : PartitionLeader)
    → regresses_from leaders previous ≡ false
    → find_leader leaders t p ≡ some x
    → find_leader previous t p ≡ some y
    → assignment_regresses y x ≡ false
unfolding regresses_from find_leader
found_forward leaders previous t p x y forward here before =
    let (i, (at_i, keyed)) = find_by_hits partition_of leaders (t, p) x here in
    let each =
      any-get
        (λ current.
          regresses_against (find_leader previous current.topic current.partition) current)
        leaders i x forward at_i in
    let there : find_leader previous x.topic x.partition ≡ some y =
      ap (λ k. find_leader previous k.0 k.1) keyed ∙ before in
    subst (λ o. regresses_against o x ≡ false) there each

not_regressed :
    (previous current : PartitionLeader) (e f : LeaderEpoch)
    → assignment_regresses previous current ≡ false
    → previous.leader_epoch ≡ some e
    → current.leader_epoch ≡ some f
    → Advances previous current e f
not_regressed previous current e f h a b = ground (arith, h, a, b)

taken_forward :
    (m : MetadataMachine) (previous s : MetadataSnapshot) (op active f : OperationId)
    (t : TopicName) (target : MetadataGeneration) (queue : List MetadataQuery)
    → m.state ≡ refreshing (some previous) active (topic t) target queue
    → (apply m (refresh_succeeded op s f)).1.disposition ≡ applied
    → regresses_from s.leaders previous.leaders ≡ false
unfolding apply succeed
taken_forward m previous s op active f t target queue here taken = ground (arith, here, taken)

-- A refresh of a topic that is taken never goes back in the leader epochs it knows: for a partition that
-- both snapshots have with an epoch, the new epoch is at least the old one, and the same epoch has the
-- same broker.
pub taken_epochs_advance :
    (m : MetadataMachine) (previous s : MetadataSnapshot) (op active f : OperationId)
    (t : TopicName) (target : MetadataGeneration) (queue : List MetadataQuery) (name : TopicName)
    (p : PartitionId) (x y : PartitionLeader) (old new : LeaderEpoch)
    → m.state ≡ refreshing (some previous) active (topic t) target queue
    → (apply m (refresh_succeeded op s f)).1.disposition ≡ applied
    → find_leader previous.leaders name p ≡ some y
    → find_leader s.leaders name p ≡ some x
    → y.leader_epoch ≡ some old
    → x.leader_epoch ≡ some new
    → Advances y x old new
taken_epochs_advance m previous s op active f t target queue name p x y old new here taken before
      after oy nx =
    let forward = taken_forward m previous s op active f t target queue here taken in
    not_regressed y x old new
      (found_forward s.leaders previous.leaders name p x y forward after before) oy nx
