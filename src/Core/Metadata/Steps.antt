-- ===== src/Core/Metadata/Steps.antt =====
-- The branches of a step and the steps of a run: metadata/machine.rs, admission.rs and outcome.rs.
use kafka_driver.Base.{
  Option, ℕ, List, ◌≡◌, ◌∷◌, false, arith, ◌++◌, [], true, Bool-cases, inl, inr, Bool,
  if◌then◌else◌, ◌!=◌, ◌||◌, ap,
}
use kafka_driver.Core.Identity.{OperationId}
use kafka_driver.Core.Directory.{BrokerRoute}
use kafka_driver.Core.Identity.{OutcomeStamp}
use kafka_driver.Core.Metadata.{
  coalesced, PartitionRoute, admit, invalidate, invalidate_partition, withdraw_with,
  withdraw_controller, withdraw_partition, controller_outdated, controller_of, partition_outdated,
  route_of, current, cluster, topic, must_follow_current, controller_pending, controller_requires,
  partition_pending, partition_requires, silent, ignored_stale, rejected_leader_epoch_regression,
  regresses, accept, MetadataTransition, MetadataMachine, MetadataState, MetadataInput,
  MetadataEffect, MetadataQuery, MetadataSnapshot, MetadataRevocations, empty, refreshing, ready,
  apply, succeed, fail, generation,
}

-- The branches that the two invalidations share.
chosen :
    (P : MetadataMachine × MetadataTransition → Type 0) (pending requires outdated : Bool)
    (withdrawn known stale : MetadataMachine × MetadataTransition)
    → P withdrawn
    → P known
    → P stale
    → P (
        if pending
        then (if requires then withdrawn else known)
        else if outdated
        then stale
        else withdrawn)
chosen P true true outdated withdrawn known stale w k s = w
chosen P true false outdated withdrawn known stale w k s = k
chosen P false requires true withdrawn known stale w k s = s
chosen P false requires false withdrawn known stale w k s = w

module _ (P : MetadataMachine × MetadataTransition → Type 0) (m : MetadataMachine)
    (op : OperationId) where
  pub invalidate-cases :
      (r : BrokerRoute) (o : OutcomeStamp)
      → P (withdraw_with (withdraw_controller r o) (admit m cluster op must_follow_current))
      → P (m, silent coalesced)
      → P (m, silent ignored_stale)
      → P (invalidate m r o op)
  unfolding invalidate
  invalidate-cases r o =
      chosen P (controller_pending m.revocations r) (controller_requires m.revocations r o)
        (controller_outdated (controller_of (current m.state)) r o)
        (withdraw_with (withdraw_controller r o) (admit m cluster op must_follow_current))
        (m, silent coalesced) (m, silent ignored_stale)

  pub invalidate_partition-cases :
      (r : PartitionRoute) (o : OutcomeStamp)
      → P (withdraw_with (withdraw_partition r o) (admit m (topic r.topic) op must_follow_current))
      → P (m, silent coalesced)
      → P (m, silent ignored_stale)
      → P (invalidate_partition m r o op)
  unfolding invalidate_partition
  invalidate_partition-cases r o =
      chosen P (partition_pending m.revocations r) (partition_requires m.revocations r o)
        (partition_outdated (route_of (current m.state) r) r o)
        (withdraw_with (withdraw_partition r o) (admit m (topic r.topic) op must_follow_current))
        (m, silent coalesced) (m, silent ignored_stale)

-- The branches of a success: stale, a regression that fails the refresh, or the snapshot taken.
pub succeed-cases :
    (P : MetadataMachine × MetadataTransition → Type 0) (st : MetadataState) (limit : ℕ)
    (rs : MetadataRevocations) (op : OperationId) (s : MetadataSnapshot) (f : OperationId)
    → let m : MetadataMachine = record { state = st; pending_queries = limit; revocations = rs } in
      P (m, silent ignored_stale)
      → P (
        (fail m op f).0,
        record {
          effects = (fail m op f).1.effects;
          disposition = rejected_leader_epoch_regression;
        },
      )
      → ((c : Option MetadataSnapshot) (e : OperationId) (q : MetadataQuery)
            (queue : List MetadataQuery)
          → st ≡ refreshing c e q (generation s) queue
          → regresses q c s ≡ false
          → P (accept m s q queue f))
      → P (succeed m op s f)
unfolding succeed
succeed-cases P (empty next) limit rs op s f stale failed taken = stale
succeed-cases P (ready old) limit rs op s f stale failed taken = stale
succeed-cases P (refreshing c e q target queue) limit rs op s f stale failed taken =
    elim (Bool-cases (op != e || generation s != target)) [
      | inl other ↦ rw other stale
      | inr same ↦ elim (Bool-cases (regresses q c s)) [
        | inl back ↦ rw (same, back) failed
        | inr forward ↦
            let reached : target ≡ generation s = ground (arith, same) in
            rw (same, forward)
              (taken c e q queue (ap (λ g. refreshing c e q g queue) reached) forward)
      ]
    ]

-- The machine after a list of inputs, with all effects in order.
abbrev pub run : MetadataMachine → List MetadataInput → MetadataMachine × List MetadataEffect
run m [] = (m, [])
run m (i ∷ is) =
    let (next, t) = apply m i in let rest = run next is in (rest.0, t.effects ++ rest.1)
