-- ===== src/Core/Metadata/Withdrawal.antt =====
-- Partition routes that are withdrawn until newer evidence: metadata.
use kafka_driver.Base.{
  nat_ord, list_ord, pair_ord, ◌≡◌, List, ℕ, none, Option, ◌∷◌, All, arith, some, Bool-cases, inl,
  inr, [], All-map, subst, sym,
}
use kafka_driver.Core.Canonical.Sorting.{Strict}
use kafka_driver.Core.Directory.{BrokerRoute}
use kafka_driver.Core.Identity.{MetadataGeneration, next_generation}
use kafka_driver.Core.Metadata.{
  partition_of, PartitionRoute, remove_leader, MetadataSnapshot, generation, without_partition,
  MetadataQuery, MetadataState, MetadataInput, MetadataTransition, cluster, topic, empty,
  refreshing, ready, resolve, refresh, invalidate_broker_route, invalidate_partition_route,
  refresh_succeeded, refresh_failed, ControllerRevocation, PartitionRevocation, MetadataRevocations,
  revoke_assignment, settle_controller, settle, MetadataMachine, with_query_limits, current, start,
  QueryRecency, admit, is_refused, withdraw_with, withdraw_controller, withdraw_partition,
  current_may_satisfy, must_follow_current, fail, follow, accept, apply,
}
use kafka_driver.Core.Metadata.Steps.{
  invalidate-cases, invalidate_partition-cases, succeed-cases, run,
}
use kafka_driver.Core.Metadata.Missing.{
  Missing, Held, Missing-without, Strict-without, gone, settle-Missing, settle-Held, revoke-Missing,
}

abbrev pub MachineHolds : MetadataMachine → Type 0
MachineHolds m = Held m.revocations.partitions (current m.state)

-- A snapshot from the outside has its leaders sorted without repeats.
abbrev pub IsCanonical : MetadataInput → Type 0
IsCanonical (refresh_succeeded _ s _) = Strict partition_of s.leaders
IsCanonical _ = Unit

admit-keeps :
    (m : MetadataMachine) (q : MetadataQuery) (op : ℕ) (recency : QueryRecency)
    → (current (admit m q op recency).0.state ≡ current m.state)
      × ((admit m q op recency).0.revocations ≡ m.revocations)
unfolding admit start next_generation
admit-keeps m q op recency = ground arith

fail-keeps :
    (m : MetadataMachine) (op f : ℕ)
    → (current (fail m op f).0.state ≡ current m.state)
      × ((fail m op f).0.revocations ≡ m.revocations)
unfolding fail
fail-keeps m op f = ground arith

abbrev LeavesHeld : MetadataMachine × MetadataTransition → Type 0
LeavesHeld p = MachineHolds p.0

admit-LeavesHeld :
    (m : MetadataMachine) (q : MetadataQuery) (op : ℕ) (recency : QueryRecency)
    → MachineHolds m
    → LeavesHeld (admit m q op recency)
admit-LeavesHeld m q op recency h =
    let (same_current, same_revocations) = admit-keeps m q op recency in
    rw (same_current, same_revocations) h

Held-without :
    (rs : List PartitionRevocation) (s : MetadataSnapshot) (route : PartitionRoute) (o : ℕ)
    → Held rs (some s)
    → Held (revoke_assignment rs route o) (some (without_partition s route.topic route.partition))
unfolding without_partition
Held-without rs s route o (order, missing) =
    let t = route.topic in
    let p = route.partition in
    let after =
      All-map (Missing s.leaders) (Missing (remove_leader s.leaders t p))
        (λ r h. Missing-without s.leaders t p r order h) rs missing in
    (
      Strict-without s.leaders t p order,
      revoke-Missing (remove_leader s.leaders t p) rs route o (gone s.leaders t p order) after,
    )

withdraw_partition-Holds :
    (route : PartitionRoute) (o : ℕ) (st : MetadataState) (limit : ℕ) (rs : MetadataRevocations)
    → let m : MetadataMachine = record { state = st; pending_queries = limit; revocations = rs } in
      MachineHolds m → MachineHolds (withdraw_partition route o m)
withdraw_partition-Holds route o (empty next) limit rs h = tt
withdraw_partition-Holds route o (refreshing none e q target queue) limit rs h = tt
withdraw_partition-Holds route o (refreshing (some s) e q target queue) limit rs h =
    Held-without rs.partitions s route o h
withdraw_partition-Holds route o (ready s) limit rs h = Held-without rs.partitions s route o h

withdraw_controller-Holds :
    (route : BrokerRoute) (o : ℕ) (st : MetadataState) (limit : ℕ) (rs : MetadataRevocations)
    → let m : MetadataMachine = record { state = st; pending_queries = limit; revocations = rs } in
      MachineHolds m → MachineHolds (withdraw_controller route o m)
withdraw_controller-Holds route o (empty next) limit rs h = h
withdraw_controller-Holds route o (refreshing none e q target queue) limit rs h = h
withdraw_controller-Holds route o (refreshing (some s) e q target queue) limit rs h = h
withdraw_controller-Holds route o (ready s) limit rs h = h

withdraw_with-LeavesHeld :
    (f : MetadataMachine → MetadataMachine)
    → ((n : MetadataMachine) → MachineHolds n → MachineHolds (f n))
    → (n : MetadataMachine) (t : MetadataTransition) → MachineHolds n
    → LeavesHeld (withdraw_with f (n, t))
unfolding withdraw_with
withdraw_with-LeavesHeld f keeps n t h = elim (Bool-cases (is_refused t.disposition)) [
  | inl full ↦ rw full h
  | inr taken ↦ rw taken (keeps n h)
]

fail-LeavesHeld : (m : MetadataMachine) (op f : ℕ) → MachineHolds m → LeavesHeld (fail m op f)
unfolding fail
fail-LeavesHeld m op f h =
    let (same_current, same_revocations) = fail-keeps m op f in
    rw (same_current, same_revocations) h

settle_controller-leaders :
    (c : Option ControllerRevocation) (s : MetadataSnapshot) (q : MetadataQuery)
    → (settle_controller c s q).1.leaders ≡ s.leaders
unfolding settle_controller
settle_controller-leaders c s q = ground arith

settled-Held :
    (rs : MetadataRevocations) (s : MetadataSnapshot) (q : MetadataQuery)
    → Strict partition_of s.leaders
    → Held (settle rs s q).0.partitions (some (settle rs s q).1)
unfolding settle
settled-Held rs s q o =
    let (_, first) = settle_controller rs.controller s q in
    let o' = subst (Strict partition_of) (sym (settle_controller-leaders rs.controller s q)) o in
    let (order, _) = settle-Missing rs.partitions s.brokers.evidence first q o' in
    (order, settle-Held rs.partitions s.brokers.evidence first q o')

follow-LeavesHeld :
    (m : MetadataMachine) (s : MetadataSnapshot) (queue : List MetadataQuery) (f : ℕ)
    (next : Option ℕ)
    → Held m.revocations.partitions (some s)
    → LeavesHeld (follow m s queue f next)
unfolding follow
follow-LeavesHeld m s [] f next h = h
follow-LeavesHeld m s (q ∷ queue) f none h = h
follow-LeavesHeld m s (q ∷ queue) f (some next) h = h

accept-LeavesHeld :
    (m : MetadataMachine) (s : MetadataSnapshot) (q : MetadataQuery) (queue : List MetadataQuery)
    (f : ℕ)
    → Strict partition_of s.leaders
    → LeavesHeld (accept m s q queue f)
unfolding accept
accept-LeavesHeld m s q queue f o =
    let (revocations, kept) = settle m.revocations s q in
    follow-LeavesHeld (record m { revocations = revocations }) kept queue f
      (next_generation (generation kept)) (settled-Held m.revocations s q o)

apply-LeavesHeld :
    (m : MetadataMachine) (i : MetadataInput)
    → IsCanonical i
    → MachineHolds m
    → LeavesHeld (apply m i)
unfolding apply
apply-LeavesHeld m (resolve q op) c h = admit-LeavesHeld m q op current_may_satisfy h
apply-LeavesHeld m (refresh q op) c h = admit-LeavesHeld m q op must_follow_current h
apply-LeavesHeld m (invalidate_broker_route r o op) c h =
    let (n, t) = admit m cluster op must_follow_current in
    invalidate-cases LeavesHeld m op r o
      (withdraw_with-LeavesHeld (withdraw_controller r o)
        (λ x. withdraw_controller-Holds r o x.state x.pending_queries x.revocations) n t
        (admit-LeavesHeld m cluster op must_follow_current h))
      h h
apply-LeavesHeld m (invalidate_partition_route r o op) c h =
    let (n, t) = admit m (topic r.topic) op must_follow_current in
    invalidate_partition-cases LeavesHeld m op r o
      (withdraw_with-LeavesHeld (withdraw_partition r o)
        (λ x. withdraw_partition-Holds r o x.state x.pending_queries x.revocations) n t
        (admit-LeavesHeld m (topic r.topic) op must_follow_current h))
      h h
apply-LeavesHeld m (refresh_succeeded op s f) c h =
    succeed-cases LeavesHeld m.state m.pending_queries m.revocations op s f h
      (fail-LeavesHeld m op f h) (λ _ _ q queue _ _. accept-LeavesHeld m s q queue f c)
apply-LeavesHeld m (refresh_failed op f) c h = fail-LeavesHeld m op f h

run-Holds :
    (m : MetadataMachine) (is : List MetadataInput)
    → All IsCanonical is
    → MachineHolds m
    → MachineHolds (run m is).0
run-Holds m [] c h = h
run-Holds m (i ∷ is) c h = run-Holds (apply m i).0 is c.1 (apply-LeavesHeld m i c.0 h)

-- Over any run whose snapshots have their leaders in canonical order, a partition whose withdrawal is
-- pending has no route in the snapshot that is served.
pub withdrawn_not_served :
    (initial : MetadataGeneration) (limit : ℕ) (is : List MetadataInput)
    → All IsCanonical is
    → MachineHolds (run (with_query_limits initial limit) is).0
unfolding with_query_limits
withdrawn_not_served initial limit is c = run-Holds (with_query_limits initial limit) is c tt
