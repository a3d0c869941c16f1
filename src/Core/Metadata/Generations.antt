-- ===== src/Core/Metadata/Generations.antt =====
-- The generations that metadata asks for: metadata.
use kafka_driver.Base.{
  List, ℕ, ◌∷◌, ◌++◌, ◌≡◌, ◌+◌, ◌≤◌, [], arith, Between, Bool-cases, subst, NonDescending, inl, sym,
  inr, Climbs, Between-Climbs, Climbs-append,
}
use Prim.Native.Nat.{ℕ}
use kafka_driver.Core.Identity.{OperationId, MetadataGeneration, next_generation, OperationId}
use kafka_driver.Core.Directory.{BrokerRoute}
use kafka_driver.Core.Metadata.{
  resolve, refresh, invalidate_broker_route, invalidate_partition_route, refresh_succeeded,
  refresh_failed, current_may_satisfy, must_follow_current, withdraw_with, withdraw_controller,
  withdraw_partition, is_refused, cluster, topic, PartitionRoute, QueryRecency, MetadataMachine,
  MetadataState, MetadataInput, MetadataEffect, MetadataTransition, MetadataQuery, MetadataSnapshot,
  empty, refreshing, ready, fetch, generation_exhausted, apply, admit, start, invalidate,
  invalidate_partition, succeed, fail, settle, accept, follow, generation, without_partition,
  with_query_limits, withdraw_with, QueryRecency, MetadataDisposition, applied,
}
use kafka_driver.Core.Metadata.Settling.{settle-Withdrawn}
use kafka_driver.Core.Metadata.Steps.{invalidate-cases, invalidate_partition-cases, succeed-cases}
use kafka_driver.Core.Metadata.Validity.{
  MetadataIsValid, apply-MetadataIsValid, new-MetadataIsValid,
}

abbrev pub fetched : List MetadataEffect → List MetadataGeneration
fetched [] = []
fetched (fetch _ g _ ∷ es) = g ∷ fetched es
fetched (generation_exhausted ∷ es) = fetched es

-- The generation that is due after a snapshot that an input installs.
abbrev pub taken : MetadataInput → MetadataDisposition → List MetadataGeneration
taken (refresh_succeeded _ snapshot _) applied = (generation snapshot + 1) ∷ []
taken _ _ = []

-- Over a run, what is due after each snapshot that is taken and what is fetched, in their order.
abbrev pub milestones : MetadataMachine → List MetadataInput → List MetadataGeneration
milestones m [] = []
milestones m (i ∷ is) =
    let (n, t) = apply m i in (taken i t.disposition ++ fetched t.effects) ++ milestones n is

abbrev least_of : MetadataState → ℕ
least_of (empty next) = next
least_of (refreshing _ _ _ target _) = target
least_of (ready snapshot) = generation snapshot + 1

abbrev StepFetches : ℕ → MetadataMachine × MetadataTransition → Type 0
StepFetches least (n, t) = Between least (fetched t.effects) (least_of n.state)

admit-StepFetches :
    (m : MetadataMachine) (q : MetadataQuery) (op : OperationId) (recency : QueryRecency)
    → StepFetches (least_of m.state) (admit m q op recency)
unfolding admit start next_generation
admit-StepFetches m q op recency = ground arith

-- A withdrawal keeps the generation.
withdraw_with-StepFetches :
    (least : ℕ) (f : MetadataMachine → MetadataMachine)
    → ((n : MetadataMachine) → least_of (f n).state ≡ least_of n.state)
    → (n : MetadataMachine) (t : MetadataTransition) → StepFetches least (n, t)
    → StepFetches least (withdraw_with f (n, t))
unfolding withdraw_with
withdraw_with-StepFetches least f keeps n t h = elim (Bool-cases (is_refused t.disposition)) [
  | inl refused ↦ rw refused h
  | inr taken ↦ rw (taken, keeps n) h
]

withdraw_controller-least :
    (r : BrokerRoute) (o : ℕ) (n : MetadataMachine)
    → least_of (withdraw_controller r o n).state ≡ least_of n.state
withdraw_controller-least r o n = ground arith

withdraw_partition-least :
    (r : PartitionRoute) (o : ℕ) (n : MetadataMachine)
    → least_of (withdraw_partition r o n).state ≡ least_of n.state
unfolding without_partition
withdraw_partition-least r o n = ground arith

invalidate-StepFetches :
    (m : MetadataMachine) (r : BrokerRoute) (o op : ℕ)
    → StepFetches (least_of m.state) (invalidate m r o op)
invalidate-StepFetches m r o op =
    let (next, t) = admit m cluster op must_follow_current in
    let least = least_of m.state in
    let same : least ≤ least = omega arith in
    invalidate-cases (StepFetches least) m op r o
      (withdraw_with-StepFetches least (withdraw_controller r o) (withdraw_controller-least r o)
        next t (admit-StepFetches m cluster op must_follow_current))
      same same

invalidate_partition-StepFetches :
    (m : MetadataMachine) (r : PartitionRoute) (o op : ℕ)
    → StepFetches (least_of m.state) (invalidate_partition m r o op)
invalidate_partition-StepFetches m r o op =
    let (next, t) = admit m (topic r.topic) op must_follow_current in
    let least = least_of m.state in
    let same : least ≤ least = omega arith in
    invalidate_partition-cases (StepFetches least) m op r o
      (withdraw_with-StepFetches least (withdraw_partition r o) (withdraw_partition-least r o) next
        t (admit-StepFetches m (topic r.topic) op must_follow_current))
      same same

fail-StepFetches :
    (m : MetadataMachine) (op f : ℕ)
    → MetadataIsValid m
    → StepFetches (least_of m.state) (fail m op f)
unfolding fail
fail-StepFetches m op f v = ground (arith, v)

follow-StepFetches :
    (m : MetadataMachine) (s : MetadataSnapshot) (queue : List MetadataQuery) (f : ℕ)
    → StepFetches (generation s + 1) (follow m s queue f (next_generation (generation s)))
unfolding follow next_generation
follow-StepFetches m s queue f = ground arith

accept-StepFetches :
    (m : MetadataMachine) (s : MetadataSnapshot) (q : MetadataQuery) (queue : List MetadataQuery)
    (f : ℕ)
    → StepFetches (generation s + 1) (accept m s q queue f)
unfolding accept
accept-StepFetches m s q queue f =
    let (revocations, kept) = settle m.revocations s q in
    let (same, _) = settle-Withdrawn m.revocations s q in
    subst (λ g. StepFetches (g + 1) (accept m s q queue f)) same
      (follow-StepFetches (record m { revocations = revocations }) kept queue f)

-- What an input adds to the milestones.
abbrev StepMilestones : ℕ → MetadataInput → MetadataMachine × MetadataTransition → Type 0
StepMilestones least i (n, t) =
    Climbs least (taken i t.disposition ++ fetched t.effects) (least_of n.state)

accept-applied :
    (m : MetadataMachine) (s : MetadataSnapshot) (q : MetadataQuery) (queue : List MetadataQuery)
    (f : ℕ)
    → (accept m s q queue f).1.disposition ≡ applied
unfolding accept follow
accept-applied m s q queue f = ground arith

succeed-StepMilestones :
    (m : MetadataMachine) (op : ℕ) (s : MetadataSnapshot) (f : ℕ)
    → MetadataIsValid m
    → StepMilestones (least_of m.state) (refresh_succeeded op s f) (succeed m op s f)
succeed-StepMilestones m op s f v =
    let least = least_of m.state in
    succeed-cases (StepMilestones least (refresh_succeeded op s f)) m.state m.pending_queries
      m.revocations op s f (omega arith)
      (Between-Climbs least (least_of (fail m op f).0.state) (fetched (fail m op f).1.effects)
        (fail-StepFetches m op f v))
      (λ c e q queue here _.
        let (n, t) = accept m s q queue f in
        let due : Climbs (generation s) ((generation s + 1) ∷ fetched t.effects)
            (least_of n.state) =
          (
            omega arith,
            Between-Climbs (generation s + 1) (least_of n.state) (fetched t.effects)
                (accept-StepFetches m s q queue f),
          ) in
        subst (λ st. StepMilestones (least_of st) (refresh_succeeded op s f) (n, t)) (sym here)
          (subst
            (λ d.
              Climbs (generation s) (taken (refresh_succeeded op s f) d ++ fetched t.effects)
                (least_of n.state))
            (sym (accept-applied m s q queue f)) due))

apply-StepMilestones :
    (m : MetadataMachine) (i : MetadataInput)
    → MetadataIsValid m
    → StepMilestones (least_of m.state) i (apply m i)
unfolding apply
apply-StepMilestones m (resolve q op) v =
    Between-Climbs _ _ _ (admit-StepFetches m q op current_may_satisfy)
apply-StepMilestones m (refresh q op) v =
    Between-Climbs _ _ _ (admit-StepFetches m q op must_follow_current)
apply-StepMilestones m (invalidate_broker_route r o op) v =
    Between-Climbs _ _ _ (invalidate-StepFetches m r o op)
apply-StepMilestones m (invalidate_partition_route r o op) v =
    Between-Climbs _ _ _ (invalidate_partition-StepFetches m r o op)
apply-StepMilestones m (refresh_succeeded op s f) v = succeed-StepMilestones m op s f v
apply-StepMilestones m (refresh_failed op f) v = Between-Climbs _ _ _ (fail-StepFetches m op f v)

run-NonDescending :
    (m : MetadataMachine) (is : List MetadataInput)
    → MetadataIsValid m
    → NonDescending (least_of m.state) (milestones m is)
run-NonDescending m [] v = tt
run-NonDescending m (i ∷ is) v =
    let (n, t) = apply m i in
    Climbs-append (least_of m.state) (least_of n.state) (taken i t.disposition ++ fetched t.effects)
      (milestones n is) (apply-StepMilestones m i v)
      (run-NonDescending n is (apply-MetadataIsValid m i v))

-- Over any run, the generations that are fetched and, after each snapshot that is taken, the generation
-- after it never go back, in the order of the run: no fetch is for a generation before that of an
-- earlier fetch, and every fetch after a snapshot is for a later generation than it.
pub fetches-NonDescending :
    (initial : MetadataGeneration) (limit : ℕ) (is : List MetadataInput)
    → NonDescending initial (milestones (with_query_limits initial limit) is)
unfolding with_query_limits
fetches-NonDescending initial limit is =
    run-NonDescending (with_query_limits initial limit) is (new-MetadataIsValid initial limit)
