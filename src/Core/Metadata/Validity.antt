-- ===== src/Core/Metadata/Validity.antt =====
-- What holds at every point of the metadata machine: metadata.
use kafka_driver.Base.{
  Option, ℕ, List, some, length, ◌≡◌, contains, ◌+◌, none, ◌≤◌, ◌∷◌, false, arith, ◌++◌, [], ◌⊎◌,
  Bool-cases, leb, inl, inr, length-append, subst,
}
use kafka_driver.Core.Identity.{MetadataGeneration, next_generation, OperationId}
use kafka_driver.Core.BoundedSet.Members.{NoRepeats, NoRepeats-snoc}
use kafka_driver.Core.Directory.{BrokerRoute}
use kafka_driver.Core.Metadata.Settling.{Withdrawn, settle-Withdrawn}
use kafka_driver.Core.Metadata.Steps.{
  invalidate-cases, invalidate_partition-cases, succeed-cases, run,
}
use kafka_driver.Core.Metadata.{
  query_eq, resolve, refresh, invalidate_broker_route, invalidate_partition_route,
  refresh_succeeded, refresh_failed, current_may_satisfy, accept, follow, topic, cluster,
  MetadataTransition, PartitionRoute, withdraw_with, withdraw_controller, withdraw_partition,
  is_refused, QueryRecency, must_follow_current, MetadataMachine, MetadataState, MetadataInput,
  MetadataQuery, MetadataSnapshot, MetadataRevocations, empty, refreshing, ready, apply, admit,
  start, invalidate, invalidate_partition, succeed, fail, settle, generation, without_partition,
  current, with_query_limits,
}

-- The next generation is the one after the snapshot's, while its successor is looked up.
abbrev Follows : Option MetadataSnapshot → MetadataGeneration → Type 0
Follows none target = Unit
Follows (some snapshot) target = generation snapshot + 1 ≡ target

abbrev QueueIsValid : ℕ → MetadataState → Type 0
QueueIsValid limit (refreshing c _ _ target queue) =
    Follows c target × (length queue ≤ limit) × NoRepeats queue
QueueIsValid limit _ = Unit

pub record MetadataIsValid (m : MetadataMachine) : Type 0 where
  pub queue_valid : QueueIsValid m.pending_queries m.state
  pub controller_withdrawn : Withdrawn m.revocations.controller (current m.state)

grown :
    (limit : ℕ) (queue : List MetadataQuery) (q : MetadataQuery)
    → contains queue q ≡ false
    → NoRepeats queue
    → (limit ≤ length queue) ⊎ ((length (queue ++ q ∷ []) ≤ limit) × NoRepeats (queue ++ q ∷ []))
grown limit queue q new n = elim (Bool-cases (leb limit (length queue))) [
  | inl full ↦ inl (ground (arith, full))
  | inr room ↦
      inr (ground (arith, room, length-append queue (q ∷ [])), NoRepeats-snoc queue q new n)
]

admitted_state :
    (s : MetadataState) (limit : ℕ) (rs : MetadataRevocations) (q : MetadataQuery) (op : ℕ)
    (recency : QueryRecency)
    → let m : MetadataMachine = record { state = s; pending_queries = limit; revocations = rs } in
      MetadataIsValid m → MetadataIsValid (admit m q op recency).0
unfolding admit start next_generation
admitted_state (empty next) limit rs q op recency v = ground (arith, v)
admitted_state (ready snapshot) limit rs q op recency v = ground (arith, v)
admitted_state (refreshing c a active target queue) limit rs q op recency v =
    elim (Bool-cases (contains queue q)) [
      | inl known ↦ ground (arith, v, known)
      | inr new ↦
          let (_, _, distinct) = v.queue_valid in
          ground (arith, v, new, grown limit queue q new distinct)
    ]

admit-MetadataIsValid :
    (m : MetadataMachine) (q : MetadataQuery) (op : ℕ) (recency : QueryRecency)
    → MetadataIsValid m
    → MetadataIsValid (admit m q op recency).0
admit-MetadataIsValid m q op recency v =
    admitted_state m.state m.pending_queries m.revocations q op recency v

withdraw_controller-MetadataIsValid :
    (m : MetadataMachine) (r : BrokerRoute) (o : ℕ)
    → MetadataIsValid m
    → MetadataIsValid (withdraw_controller r o m)
withdraw_controller-MetadataIsValid m r o v = ground (arith, v)

withdraw_partition-MetadataIsValid :
    (m : MetadataMachine) (r : PartitionRoute) (o : ℕ)
    → MetadataIsValid m
    → MetadataIsValid (withdraw_partition r o m)
unfolding without_partition
withdraw_partition-MetadataIsValid m r o v = ground (arith, v)

withdraw_with-MetadataIsValid :
    (f : MetadataMachine → MetadataMachine)
    → ((m : MetadataMachine) → MetadataIsValid m → MetadataIsValid (f m))
    → (m : MetadataMachine) (t : MetadataTransition) → MetadataIsValid m
    → MetadataIsValid (withdraw_with f (m, t)).0
unfolding withdraw_with
withdraw_with-MetadataIsValid f keeps m t v = elim (Bool-cases (is_refused t.disposition)) [
  | inl refused ↦ rw refused v
  | inr taken ↦ rw taken (keeps m v)
]

abbrev LeavesValid : MetadataMachine × MetadataTransition → Type 0
LeavesValid p = MetadataIsValid p.0

invalidate-MetadataIsValid :
    (m : MetadataMachine) (r : BrokerRoute) (o : ℕ) (op : ℕ)
    → MetadataIsValid m
    → MetadataIsValid (invalidate m r o op).0
invalidate-MetadataIsValid m r o op v =
    let (next, t) = admit m cluster op must_follow_current in
    let withdrawn =
      withdraw_with-MetadataIsValid (withdraw_controller r o)
        (λ n. withdraw_controller-MetadataIsValid n r o) next t
        (admit-MetadataIsValid m cluster op must_follow_current v) in
    invalidate-cases LeavesValid m op r o withdrawn v v

invalidate_partition-MetadataIsValid :
    (m : MetadataMachine) (r : PartitionRoute) (o : ℕ) (op : ℕ)
    → MetadataIsValid m
    → MetadataIsValid (invalidate_partition m r o op).0
invalidate_partition-MetadataIsValid m r o op v =
    let (next, t) = admit m (topic r.topic) op must_follow_current in
    let withdrawn =
      withdraw_with-MetadataIsValid (withdraw_partition r o)
        (λ n. withdraw_partition-MetadataIsValid n r o) next t
        (admit-MetadataIsValid m (topic r.topic) op must_follow_current v) in
    invalidate_partition-cases LeavesValid m op r o withdrawn v v

fail-MetadataIsValid :
    (m : MetadataMachine) (op f : ℕ) → MetadataIsValid m → MetadataIsValid (fail m op f).0
unfolding fail
fail-MetadataIsValid m op f v = ground (arith, v)

follow-MetadataIsValid :
    (m : MetadataMachine) (s : MetadataSnapshot) (queue : List MetadataQuery) (f : ℕ)
    → length queue ≤ m.pending_queries
    → NoRepeats queue
    → Withdrawn m.revocations.controller (some s)
    → MetadataIsValid (follow m s queue f (next_generation (generation s))).0
unfolding follow next_generation
follow-MetadataIsValid m s [] f short distinct w = ground (arith, w)
follow-MetadataIsValid m s (q ∷ queue) f short distinct w = ground (arith, short, distinct, w)

accept-MetadataIsValid :
    (m : MetadataMachine) (s : MetadataSnapshot) (c : Option MetadataSnapshot) (e : OperationId)
    (q : MetadataQuery) (queue : List MetadataQuery) (f : OperationId)
    → m.state ≡ refreshing c e q (generation s) queue
    → MetadataIsValid m
    → MetadataIsValid (accept m s q queue f).0
unfolding accept
accept-MetadataIsValid m s c e q queue f here v =
    let (revocations, kept) = settle m.revocations s q in
    let (_, w) = settle-Withdrawn m.revocations s q in
    let (_, short, distinct) = subst (QueueIsValid m.pending_queries) here v.queue_valid in
    follow-MetadataIsValid (record m { revocations = revocations }) kept queue f short distinct w

succeed-MetadataIsValid :
    (m : MetadataMachine) (op : ℕ) (s : MetadataSnapshot) (f : ℕ)
    → MetadataIsValid m
    → MetadataIsValid (succeed m op s f).0
succeed-MetadataIsValid m op s f v =
    succeed-cases LeavesValid m.state m.pending_queries m.revocations op s f v
      (fail-MetadataIsValid m op f v)
      (λ c e q queue here _. accept-MetadataIsValid m s c e q queue f here v)

pub apply-MetadataIsValid :
    (m : MetadataMachine) (i : MetadataInput) → MetadataIsValid m → MetadataIsValid (apply m i).0
unfolding apply
apply-MetadataIsValid m (resolve q op) v = admit-MetadataIsValid m q op current_may_satisfy v
apply-MetadataIsValid m (refresh q op) v = admit-MetadataIsValid m q op must_follow_current v
apply-MetadataIsValid m (invalidate_broker_route r o op) v = invalidate-MetadataIsValid m r o op v
apply-MetadataIsValid m (invalidate_partition_route r o op) v =
    invalidate_partition-MetadataIsValid m r o op v
apply-MetadataIsValid m (refresh_succeeded op s f) v = succeed-MetadataIsValid m op s f v
apply-MetadataIsValid m (refresh_failed op f) v = fail-MetadataIsValid m op f v

pub run_valid :
    (m : MetadataMachine) (is : List MetadataInput)
    → MetadataIsValid m
    → MetadataIsValid (run m is).0
run_valid m [] v = v
run_valid m (i ∷ is) v = run_valid (apply m i).0 is (apply-MetadataIsValid m i v)

pub new-MetadataIsValid :
    (initial : MetadataGeneration) (limit : ℕ) → MetadataIsValid (with_query_limits initial limit)
unfolding with_query_limits
new-MetadataIsValid initial limit = record { queue_valid = tt; controller_withdrawn = tt }

-- At every point of every run the queued queries are within their limit and no query waits twice, the
-- generation looked up is the one after the snapshot that is served, and no controller is served while
-- its withdrawal is pending.
pub run-MetadataIsValid :
    (initial : MetadataGeneration) (limit : ℕ) (is : List MetadataInput)
    → MetadataIsValid (run (with_query_limits initial limit) is).0
run-MetadataIsValid initial limit is =
    run_valid (with_query_limits initial limit) is (new-MetadataIsValid initial limit)
