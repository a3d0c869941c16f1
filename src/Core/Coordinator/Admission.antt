-- ===== src/Core/Coordinator/Admission.antt =====
-- The demand for a lookup and the withdrawal of its route: admission.rs of
-- crates/kafka-driver-core/src/coordinator, with the construction of machine.rs.
use kafka_driver.Core.Coordinator.State.{
  CoordinatorRoute, is_same_target, same_route, CoordinatorRevocation, matches, observe,
  CoordinatorFollowup, CoordinatorState, CoordinatorTransition, CoordinatorMachine, silent, emits,
  unknown, discovering, retrying, ready, find, epoch_exhausted, already_known, coalesced,
  refresh_queued, ignored_stale, refresh, revocation,
}
use kafka_driver.Base.{none, Option, some, Bool, true, if◌then◌else◌, false, not, ◌||◌}
use kafka_driver.Core.Identity.{
  OperationId, CoordinatorEpoch, CoordinatorKey, OutcomeStamp, is_after, next_epoch,
}

unfoldable pub with_initial_epoch : CoordinatorKey → CoordinatorEpoch → CoordinatorMachine
with_initial_epoch key epoch = record { key = key; state = unknown epoch; pending = none }

unfoldable pub new : CoordinatorKey → CoordinatorMachine
unfolding with_initial_epoch
new key = with_initial_epoch key 1

unfoldable pub current : CoordinatorState → Option CoordinatorRoute
current (unknown _) = none
current (discovering c _ _ _ _) = c
current (retrying c _ _ _ _ _) = c
current (ready route) = some route

unfoldable pub start :
    CoordinatorMachine
    → Option CoordinatorRoute
    → OperationId
    → CoordinatorEpoch
    → CoordinatorMachine × CoordinatorTransition
start m c operation target = (
  record m { state = discovering c operation target none 0 },
  emits (find operation m.key target),
)

unfoldable pub resolve :
    CoordinatorMachine → OperationId → CoordinatorMachine × CoordinatorTransition
unfolding start
resolve m operation = elim m.state [
  | unknown next ↦ start m none operation next
  | ready _ ↦ (m, silent already_known)
  | _ ↦ (m, silent coalesced)
]

-- The discovery of the epoch after a route's, or the report that there is none.
unfoldable pub start_after :
    CoordinatorMachine
    → Option CoordinatorRoute
    → OperationId
    → Option CoordinatorEpoch
    → CoordinatorMachine × CoordinatorTransition
unfolding start
start_after m c operation none = (m, emits epoch_exhausted)
start_after m c operation (some epoch) = start m c operation epoch

unfoldable pub refresh_at :
    CoordinatorMachine → OperationId → CoordinatorMachine × CoordinatorTransition
unfolding start start_after
refresh_at m operation = elim m.state [
  | discovering c active target none retries ↦ (
    record m { state = discovering c active target (some refresh) retries },
    silent refresh_queued,
  )
  | discovering _ _ _ (some _) _ ↦ (m, silent coalesced)
  | retrying c active target none retries at ↦ (
    record m { state = retrying c active target (some refresh) retries at },
    silent refresh_queued,
  )
  | retrying _ _ _ (some _) _ _ ↦ (m, silent coalesced)
  | unknown next ↦ start m none operation next
  | ready route ↦ start_after m (some route) operation (next_epoch route.epoch)
]

-- `*followup == Some(Revocation)`.
abbrev followup_is_revocation : Option CoordinatorFollowup → Bool
followup_is_revocation (some revocation) = true
followup_is_revocation _ = false

abbrev demand_revocation : Option CoordinatorFollowup → CoordinatorTransition
demand_revocation followup =
    if followup_is_revocation followup then silent coalesced else silent refresh_queued

-- The route that an input names is not the one served, or newer evidence has confirmed it since.
abbrev outdated : Option CoordinatorRoute → CoordinatorRoute → OutcomeStamp → Bool
outdated none route observed_at = true
outdated (some c) route observed_at =
    not (is_same_target c route) || is_after c.evidence observed_at

invalidate_served :
    CoordinatorMachine
    → CoordinatorRoute
    → OutcomeStamp
    → OperationId
    → CoordinatorMachine × CoordinatorTransition
unfolding start
invalidate_served m route observed_at operation =
    let revoked = some (record { target = route; required_after = observed_at }) in
    elim m.state [
      | unknown _ ↦ (m, silent ignored_stale)
      | ready c ↦
          if outdated (some c) route observed_at
          then (m, silent ignored_stale)
          else elim (next_epoch c.epoch) [
            | none ↦ (m, emits epoch_exhausted)
            | some epoch ↦ start (record m { pending = revoked }) none operation epoch
          ]
      | discovering c active target followup retries ↦
          if outdated c route observed_at then (m, silent ignored_stale) else (
            record m {
              state = discovering none active target (some revocation) retries;
              pending = revoked;
            },
            demand_revocation followup,
          )
      | retrying c active target followup retries at ↦
          if outdated c route observed_at then (m, silent ignored_stale) else (
            record m {
              state = retrying none active target (some revocation) retries at;
              pending = revoked;
            },
            demand_revocation followup,
          )
    ]

-- The watermark after an observation: a refresh follows where it was raised.
raise :
    CoordinatorMachine
    → CoordinatorRevocation × Bool
    → OperationId
    → CoordinatorMachine × CoordinatorTransition
unfolding refresh_at
raise m (r, false) operation = (record m { pending = some r }, silent coalesced)
raise m (r, true) operation = refresh_at (record m { pending = some r }) operation

unfoldable pub invalidate :
    CoordinatorMachine
    → CoordinatorRoute
    → OutcomeStamp
    → OperationId
    → CoordinatorMachine × CoordinatorTransition
unfolding invalidate_served raise
invalidate m route observed_at operation = elim m.pending [
  | none ↦ invalidate_served m route observed_at operation
  | some r ↦
      if matches r route
      then raise m (observe r observed_at) operation
      else invalidate_served m route observed_at operation
]

-- `current.as_ref() != Some(route)`.
abbrev is_other : Option CoordinatorRoute → CoordinatorRoute → Bool
is_other none route = true
is_other (some c) route = not (same_route c route)

unfoldable pub withdraw :
    CoordinatorMachine → CoordinatorRoute → OperationId → CoordinatorMachine × CoordinatorTransition
unfolding start_after
withdraw m route operation = elim m.state [
  | unknown _ ↦ (m, silent ignored_stale)
  | ready c ↦
      if is_other (some c) route
      then (m, silent ignored_stale)
      else start_after m none operation (next_epoch c.epoch)
  | discovering c active target followup retries ↦
      if is_other c route then (m, silent ignored_stale) else (
        record m { state = discovering none active target (some revocation) retries },
        demand_revocation followup,
      )
  | retrying c active target followup retries at ↦
      if is_other c route then (m, silent ignored_stale) else (
        record m { state = retrying none active target (some revocation) retries at },
        demand_revocation followup,
      )
]
