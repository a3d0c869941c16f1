-- ===== src/Core/Coordinator/Epochs.antt =====
-- The epochs that a coordinator lookup asks for: coordinator.
use kafka_driver.Base.{
  List, ℕ, ◌++◌, ◌+◌, ◌≡◌, ap, ◌∷◌, arith, [], refl, Between, NonDescending, NonDescending-append,
}
use Prim.Native.Nat.{ℕ}
use kafka_driver.Core.Identity.{CoordinatorEpoch, next_epoch, add_duration, CoordinatorKey}
use kafka_driver.Core.Coordinator.{
  CoordinatorMachine, CoordinatorState, CoordinatorInput, CoordinatorEffect, unknown, discovering,
  retrying, ready, find, wait_until, epoch_exhausted, ignored_stale, apply, new, start, start_after,
  resolve, refresh_at, invalidate, withdraw, succeed, fail, reject, retry_elapsed,
}
use kafka_driver.Core.Coordinator.Validity.{CoordinatorIsValid, apply-CoordinatorIsValid, run}

abbrev pub found_epochs : List CoordinatorEffect → List CoordinatorEpoch
found_epochs [] = []
found_epochs (find _ _ epoch ∷ es) = epoch ∷ found_epochs es
found_epochs (_ ∷ es) = found_epochs es

abbrev least_of : CoordinatorState → ℕ
least_of (unknown next) = next
least_of (discovering _ _ target _ _) = target
least_of (retrying _ _ target _ _ _) = target
least_of (ready route) = route.epoch + 1

found-append :
    (xs ys : List CoordinatorEffect) → found_epochs (xs ++ ys) ≡ found_epochs xs ++ found_epochs ys
found-append [] ys = refl
found-append (find op k e ∷ xs) ys = ap (◌∷◌ e) (found-append xs ys)
found-append (wait_until _ _ _ ∷ xs) ys = found-append xs ys
found-append (epoch_exhausted ∷ xs) ys = found-append xs ys

apply-Between :
    (m : CoordinatorMachine) (i : CoordinatorInput)
    → CoordinatorIsValid m
    → Between (least_of m.state) (found_epochs (apply m i).1.effects) (least_of (apply m i).0.state)
unfolding apply resolve start start_after refresh_at invalidate withdraw succeed fail reject
    retry_elapsed next_epoch add_duration
apply-Between m i v = ground (arith, v)

run-NonDescending :
    (m : CoordinatorMachine) (is : List CoordinatorInput)
    → CoordinatorIsValid m
    → NonDescending (least_of m.state) (found_epochs (run m is).1)
run-NonDescending m [] v = tt
run-NonDescending m (i ∷ is) v =
    let rest = run-NonDescending (apply m i).0 is (apply-CoordinatorIsValid m i v) in
    rw (found-append (apply m i).1.effects (run (apply m i).0 is).1) (
      NonDescending-append (least_of m.state) (least_of (apply m i).0.state)
        (found_epochs (apply m i).1.effects) (found_epochs (run (apply m i).0 is).1)
        (apply-Between m i v) rest)

-- Over any run the epochs that a coordinator lookup asks for never go back.
pub lookups-NonDescending :
    (key : CoordinatorKey) (is : List CoordinatorInput)
    → NonDescending 1 (found_epochs (run (new key) is).1)
unfolding new
lookups-NonDescending key is = run-NonDescending (new key) is tt

-- An input that is found stale changes nothing and has no effects.
pub stale_changes_nothing :
    (m : CoordinatorMachine) (i : CoordinatorInput)
    → (apply m i).1.disposition ≡ ignored_stale
    → ((apply m i).0 ≡ m) × ((apply m i).1.effects ≡ [])
unfolding apply resolve start start_after refresh_at invalidate withdraw succeed fail reject
    retry_elapsed next_epoch add_duration
stale_changes_nothing m i h = ground (arith, h)
