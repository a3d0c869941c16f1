-- ===== src/Core/BrokerResolution/Fencing.antt =====
-- The requests and answers of one broker over a run: broker_resolution/machine.rs.
use kafka_driver.Base.{List, ℕ, Option, arith, ◌≤◌, ◌∷◌, ◌++◌, none, ◌≡◌, suc, some, subst, [], sym}
use Prim.Native.Nat.{ℕ, suc}
use kafka_driver.Core.BrokerResolution.{
  BrokerResolutionMachine, BrokerResolutionState, BrokerResolutionInput, BrokerResolutionEffect,
  dormant, resolving, resolved, gave_up, resolve, report_resolved, report_failed, apply,
  current_identity, List, Option, BrokerId, BrokerEndpoint,
}

-- The machine after a list of inputs, with all effects in order.
abbrev pub run :
    BrokerResolutionMachine
    → List BrokerResolutionInput
    → BrokerResolutionMachine × List BrokerResolutionEffect
run m [] = (m, [])
run m (i ∷ is) =
    let (next, t) = apply m i in let rest = run next is in (rest.0, t.effects ++ rest.1)

-- The specification of the stream of effects. A request is for a later epoch than all before, and makes
-- the older one stale; a report comes while a request is in flight and settles it, and one with addresses
-- has its epoch and endpoint.
abbrev pub Protocol : (least : ℕ) → Option BrokerEndpoint → List BrokerResolutionEffect → Type 0
Protocol least asked [] = Unit
Protocol least asked (resolve r ∷ es) =
    (least ≤ r.epoch) × Protocol (suc r.epoch) (some r.endpoint) es
Protocol least asked (report_resolved _ epoch endpoint _ ∷ es) =
    (suc epoch ≡ least) × (asked ≡ some endpoint) × Protocol least none es
Protocol least asked (report_failed _ _ ∷ es) =
    ((endpoint : BrokerEndpoint) × (asked ≡ some endpoint)) × Protocol least none es

abbrev least_of : BrokerResolutionState → ℕ
least_of dormant = 0
least_of (resolving _ _ epoch _) = suc epoch
least_of (resolved _ epoch) = suc epoch
least_of (gave_up _ epoch _) = suc epoch

abbrev open_of : BrokerResolutionState → Option BrokerEndpoint
open_of (resolving _ endpoint _ _) = some endpoint
open_of _ = none

-- The route of a state, if it has one.
abbrev pub generation_of : BrokerResolutionState → ℕ
generation_of s = elim (current_identity s) [ none ↦ 0 | some (route, _) ↦ route.generation ]

-- The route that a state holds is a route to this broker.
abbrev pub Routed : BrokerId → BrokerResolutionState → Type 0
Routed b s = elim (current_identity s) [ none ↦ Unit | some (route, _) ↦ route.broker_id ≡ b ]

apply_forward :
    (m : BrokerResolutionMachine) (i : BrokerResolutionInput)
    → (generation_of m.state ≤ generation_of (apply m i).0.state)
      × ((apply m i).0.broker_id ≡ m.broker_id)
unfolding apply
apply_forward m i = ground arith

apply-Routed :
    (m : BrokerResolutionMachine) (i : BrokerResolutionInput)
    → Routed m.broker_id m.state
    → Routed m.broker_id (apply m i).0.state
unfolding apply
apply-Routed m i h = ground arith

-- Over any run of a machine whose route is one to its broker, that stays so and the metadata generation
-- of the route never goes back.
pub run_generations :
    (m : BrokerResolutionMachine) (is : List BrokerResolutionInput)
    → Routed m.broker_id m.state
    → Routed m.broker_id (run m is).0.state
      × (generation_of m.state ≤ generation_of (run m is).0.state)
run_generations m [] h = (h, omega arith)
run_generations m (i ∷ is) h =
    let (forward, same) = apply_forward m i in
    let here = subst (λ b. Routed b (apply m i).0.state) (sym same) (apply-Routed m i h) in
    let rest = run_generations (apply m i).0 is here in
    (
      subst (λ b. Routed b (run (apply m i).0 is).0.state) same rest.0,
      omega (arith, forward, rest.1),
    )
