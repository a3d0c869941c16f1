-- ===== src/Core/Bootstrap/Attempts.antt =====
-- The requests and reports of one connection epoch: bootstrap/machine.rs.
use kafka_driver.Core.Identity.{ConnectionEpoch}
use kafka_driver.Base.{if◌then◌else◌, List, ℕ, ◌∷◌, ◌++◌, ltb, ◌≡◌, ◌≤◌, ◌+◌, length, [], ◌==◌}
use kafka_driver.Core.Bootstrap.{
  BootstrapMachine, BootstrapState, BootstrapInput, BootstrapEffect, dormant, resolving, resolved,
  exhausted, resolve, report_resolved, report_exhausted, apply, ConnectionEpoch,
}

-- The machine after a list of inputs, with all effects in order.
abbrev pub run : BootstrapMachine → List BootstrapInput → BootstrapMachine × List BootstrapEffect
run m [] = (m, [])
run m (i ∷ is) =
    let (next, t) = apply m i in let rest = run next is in (rest.0, t.effects ++ rest.1)

-- How many requests, or reports of an end, an epoch has among the effects.
abbrev pub requests : ConnectionEpoch → List BootstrapEffect → ℕ
requests e [] = 0
requests e (resolve request ∷ es) = (if request.epoch == e then 1 else 0) + requests e es
requests e (_ ∷ es) = requests e es

abbrev pub reports : ConnectionEpoch → List BootstrapEffect → ℕ
reports e [] = 0
reports e (report_resolved epoch _ _ ∷ es) = (if epoch == e then 1 else 0) + reports e es
reports e (report_exhausted epoch _ ∷ es) = (if epoch == e then 1 else 0) + reports e es
reports e (_ ∷ es) = reports e es

-- What an epoch may still use of an allowance, when the current one has this much left.
abbrev left_of : ConnectionEpoch → (current : ConnectionEpoch) → (left all : ℕ) → ℕ
left_of e current left all = if ltb current e then all else if current == e then left else 0

abbrev requests_left : ConnectionEpoch → ℕ → BootstrapState → ℕ
requests_left e all dormant = all
requests_left e all (resolving epoch _ _ remaining) = left_of e epoch remaining all
requests_left e all (resolved epoch) = left_of e epoch 0 all
requests_left e all (exhausted epoch _) = left_of e epoch 0 all

abbrev reports_left : ConnectionEpoch → BootstrapState → ℕ
reports_left e dormant = 1
reports_left e (resolving epoch _ _ _) = left_of e epoch 1 1
reports_left e (resolved epoch) = left_of e epoch 0 1
reports_left e (exhausted epoch _) = left_of e epoch 0 1

record Spends (e : ConnectionEpoch) (m : BootstrapMachine) (n : BootstrapMachine)
    (es : List BootstrapEffect) : Type 0 where
  keeps : n.endpoints ≡ m.endpoints
  fewer_requests :
      requests e es + requests_left e (length n.endpoints) n.state
      ≤ requests_left e (length m.endpoints) m.state
  fewer_reports : reports e es + reports_left e n.state ≤ reports_left e m.state
