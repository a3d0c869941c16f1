-- ===== src/Core/Bootstrap/Fencing.antt =====
-- Which resolver outcomes a pass takes: bootstrap/machine.rs.
use kafka_driver.Core.Identity.{ConnectionEpoch}
use kafka_driver.Base.{◌≢◌, ◌≡◌, [], ◌∷◌, arith, Option-cases, inl, inr}
use kafka_driver.Core.Resolution.{ResolvedAddressSet, found}
use kafka_driver.Core.Bootstrap.{
  BootstrapMachine, BootstrapState, BootstrapInput, resolving, resolution_completed,
  report_resolved, apply, applied, selected, ConnectionEpoch, BrokerEndpoint,
}

-- The state asks for the endpoint at the epoch, and the input is an outcome with its two identities
-- that carries the addresses.
abbrev pub Answered :
    ConnectionEpoch → BrokerEndpoint → ResolvedAddressSet → BootstrapState → BootstrapInput → Type 0
Answered e x addresses (resolving epoch id endpoint _) (resolution_completed o _) =
    (epoch ≡ e) × (endpoint ≡ x) × (o.epoch ≡ e) × (o.effect_id ≡ id) × (o.result ≡ found addresses)
Answered e x addresses _ _ = ⊥

-- Addresses are reported only for an outcome that carries them and echoes the epoch and the identity of
-- the request in flight, with the endpoint of that request.
pub reports_answer_requests :
    (m : BootstrapMachine) (i : BootstrapInput) (e : ConnectionEpoch) (x : BrokerEndpoint)
    (addresses : ResolvedAddressSet)
    → (apply m i).1.effects ≡ report_resolved e x addresses ∷ []
    → Answered e x addresses m.state i
unfolding apply
reports_answer_requests m i e x addresses h = elim (Option-cases (selected m.cursor m.endpoints)) [
  | inl none_there ↦ ground (arith, h, none_there)
  | inr found_there ↦ ground (arith, h, found_there.1)
]

-- An input that is not applied, be it stale or early, changes nothing and has no effects.
pub ignored_changes_nothing :
    (m : BootstrapMachine) (i : BootstrapInput)
    → (apply m i).1.disposition ≢ applied
    → ((apply m i).0 ≡ m) × ((apply m i).1.effects ≡ [])
unfolding apply
ignored_changes_nothing m i h = ground arith
