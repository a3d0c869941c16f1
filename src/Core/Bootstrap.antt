-- ===== src/Core/Bootstrap.antt =====
-- One pass through the configured endpoints, and the wait between two passes:
-- crates/kafka-driver-core/src/bootstrap.
mod State
mod Rotation
pub mod Pass
pub mod Retry
pub mod Fencing
pub mod Attempts
unfoldable pub use State.*
use kafka_driver.Base.{
  ℕ, Bool, true, false, ◌||◌, ◌-◌, Option, none, some, List, [], ◌∷◌, length, ltb, ◌==◌, ◌!=◌,
  if◌then◌else◌,
}
use kafka_driver.Core.Identity.{ConnectionEpoch, EffectId}
use kafka_driver.Core.Endpoint.{BrokerEndpoint}
use kafka_driver.Core.Resolution.{DnsOutcome, DnsFailure, found, failed}

abbrev applies : List BootstrapEffect → BootstrapTransition
applies es = record { effects = es; disposition = applied }

abbrev ignores : BootstrapDisposition → BootstrapTransition
ignores why = record { effects = []; disposition = why }

unfoldable pub new : BootstrapSet → BootstrapMachine
new endpoints = record { endpoints = endpoints; cursor = 0; state = dormant }

abbrev pub current_epoch : BootstrapState → Option ConnectionEpoch
current_epoch dormant = none
current_epoch (resolving epoch _ _ _) = some epoch
current_epoch (resolved epoch) = some epoch
current_epoch (exhausted epoch _) = some epoch

-- `select_next` and the request for the endpoint, with the attempts that are left after it.
attempt :
    BootstrapMachine
    → ConnectionEpoch
    → EffectId
    → (remaining : ℕ) → Option BrokerEndpoint
    → BootstrapMachine × BootstrapTransition
attempt m epoch effect_id remaining none = (m, applies [])
attempt m epoch effect_id remaining (some endpoint) = (
  record m {
    cursor = advance m.cursor m.endpoints;
    state = resolving epoch effect_id endpoint remaining;
  },
  applies (resolve (record { epoch = epoch; effect_id = effect_id; endpoint = endpoint }) ∷ []),
)

retry :
    BootstrapMachine
    → ConnectionEpoch
    → EffectId
    → (remaining : ℕ) → BootstrapMachine × BootstrapTransition
unfolding attempt
retry m epoch effect_id remaining =
    attempt m epoch effect_id remaining (selected m.cursor m.endpoints)

begin : BootstrapMachine → ConnectionEpoch → EffectId → BootstrapMachine × BootstrapTransition
unfolding attempt
begin m epoch effect_id =
    let fresh =
      attempt m epoch effect_id (length m.endpoints - 1) (selected m.cursor m.endpoints) in
    elim (current_epoch m.state) [
      | none ↦ fresh
      | some current ↦
          if ltb epoch current
          then (m, ignores ignored_stale)
          else if epoch == current
          then (m, ignores ignored_busy)
          else fresh
    ]

fail_attempt :
    BootstrapMachine
    → ConnectionEpoch
    → (remaining : ℕ) → DnsFailure
    → EffectId
    → BootstrapMachine × BootstrapTransition
unfolding retry
fail_attempt m epoch remaining last_failure retry_effect_id =
    if remaining == 0
    then (
      record m { state = exhausted epoch last_failure },
      applies (report_exhausted epoch last_failure ∷ []),
    )
    else retry m epoch retry_effect_id (remaining - 1)

complete : BootstrapMachine → DnsOutcome → EffectId → BootstrapMachine × BootstrapTransition
unfolding fail_attempt
complete m outcome retry_effect_id = elim m.state [
  | resolving epoch effect_id endpoint remaining ↦
      if outcome.epoch != epoch || outcome.effect_id != effect_id
      then (m, ignores ignored_stale)
      else elim outcome.result [
        | found addresses ↦ (
          record m { state = resolved epoch },
          applies (report_resolved epoch endpoint addresses ∷ []),
        )
        | failed last_failure ↦ fail_attempt m epoch remaining last_failure retry_effect_id
      ]
  | _ ↦ (m, ignores ignored_stale)
]

unfoldable pub apply : BootstrapMachine → BootstrapInput → BootstrapMachine × BootstrapTransition
unfolding begin complete
apply m (start epoch effect_id) = begin m epoch effect_id
apply m (resolution_completed outcome retry_effect_id) = complete m outcome retry_effect_id
