-- ===== src/Core/Bootstrap/State.antt =====
-- The data of bootstrap: set.rs, cursor.rs, state.rs, input.rs, effect.rs and transition.rs of
-- crates/kafka-driver-core/src/bootstrap. A set of endpoints is its list.
use kafka_driver.Base.{ℕ, ◌+◌, ◌%◌, Option, List, length, get_elem?}
use kafka_driver.Core.Identity.{ConnectionEpoch, EffectId}
use kafka_driver.Core.Endpoint.{BrokerEndpoint, endpoint_eq}
use kafka_driver.Core.BoundedSet.{Admission, try_from_iter}
use kafka_driver.Core.Resolution.{DnsFailure, DnsRequest, DnsOutcome, ResolvedAddressSet}

abbrev pub BootstrapSet : Type 0
BootstrapSet = List BrokerEndpoint

unfoldable pub bootstrap_set : List BrokerEndpoint → (max_endpoints : ℕ) → Admission BrokerEndpoint
bootstrap_set endpoints max_endpoints = try_from_iter endpoints max_endpoints

-- The next index.
abbrev pub BootstrapCursor : Type 0
BootstrapCursor = ℕ

-- `endpoints.len()` is the second operand of `%` in the code, which is not zero for a set.
abbrev pub advance : BootstrapCursor → BootstrapSet → BootstrapCursor
advance cursor endpoints = (cursor + 1) % length endpoints

-- The endpoint at the index, which panics in the code where there is none.
abbrev pub selected : BootstrapCursor → BootstrapSet → Option BrokerEndpoint
selected cursor endpoints = get_elem? endpoints cursor

pub data BootstrapState : Type 0 where
  dormant : BootstrapState
  resolving : ConnectionEpoch → EffectId → BrokerEndpoint → (remaining : ℕ) → BootstrapState
  resolved : ConnectionEpoch → BootstrapState
  exhausted : ConnectionEpoch → (last_failure : DnsFailure) → BootstrapState

pub data BootstrapInput : Type 0 where
  start : ConnectionEpoch → EffectId → BootstrapInput
  resolution_completed : DnsOutcome → (retry_effect_id : EffectId) → BootstrapInput

pub data BootstrapEffect : Type 0 where
  resolve : DnsRequest → BootstrapEffect
  report_resolved : ConnectionEpoch → BrokerEndpoint → ResolvedAddressSet → BootstrapEffect
  report_exhausted : ConnectionEpoch → (last_failure : DnsFailure) → BootstrapEffect

pub data BootstrapDisposition : Type 0 where
  applied ignored_stale ignored_busy : BootstrapDisposition

pub record BootstrapTransition : Type 0 where
  pub effects : List BootstrapEffect
  pub disposition : BootstrapDisposition

pub record BootstrapMachine : Type 0 where
  pub endpoints : BootstrapSet
  pub cursor : BootstrapCursor
  pub state : BootstrapState
