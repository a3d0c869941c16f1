-- ===== src/Core/Resolution.antt =====
-- Requests to a resolver and its outcomes: crates/kafka-driver-core/src/resolution. A set of
-- addresses is its list, in stable order and without repeats.
use kafka_driver.Base.{ℕ, Option, List, get_elem?}
use kafka_driver.Core.Identity.{ConnectionEpoch, EffectId}
use kafka_driver.Core.Endpoint.{BrokerEndpoint, ResolvedAddress, address_eq}
use kafka_driver.Core.BoundedSet.{Admission, try_from_iter}

pub data DnsFailure : Type 0 where
  name_not_found temporary no_usable_address : DnsFailure

abbrev pub ResolvedAddressSet : Type 0
ResolvedAddressSet = List ResolvedAddress

unfoldable pub resolved_set : List ResolvedAddress → (max_addresses : ℕ) → Admission ResolvedAddress
resolved_set addresses max_addresses = try_from_iter addresses max_addresses

abbrev pub address_at : ResolvedAddressSet → ℕ → Option ResolvedAddress
address_at addresses index = get_elem? addresses index

pub record DnsRequest : Type 0 where
  pub epoch : ConnectionEpoch
  pub effect_id : EffectId
  pub endpoint : BrokerEndpoint

pub data DnsResult : Type 0 where
  found : ResolvedAddressSet → DnsResult
  failed : DnsFailure → DnsResult

pub record DnsOutcome : Type 0 where
  pub epoch : ConnectionEpoch
  pub effect_id : EffectId
  pub result : DnsResult
