-- ===== src/Core/EndpointDialer.antt =====
-- The walk through the addresses of one broker endpoint: crates/kafka-driver-core/src/endpoint_dialer.
-- Endpoints and addresses are parameters: the dialer only passes them on. A set of addresses is a
-- list, which is never empty where it comes from a resolver.
pub mod Pass
pub mod Range
use kafka_driver.Base.{
  ℕ, ◌+◌, ◌%◌, Option, none, some, List, [], ◌∷◌, length, get_elem?, ltb, if◌then◌else◌,
}

pub data DialPhase : Type 0 where
  idle : DialPhase
  candidate connected : (selected : ℕ) → DialPhase

pub record EndpointDialer {ℓ κ} (E : Type ℓ) (A : Type κ) : Type (ℓ ⊔ κ) where
  pub endpoint : E
  pub addresses : List A
  pub next : ℕ
  pub failures : ℕ
  pub phase : DialPhase

pub data EndpointDialerEffect {ℓ κ} (E : Type ℓ) (A : Type κ) : Type (ℓ ⊔ κ) where
  open_candidate : E → A → EndpointDialerEffect E A
  resolve : E → EndpointDialerEffect E A

pub data EndpointDialerInput {κ} (A : Type κ) : Type κ where
  opens ready fails : EndpointDialerInput A
  resolution_completed : List A → EndpointDialerInput A

module _ {ℓ κ} {E : Type ℓ} {A : Type κ} where
  unfoldable pub new : E → List A → EndpointDialer E A
  new e xs = record { endpoint = e; addresses = xs; next = 0; failures = 0; phase = idle }

  -- The address at `next`, if there is one.
  open_at : EndpointDialer E A → Option A → EndpointDialer E A × List (EndpointDialerEffect E A)
  open_at d none = (d, [])
  open_at d (some address) = (
    record d { next = (d.next + 1) % length d.addresses; phase = candidate d.next },
    open_candidate d.endpoint address ∷ [],
  )

  open_next : EndpointDialer E A → EndpointDialer E A × List (EndpointDialerEffect E A)
  unfolding open_at
  open_next d = elim d.phase [ idle ↦ open_at d (get_elem? d.addresses d.next) | _ ↦ (d, []) ]

  become_ready : EndpointDialer E A → EndpointDialer E A × List (EndpointDialerEffect E A)
  become_ready d = elim d.phase [
    | candidate selected ↦ (record d { failures = 0; phase = connected selected }, [])
    | _ ↦ (d, [])
  ]

  candidate_failed : EndpointDialer E A → EndpointDialer E A × List (EndpointDialerEffect E A)
  candidate_failed d =
      if ltb (d.failures + 1) (length d.addresses)
      then (record d { failures = d.failures + 1; phase = idle }, [])
      else (record d { failures = 0; phase = idle }, resolve d.endpoint ∷ [])

  fail_connection : EndpointDialer E A → EndpointDialer E A × List (EndpointDialerEffect E A)
  unfolding candidate_failed
  fail_connection d = elim d.phase [
    | candidate selected ↦ candidate_failed d
    | connected selected ↦ (record d { next = selected; failures = 0; phase = idle }, [])
    | idle ↦ (d, [])
  ]

  replace_addresses :
      EndpointDialer E A → List A → EndpointDialer E A × List (EndpointDialerEffect E A)
  replace_addresses d xs = (record d { addresses = xs; next = 0; failures = 0; phase = idle }, [])

  unfoldable pub apply :
      EndpointDialer E A
      → EndpointDialerInput A
      → EndpointDialer E A × List (EndpointDialerEffect E A)
  unfolding open_next become_ready fail_connection replace_addresses
  apply d opens = open_next d
  apply d ready = become_ready d
  apply d fails = fail_connection d
  apply d (resolution_completed xs) = replace_addresses d xs
