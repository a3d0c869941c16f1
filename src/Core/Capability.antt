-- ===== src/Core/Capability.antt =====
-- The APIs usable on one connection epoch: crates/kafka-driver-core/src/capability. The keys and
-- versions of kafka-wire-core are numbers, of which only the order is used.
pub mod Search
use kafka_driver.Core.Canonical.{find_by}
use kafka_driver.Base.{
  ℕ, Option, none, some, List, [], ◌∷◌, ◌++◌, length, nat_ord, leb, ltb, ◌==◌, if◌then◌else◌,
}
use mathlib.Core.Option

abbrev pub ApiKey : Type 0
ApiKey = ℕ

abbrev pub ApiVersion : Type 0
ApiVersion = ℕ

pub record VersionRange : Type 0 where
  pub min_version : ApiVersion
  pub max_version : ApiVersion

pub record NegotiatedApi : Type 0 where
  pub api_key : ApiKey
  pub versions : VersionRange

abbrev pub api_version : NegotiatedApi → ApiVersion
api_version a = a.versions.max_version

unfoldable pub highest_at_most : NegotiatedApi → ApiVersion → Option ApiVersion
highest_at_most a maximum =
    if ltb maximum a.versions.min_version
    then none
    else if ltb maximum a.versions.max_version
    then some maximum
    else some a.versions.max_version

pub record NegotiatedCapabilities : Type 0 where
  pub apis : List NegotiatedApi

pub data CapabilityError : Type 0 where
  capacity_reached : (limit : ℕ) → NegotiatedApi → CapabilityError
  non_ascending : (previous rejected : NegotiatedApi) → CapabilityError

pub data Capabilities : Type 0 where
  retained : NegotiatedCapabilities → Capabilities
  refused : CapabilityError → Capabilities

-- `Vec::last`.
abbrev last : List NegotiatedApi → Option NegotiatedApi
last [] = none
last (a ∷ []) = some a
last (a ∷ b ∷ rest) = last (b ∷ rest)

descends : Option NegotiatedApi → NegotiatedApi → Option NegotiatedApi
descends none api = none
descends (some previous) api = if leb api.api_key previous.api_key then some previous else none

-- The loop over the candidates, with those retained so far.
retain : ℕ → List NegotiatedApi → List NegotiatedApi → Capabilities
unfolding descends
retain limit kept [] = retained (record { apis = kept })
retain limit kept (api ∷ rest) =
    let next = retain limit (kept ++ api ∷ []) rest in
    elim (descends (last kept) api) [
      | some previous ↦ refused (non_ascending previous api)
      | none ↦ if length kept == limit then refused (capacity_reached limit api) else next
    ]

unfoldable pub try_from_iter : List NegotiatedApi → ℕ → Capabilities
unfolding retain
try_from_iter apis capacity = retain capacity [] apis

-- `binary_search_by_key`.
unfoldable pub api : NegotiatedCapabilities → ApiKey → Option NegotiatedApi
api c key = find_by (λ a. a.api_key) c.apis key

unfoldable pub version : NegotiatedCapabilities → ApiKey → Option ApiVersion
unfolding api
version c key = Option.map api_version (api c key)

abbrev pub count : NegotiatedCapabilities → ℕ
count c = length c.apis
