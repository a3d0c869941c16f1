-- ===== src/Core/Bootstrap/Pass.antt =====
-- A pass over the configured endpoints in which every resolution fails: bootstrap/machine.rs.
use kafka_driver.Base.{
  List, Option, some, ◌<◌, ℕ, ◌∷◌, ◌≡◌, [], none, arith, suc, length, ◌-◌, ◌+◌, ◌++◌, drop,
  get_elem-drop, take, ap, refl,
}
use kafka_driver.Core.Identity.{ConnectionEpoch, EffectId}
use native.Mathlib.Nat.{mod-lt}
use kafka_driver.Core.Resolution.{failed}
use kafka_driver.Core.Bootstrap.{
  BootstrapMachine, BootstrapState, BootstrapInput, BootstrapEffect, BootstrapSet, resolving, start,
  resolution_completed, resolve, report_exhausted, apply, selected, advance, current_epoch,
  ConnectionEpoch, DnsFailure, List, Option, EffectId, BrokerEndpoint, applied,
}
use kafka_driver.Core.Bootstrap.Attempts.{run}
use kafka_driver.Core.Bootstrap.Rotation.{visits, visits_next, visits_all}

-- The request that an outcome answers has the first effect identity, and those of the retries follow;
-- the last outcome offers one that is not used.
abbrev pub all_fail :
    ConnectionEpoch
    → DnsFailure
    → (spare : EffectId) → EffectId
    → List EffectId
    → List BootstrapInput
all_fail e f spare id [] =
    resolution_completed (record { epoch = e; effect_id = id; result = failed f }) spare ∷ []
all_fail e f spare id (next ∷ ids) =
    resolution_completed (record { epoch = e; effect_id = id; result = failed f }) next
    ∷ all_fail e f spare next ids

abbrev ask : ConnectionEpoch → EffectId → BrokerEndpoint → BootstrapEffect
ask e id x = resolve (record { epoch = e; effect_id = id; endpoint = x })

abbrev pub asks : ConnectionEpoch → List EffectId → List BrokerEndpoint → List BootstrapEffect
asks e [] xs = []
asks e (id ∷ ids) [] = []
asks e (id ∷ ids) (x ∷ xs) = ask e id x ∷ asks e ids xs

-- No epoch yet, or an earlier one.
abbrev pub IsNewer : ConnectionEpoch → Option ConnectionEpoch → Type 0
IsNewer e none = Unit
IsNewer e (some current) = current < e

module _ (s : BootstrapSet) (e : ConnectionEpoch) (f : DnsFailure) (spare : EffectId) where
  abbrev at_work : ℕ → EffectId → BrokerEndpoint → ℕ → BootstrapMachine
  at_work c id x remaining = record {
    endpoints = s;
    cursor = c;
    state = resolving e id x remaining;
  }

  last_fails :
      (c : ℕ) (id : EffectId) (x : BrokerEndpoint)
      → (apply (at_work c id x 0) (
          resolution_completed
            (record { epoch = e; effect_id = id; result = failed f })
            spare)).1.effects
        ≡ report_exhausted e f ∷ []
  unfolding apply
  last_fails c id x = ground arith

  next_tries :
      (c : ℕ) (id next : EffectId) (x y : BrokerEndpoint) (remaining : ℕ)
      → selected c s ≡ some y
      → apply
          (at_work c id x (suc remaining))
          (resolution_completed (record { epoch = e; effect_id = id; result = failed f }) next)
        ≡ (
          at_work (advance c s) next y remaining,
          record { effects = asks e (next ∷ []) (y ∷ []); disposition = applied },
        )
  unfolding apply
  next_tries c id next x y remaining there = ground (arith, there)

  starts :
      (c : ℕ) (state : BootstrapState) (id : EffectId) (y : BrokerEndpoint)
      → selected c s ≡ some y
      → IsNewer e (current_epoch state)
      → apply (record { endpoints = s; cursor = c; state = state }) (start e id) ≡ (
        at_work (advance c s) id y (length s - 1),
        record { effects = asks e (id ∷ []) (y ∷ []); disposition = applied },
      )
  unfolding apply
  starts c state id y there newer = ground (arith, there, newer)

  in_range : (c : ℕ) → c < length s → advance c s < length s
  in_range c h = mod-lt (c + 1) (omega arith)

  rest_of_pass :
      (ids : List EffectId) (c : ℕ) (id : EffectId) (x : BrokerEndpoint)
      → c < length s
      → (run (at_work c id x (length ids)) (all_fail e f spare id ids)).1
        ≡ asks e ids (visits s c (length ids)) ++ report_exhausted e f ∷ []
  rest_of_pass [] c id x h = rw (last_fails c id x) refl
  rest_of_pass (next ∷ ids) c id x h =
      let (y, (there, _)) = get_elem-drop s c h in
      let later = rest_of_pass ids (advance c s) next y (in_range c h) in
      rw (next_tries c id next x y (length ids) there, visits_next s c (length ids) y there)
        (ap (◌∷◌ (ask e next y)) later)

  -- If every resolution fails, a start of a new epoch asks for each configured endpoint once, in the order
  -- of the set from the cursor on, each with the identity given for it, and reports that they are exhausted
  -- exactly when the last has failed. The cursor is in range and there is an identity for each endpoint.
  pub pass_exhausts :
      (c : ℕ) (state : BootstrapState) (id : EffectId) (ids : List EffectId)
      → c < length s
      → length (id ∷ ids) ≡ length s
      → IsNewer e (current_epoch state)
      → (run
          (record { endpoints = s; cursor = c; state = state })
          (start e id ∷ all_fail e f spare id ids)).1
        ≡ asks e (id ∷ ids) (drop c s ++ take c s) ++ report_exhausted e f ∷ []
  pass_exhausts c state id ids h size newer =
      let (y, (there, _)) = get_elem-drop s c h in
      let later = rest_of_pass ids (advance c s) id y (in_range c h) in
      let remaining : length s - 1 ≡ length ids = omega arith in
      let through = visits_all s c (length ids) h size in
      rw
        (
          ← through,
          starts c state id y there newer,
          visits_next s c (length ids) y there,
          remaining,
        )
        (ap (◌∷◌ (ask e id y)) later)
