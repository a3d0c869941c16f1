-- ===== src/Scenarios/DialerRuns.antt =====
-- A dialer with two addresses.
use kafka_driver.Base.{ℕ, List, [], ◌∷◌, ◌≡◌, refl, arith}
use kafka_driver.Core.EndpointDialer.{
  EndpointDialer, EndpointDialerInput, open_candidate, resolve, opens, ready, fails,
  resolution_completed, new, apply,
}
use kafka_driver.Core.EndpointDialer.Pass.{run, all_fail, full_pass, all_fail_resolves}
use kafka_driver.Core.EndpointDialer.Range.{DialerIsValid, run-DialerIsValid, idle_opens}

abbrev two_addresses : EndpointDialer ℕ ℕ
two_addresses = new 1 (5 ∷ 6 ∷ [])

abbrev walk : List (EndpointDialerInput ℕ)
walk = opens ∷ ready ∷ fails ∷ resolution_completed (7 ∷ []) ∷ opens ∷ fails ∷ []

walk-run : (run two_addresses walk).1 ≡ open_candidate 1 5 ∷ open_candidate 1 7 ∷ resolve 1 ∷ []
unfolding new apply
walk-run = refl

all_fail_resolves_example : (run two_addresses (all_fail (5 ∷ 6 ∷ []))).1 ≡ full_pass 1 (5 ∷ 6 ∷ [])
all_fail_resolves_example = all_fail_resolves {E = ℕ} 1 5 (6 ∷ [])

run-DialerIsValid_example : DialerIsValid (run two_addresses walk).0
unfolding new apply
run-DialerIsValid_example =
    run-DialerIsValid {E = ℕ} 1 5 (6 ∷ []) walk (tt, (tt, (tt, (omega arith, (tt, (tt, tt))))))

idle_opens_example :
    (a : ℕ) × ((apply (run two_addresses walk).0 opens).1
      ≡ open_candidate (run two_addresses walk).0.endpoint a ∷ [])
unfolding new apply
idle_opens_example =
    idle_opens {E = ℕ} 1 5 (6 ∷ []) walk (tt, (tt, (tt, (omega arith, (tt, (tt, tt)))))) refl
