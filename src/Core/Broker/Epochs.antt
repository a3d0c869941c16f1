-- ===== src/Core/Broker/Epochs.antt =====
-- The epochs that a broker opens over a run, and its end: broker.
use kafka_driver.Base.{ℕ, suc, ◌≤◌, List, [], ◌∷◌, ◌++◌, ◌≡◌, refl, arith, append-nil}
use kafka_driver.Core.Identity.{ConnectionEpoch}
use kafka_driver.Core.Broker.{
  BrokerMachine, BrokerState, BrokerInput, BrokerEffect, BackoffPolicy, dormant, connecting,
  available, backoff, refreshing, draining, closed, open_connection, begin_drain, new, apply,
}

-- The machine after a list of inputs, with all effects in order.
abbrev pub run : BrokerMachine → List BrokerInput → BrokerMachine × List BrokerEffect
run m [] = (m, [])
run m (i ∷ is) =
    let (next, t) = apply m i in let rest = run next is in (rest.0, t.effects ++ rest.1)

abbrev pub opened : List BrokerEffect → List ConnectionEpoch
opened [] = []
opened (open_connection epoch ∷ es) = epoch ∷ opened es
opened (_ ∷ es) = opened es

-- Strictly increasing, from a least value on.
abbrev pub Ascending : ℕ → List ConnectionEpoch → Type 0
Ascending least [] = Unit
Ascending least (e ∷ es) = (least ≤ e) × Ascending (suc e) es

-- Whatever the state opens from here on is at least this.
abbrev AtLeast : ℕ → BrokerState → Type 0
AtLeast least (dormant e) = least ≤ e
AtLeast least (connecting e retry) = least ≤ suc e
AtLeast least (available e) = least ≤ suc e
AtLeast least (backoff failed next r t d) = least ≤ next
AtLeast least (refreshing failed next r t d a) = least ≤ next
AtLeast least (draining e) = Unit
AtLeast least (closed reason) = Unit

opened-append : (xs ys : List BrokerEffect) → opened (xs ++ ys) ≡ opened xs ++ opened ys
opened-append [] ys = refl
opened-append (open_connection e ∷ xs) ys = rw (opened-append xs ys)
opened-append (_ ∷ xs) ys = opened-append xs ys

-- A step that opens nothing, or one epoch that every later one exceeds.
abbrev Opens : ℕ → List ConnectionEpoch → BrokerState → Type 0
Opens least [] s = AtLeast least s
Opens least (e ∷ []) s = (least ≤ e) × AtLeast (suc e) s
Opens least (e ∷ f ∷ es) s = ⊥

apply-Opens :
    (least : ℕ) (m : BrokerMachine) (i : BrokerInput)
    → AtLeast least m.state
    → Opens least (opened (apply m i).1.effects) (apply m i).0.state
unfolding apply
apply-Opens least m i h = ground arith

after_opening :
    (least : ℕ) (es fs : List ConnectionEpoch) (s : BrokerState)
    → Opens least es s
    → ((next : ℕ) → AtLeast next s → Ascending next fs)
    → Ascending least (es ++ fs)
after_opening least [] fs s h later = later least h
after_opening least (e ∷ []) fs s h later = (h.0, later (suc e) h.1)
after_opening least (e ∷ f ∷ es) fs s h later = absurd h

run-Ascending :
    (least : ℕ) (m : BrokerMachine) (is : List BrokerInput)
    → AtLeast least m.state
    → Ascending least (opened (run m is).1)
run-Ascending least m [] h = tt
run-Ascending least m (i ∷ is) h =
    rw (opened-append (apply m i).1.effects (run (apply m i).0 is).1) (
      after_opening least (opened (apply m i).1.effects) (opened (run (apply m i).0 is).1)
        (apply m i).0.state (apply-Opens least m i h)
        (λ next later. run-Ascending next (apply m i).0 is later))

-- Over any sequence of inputs the epochs that a broker opens are strictly increasing, from the first
-- epoch it was given on: no connection generation is opened twice, and a stale one never comes back.
pub opens-Ascending :
    (initial_epoch : ConnectionEpoch) (policy : BackoffPolicy) (is : List BrokerInput)
    → Ascending initial_epoch (opened (run (new initial_epoch policy) is).1)
unfolding new
opens-Ascending initial_epoch policy is =
    run-Ascending initial_epoch (new initial_epoch policy) is (omega arith)

-- Draining or closed.
abbrev pub Retired : BrokerState → Type 0
Retired (draining e) = Unit
Retired (closed reason) = Unit
Retired _ = ⊥

Retired-step :
    (m : BrokerMachine) (i : BrokerInput)
    → Retired m.state
    → Retired (apply m i).0.state × ((apply m i).1.effects ≡ [])
unfolding apply
Retired-step m i h = ground arith

Retired-run :
    (m : BrokerMachine) (is : List BrokerInput)
    → Retired m.state
    → Retired (run m is).0.state × ((run m is).1 ≡ [])
Retired-run m [] h = (h, refl)
Retired-run m (i ∷ is) h =
    let (retired, silent) = Retired-step m i h in
    let (retired', silent') = Retired-run (apply m i).0 is retired in
    (retired', rw (silent, silent') refl)

drain-Retired : (m : BrokerMachine) → Retired (apply m begin_drain).0.state
unfolding apply
drain-Retired m = ground arith

-- After the request to drain, whatever state it meets and whatever comes after, a broker asks for
-- nothing more: it opens no connection and schedules no timer, and it stays draining or closed.
pub drained_for_good :
    (m : BrokerMachine) (is : List BrokerInput)
    → Retired (run m (begin_drain ∷ is)).0.state
      × ((run m (begin_drain ∷ is)).1 ≡ (apply m begin_drain).1.effects)
drained_for_good m is =
    let (retired, silent) = Retired-run (apply m begin_drain).0 is (drain-Retired m) in
    (retired, rw (silent, append-nil (apply m begin_drain).1.effects) refl)
