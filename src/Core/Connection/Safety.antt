-- ===== src/Core/Connection/Safety.antt =====
-- A connection epoch at every point of a run: `ConnectionMachine::apply`, repeated.
use kafka_driver.Base.{
  ℕ, ◌≤◌, ◌<◌, false, Option, none, some, List, [], ◌∷◌, ◌≡◌, refl, sym, ap, ◌∙◌, arith, ◌==◌,
  length, any, i32_max, subst,
}
use kafka_driver.Core.Connection.{apply, new, dispatch, conclude, proceed}
use kafka_driver.Core.Connection.Flow
use kafka_driver.Core.Connection.Flow.{Submitted, decided, invalid}
use kafka_driver.Core.Connection.Pending.{
  PendingCall, new_call, contains_correlation, allocate, push,
}
use kafka_driver.Core.Connection.State.{
  ConnectionMachine, ConnectionInput, ConnectionLimits, StateData, ActiveMode, ActiveConnection,
  active, schedule_deadline, write_request, applies, InputKind, kind, submit, state_epoch, phase,
  ConnectionPhase,
}
use kafka_driver.Core.Connection.Accounting.{waiting, answers, pending_calls}
use kafka_driver.Core.Connection.Runs.{outcome, step, run, taken, run_accounting}
use kafka_driver.Core.Connection.Phases.{rank, SubmittedForward, dispatch-Forward}
use kafka_driver.Core.Session
use kafka_driver.Core.Connection.Sync.{InSync, SubmittedFollows, dispatch-Follows}
use kafka_driver.Core.Connection.Invariant.{
  StateIsValid, ActiveIsValid, SubmittedKeeps, dispatch-Keeps,
}
use kafka_driver.Core.Connection.Correlations.{allocate_finds}
use kafka_driver.Core.Authentication.{AuthenticationPolicy}
use kafka_driver.Core.Identity.{CallId, ConnectionEpoch}

-- The limits stay, the epoch stays, no phase comes back, and a valid state stays valid.
abbrev Safe : ConnectionMachine → ConnectionMachine → Type 0
Safe m m' =
    (m'.limits ≡ m.limits)
    × (state_epoch m'.state ≡ state_epoch m.state)
    × (rank (phase m.state) ≤ rank (phase m'.state))
    × (StateIsValid m.limits.in_flight m.state → StateIsValid m.limits.in_flight m'.state)
    × (InSync m → InSync m')

same-Safe : (m : ConnectionMachine) → Safe m m
same-Safe m = (refl, refl, omega arith, λ v. v, λ y. y)

conclude-Safe :
    (m : ConnectionMachine) (n : ℕ) (k : InputKind) (s : Submitted)
    → SubmittedForward m.state s
    → SubmittedKeeps m s
    → SubmittedFollows m s
    → Safe m (outcome m (conclude m n k s)).0
unfolding conclude
conclude-Safe m n k (decided m' d) forward keeps follows =
    (keeps.0, forward.0, forward.1, keeps.1, follows)
conclude-Safe m n k (invalid e) forward keeps follows = same-Safe m

proceed-Safe :
    (m : ConnectionMachine) (i : ConnectionInput) (n : Option ℕ)
    → Safe m (outcome m (proceed m i n)).0
unfolding proceed
proceed-Safe m i none = same-Safe m
proceed-Safe m i (some n) =
    conclude-Safe m n (kind i) (dispatch m i) (dispatch-Forward m i) (dispatch-Keeps m i)
      (dispatch-Follows m i)

step-Safe : (m : ConnectionMachine) (i : ConnectionInput) → Safe m (step m i).0
unfolding apply
step-Safe m i = proceed-Safe m i m.next_sequence

trans-Safe : (a b c : ConnectionMachine) → Safe a b → Safe b c → Safe a c
trans-Safe a b c (l, e, r, v, y) (l', e', r', v', y') = (
  l' ∙ l,
  e' ∙ e,
  omega arith,
  λ h.
      subst (λ k. StateIsValid k.in_flight c.state) l
        (v' (subst (λ k. StateIsValid k.in_flight b.state) (sym l) (v h))),
  λ h. y' (y h),
)

run-Safe : (m : ConnectionMachine) (is : List ConnectionInput) → Safe m (run m is).0
run-Safe m [] = same-Safe m
run-Safe m (i ∷ is) =
    trans-Safe m (step m i).0 (run (step m i).0 is).0 (step-Safe m i) (run-Safe (step m i).0 is)

-- However an epoch is driven from its start, it keeps its epoch number; and while it is active its
-- queue holds at most the configured number of calls, no two with the same call, effect, timer or
-- correlation, and each reports its delivery as not sent exactly while its write is outstanding.
pub run-IsValid :
    (epoch : ConnectionEpoch) (limits : ConnectionLimits) (policy : Option AuthenticationPolicy)
    (is : List ConnectionInput)
    → (state_epoch (run (new epoch limits policy) is).0.state ≡ epoch)
      × StateIsValid limits.in_flight (run (new epoch limits policy) is).0.state
unfolding new
run-IsValid epoch limits policy is =
    let (l, e, r, v, y) = run-Safe (new epoch limits policy) is in (e, v tt)

-- However an epoch is driven from its start, its session is configured as it is and stands where it
-- stands until it gives up: both await the transport, both negotiate to the same deadline, the SASL
-- child and the session are in the same stage and round with the same deadline, and both are ready or
-- draining with the same negotiated versions.
pub run-InSync :
    (epoch : ConnectionEpoch) (limits : ConnectionLimits) (policy : Option AuthenticationPolicy)
    (is : List ConnectionInput)
    → InSync (run (new epoch limits policy) is).0
unfolding new Session.new
run-InSync epoch limits policy is =
    let (l, e, r, v, y) = run-Safe (new epoch limits policy) is in y (refl, refl, refl)

-- Over any run the phase of an epoch never goes back, so that one which is closed stays closed.
pub run_forward :
    (m : ConnectionMachine) (is : List ConnectionInput)
    → rank (phase m.state) ≤ rank (phase (run m is).0.state)
run_forward m is = let (l, e, r, v, y) = run-Safe m is in r

-- The state after a call was taken: it waits at the end of the queue.
abbrev pub with_call : ConnectionMachine → ActiveConnection → ℕ → PendingCall → ConnectionMachine
with_call m c next p = record m {
  state =
      active ActiveMode.ready (record c { next_correlation = next; pending = push c.pending p });
}

admit_call_found :
    (m : ConnectionMachine) (c : ActiveConnection) (id f t at : ℕ) (found : ℕ × Option ℕ) (k : ℕ)
    → found.1 ≡ some k
    → Flow.admit_call m c id f t at found
      ≡ decided (with_call m c found.0 (new_call id k f t at)) (
          applies
            (schedule_deadline c.epoch id t at ∷ write_request c.epoch c.transport_id id k f ∷ []))
unfolding Flow.admit_call
admit_call_found m c id f t at (next, none) k e = ground arith
admit_call_found m c id f t at (next, some j) k e = let same : j ≡ k = ground arith in rw same

-- A submission to a valid, ready epoch whose deadline is ahead, for which there is room among at most
-- `i32::MAX` calls, and whose identities are new, is taken: it gets a correlation that no call in
-- flight has, its deadline is scheduled, its request is written, and it waits behind all others.
pub submit_accepts :
    (m : ConnectionMachine) (c : ActiveConnection) (id f t now at : ℕ)
    → m.state ≡ active ActiveMode.ready c
    → ActiveIsValid m.limits.in_flight c
    → m.limits.in_flight ≤ i32_max
    → now < at
    → length c.pending.calls < m.limits.in_flight
    → any (λ p. p.call_id == id) c.pending.calls ≡ false
    → any (λ p. p.write_effect == f) c.pending.calls ≡ false
    → any (λ p. p.deadline_timer == t) c.pending.calls ≡ false
    → (k : ℕ) × (next : ℕ) × (contains_correlation c.pending.calls k ≡ false)
      × (dispatch m (submit id f t now at)
          ≡ decided (with_call m c next (new_call id k f t at)) (
              applies (
                schedule_deadline c.epoch id t at
                ∷ write_request c.epoch c.transport_id id k f
                ∷ [])))
unfolding dispatch Flow.submit
submit_accepts m c id f t now at same v small ahead room no_id no_f no_t =
    let calls = c.pending.calls in
    let found = allocate c.next_correlation (length calls) (contains_correlation calls) in
    let (k, is_k, free) = allocate_finds c.next_correlation calls v.next_is_value (omega arith) in
    let reaches : Flow.submit m id f t now at ≡ Flow.admit_call m c id f t at found =
      ground (arith, same) in
    (k, found.0, free, reaches ∙ admit_call_found m c id f t at found k is_k)

ended_idle : (s : StateData) → rank ConnectionPhase.draining < rank (phase s) → pending_calls s ≡ []
ended_idle s h = ground arith

-- An epoch that has been driven from its start until it is no longer active has answered every call
-- that it took exactly once, either with the response or with a failure.
pub all_answered :
    (epoch : ConnectionEpoch) (limits : ConnectionLimits) (policy : Option AuthenticationPolicy)
    (is : List ConnectionInput) (call : CallId)
    → rank ConnectionPhase.draining < rank (phase (run (new epoch limits policy) is).0.state)
    → answers call (run (new epoch limits policy) is).1 ≡ taken call (new epoch limits policy) is
unfolding new
all_answered epoch limits policy is call ended =
    let idle : pending_calls (run (new epoch limits policy) is).0.state ≡ [] =
      ended_idle (run (new epoch limits policy) is).0.state ended in
    omega (arith, run_accounting call (new epoch limits policy) is, ap (waiting call) idle)
