-- ===== src/Scenarios/ConnectionRuns.antt =====
-- One connection epoch with two calls, one of which is answered before the transport is lost.
use kafka_driver.Base.{ℕ, ◌+◌, ◌≤◌, ◌<◌, List, [], ◌∷◌, ◌++◌, ◌≡◌, refl, arith, none, some, false}
use mathlib.Core.List.{Sublistᴰ}
use kafka_driver.Core.Capability.{NegotiatedCapabilities}
use kafka_driver.Core.Authentication
use kafka_driver.Core.Authentication.{
  AuthenticationMachine, SaslProtocol, plain, AuthenticationPolicy,
}
use kafka_driver.Core.Session
use kafka_driver.Core.Session.{SessionMachine}
use kafka_driver.Core.Connection.{new, dispatch, apply}
use kafka_driver.Core.Connection.Opening
use kafka_driver.Core.Connection.Authenticating
use kafka_driver.Core.Connection.Flow
use kafka_driver.Core.Connection.Response
use kafka_driver.Core.Connection.Lifecycle
use kafka_driver.Core.Connection.Flow.{decided}
use kafka_driver.Core.Connection.Pending.{
  submit_in, PendingCall, new_call, contains_correlation, allocate,
}
use kafka_driver.Core.Connection.State.{
  ConnectionMachine, ConnectionInput, ConnectionLimits, ActiveConnection, ActiveMode,
  ConnectionPhase, active, authenticating, start, transport_opened, api_versions_negotiated, submit,
  write_submitted, response_received, transport_closed, TransportFailure, phase, state_epoch,
  applies, schedule_deadline, write_request,
}
use kafka_driver.Core.Connection.Accounting.{waiting, answers, pending_calls}
use kafka_driver.Core.Connection.Runs.{run, taken, run_accounting}
use kafka_driver.Core.Connection.Quiet.{entries, written, completed}
use kafka_driver.Core.Connection.Fifo.{run_order}
use kafka_driver.Core.Connection.Invariant.{StateIsValid, ActiveIsValid}
use kafka_driver.Core.Connection.Closes.{closes, ended}
use kafka_driver.Core.Connection.Ending.{requests_close_once}
use kafka_driver.Core.Connection.Phases.{rank}
use kafka_driver.Core.Connection.Sync.{InSync}
use kafka_driver.Core.Connection.Assertion.{session_takes}
use kafka_driver.Core.Connection.Correlations.{allocate_finds}
use kafka_driver.Core.Connection.Safety.{
  run-IsValid, run-InSync, submit_accepts, all_answered, with_call,
}

abbrev two_calls : ConnectionLimits
two_calls = record { in_flight = 2; capabilities = 4; trace_records = 2 }

abbrev nothing : NegotiatedCapabilities
nothing = record { apis = [] }

abbrev script : List ConnectionInput
script =
    start 1 6 2 10
    ∷ transport_opened 3 1 6 (record { effect_id = 4; attempt_timer = 5; now = 1; deadline = 10 })
    ∷ api_versions_negotiated 3 6 4 nothing
    ∷ submit 7 20 30 2 10
    ∷ submit 8 21 31 2 10
    ∷ submit 9 22 32 2 10
    ∷ write_submitted 3 6 20
    ∷ response_received 3 6 0
    ∷ transport_closed 3 6 TransportFailure.reset
    ∷ []

-- The first call completes, the second fails with the transport, the third finds no room.
script-completed : completed (run (new 3 two_calls none) script).1 ≡ (7, 0) ∷ []
unfolding new apply dispatch Session.apply Session.new Opening.start Opening.transport_opened
    Opening.api_versions_negotiated Flow.submit Flow.write_submitted Response.response_received
    Lifecycle.transport_closed allocate submit_in
script-completed = refl

script_ended :
    rank ConnectionPhase.draining < rank (phase (run (new 3 two_calls none) script).0.state)
unfolding new apply dispatch Session.apply Session.new Opening.start Opening.transport_opened
    Opening.api_versions_negotiated Flow.submit Flow.write_submitted Response.response_received
    Lifecycle.transport_closed allocate submit_in
script_ended = omega arith

run_accounting_example :
    answers 8 (run (new 3 two_calls none) script).1
      + waiting 8 (pending_calls (run (new 3 two_calls none) script).0.state)
    ≡ waiting 8 (pending_calls (new 3 two_calls none).state) + taken 8 (new 3 two_calls none) script
run_accounting_example = run_accounting 8 (new 3 two_calls none) script

all_answered_example :
    answers 8 (run (new 3 two_calls none) script).1 ≡ taken 8 (new 3 two_calls none) script
all_answered_example = all_answered 3 two_calls none script 8 script_ended

run_order_example :
    Sublistᴰ
      (completed (run (new 3 two_calls none) script).1
        ++ entries (pending_calls (run (new 3 two_calls none) script).0.state))
      (entries (pending_calls (new 3 two_calls none).state)
        ++ written (run (new 3 two_calls none) script).1)
run_order_example = run_order (new 3 two_calls none) script

run-IsValid_example :
    (state_epoch (run (new 3 two_calls none) script).0.state ≡ 3)
    × StateIsValid 2 (run (new 3 two_calls none) script).0.state
run-IsValid_example = run-IsValid 3 two_calls none script

run-InSync_example : InSync (run (new 3 two_calls none) script).0
run-InSync_example = run-InSync 3 two_calls none script

-- One call in flight holds the value that the allocator would give out next.
abbrev waits : PendingCall
waits = new_call 7 0 20 30 10

allocate_finds_example :
    (k : ℕ) × ((allocate 0 1 (contains_correlation (waits ∷ []))).1 ≡ some k)
    × (contains_correlation (waits ∷ []) k ≡ false)
allocate_finds_example = allocate_finds 0 (waits ∷ []) (omega arith) (omega arith)

abbrev ready_epoch : ActiveConnection
ready_epoch = record {
  epoch = 3;
  transport_id = 6;
  next_correlation = 0;
  pending = record { capacity = 2; calls = waits ∷ [] };
  negotiated = nothing;
}

abbrev ready_machine : ConnectionMachine
ready_machine = record {
  state = active ActiveMode.ready ready_epoch;
  limits = two_calls;
  policy = none;
  session = record { state = Session.ready nothing; max_capabilities = 4; authentication = none };
  trace = record { capacity = 2; records = [] };
  next_sequence = some 4;
}

ready-IsValid : ActiveIsValid 2 ready_epoch
ready-IsValid = ground arith

submit_accepts_example :
    (k : ℕ) × (next : ℕ) × (contains_correlation (waits ∷ []) k ≡ false)
    × (dispatch ready_machine (submit 8 21 31 2 10)
        ≡ decided
            (with_call ready_machine ready_epoch next (new_call 8 k 21 31 10))
            (applies (schedule_deadline 3 8 31 10 ∷ write_request 3 6 8 k 21 ∷ [])))
submit_accepts_example =
    submit_accepts ready_machine ready_epoch 8 21 31 2 10 refl ready-IsValid (omega arith)
      (omega arith) (omega arith) refl refl refl

abbrev sasl : SaslProtocol
sasl = record { mechanism = plain; handshake_version = 1; authenticate_version = 2 }

abbrev child : AuthenticationMachine
child = record {
  epoch = 3;
  transport_id = 6;
  sasl = sasl;
  limits = record { max_exchange_rounds = 2 };
  state = Authentication.handshaking 4 5 10;
}

abbrev sasl_policy : AuthenticationPolicy
sasl_policy = record {
  policy_mechanism = plain;
  handshake_api_key = 17;
  authenticate_api_key = 36;
  policy_limits = record { max_exchange_rounds = 2 };
}

abbrev sasl_machine : ConnectionMachine
sasl_machine = record {
  state = authenticating 3 6 nothing child;
  limits = two_calls;
  policy = some sasl_policy;
  session = record {
    state = Session.authenticating nothing sasl (Session.handshaking 10);
    max_capabilities = 4;
    authentication = some sasl_policy;
  };
  trace = record { capacity = 2; records = [] };
  next_sequence = some 4;
}

session_takes_example :
    Opening.is_stale
      (Session.apply sasl_machine.session Session.authentication_handshake_succeeded).1
    ≡ false
unfolding Authentication.apply Authenticating.session_input
session_takes_example =
    session_takes sasl_machine 3 6 nothing child (Authentication.handshake_accepted 3 6 4)
      Session.authentication_handshake_succeeded refl (refl, refl, (refl, refl)) refl refl

requests_close_once_example :
    ended (new 3 two_calls none).state + closes (run (new 3 two_calls none) script).1 ≤ 1
requests_close_once_example = requests_close_once (new 3 two_calls none) script
