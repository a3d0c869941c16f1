-- ===== src/Core/Connection.antt =====
-- One connection epoch: crates/kafka-driver-core/src/connection. The machine takes one input at a
-- time and returns the effects for the owner to carry out in order.
pub mod Pending
pub mod State
pub mod Opening
pub mod Authenticating
pub mod Close
pub mod Flow
pub mod Response
pub mod Lifecycle
pub mod Accounting
pub mod Quiet
pub mod Order
pub mod Queue
pub mod Sync
pub mod Assertion
pub mod Invariant
pub mod Correlations
pub mod Runs
pub mod Fifo
pub mod Ending
pub mod Safety
pub mod Phases
pub mod Closes
use kafka_driver.Core.Connection.Authenticating
use kafka_driver.Core.Connection.Flow.{Submitted, decided, invalid}
use kafka_driver.Core.Identity.{ConnectionEpoch}
use kafka_driver.Base.{
  ℕ, List, [], ◌∷◌, if◌then◌else◌, ◌==◌, length, ◌++◌, none, some, Option, checked_add, u64_max,
}
use Prim.Native.Nat.{ℕ}
use kafka_driver.Core.Authentication.{AuthenticationPolicy}
use kafka_driver.Core.Session
use kafka_driver.Core.Connection.State.{
  ConnectionMachine, TransitionTrace, Decision, ConnectionInput, kind, TransitionRecord,
  ConnectionEffect, InputKind, MachineError, ConnectionLimits, dormant, start, transport_opened,
  state_epoch, transport_open_failed, phase, api_versions_negotiated,
  api_versions_negotiated_with_authentication, api_versions_failed, authentication, submit,
  write_submitted, abort_unsent_call, write_failed, response_received, response_rejected,
  deadline_elapsed, transport_closed, begin_drain,
}

new_trace : ℕ → TransitionTrace
new_trace capacity = record { capacity = capacity; records = [] }

drop_oldest : List TransitionRecord → List TransitionRecord
drop_oldest [] = []
drop_oldest (r ∷ rs) = rs

-- `TransitionTrace::push`: the oldest record makes room.
push_record : TransitionTrace → TransitionRecord → TransitionTrace
unfolding drop_oldest
push_record t r =
    if t.capacity == 0
    then t
    else if length t.records == t.capacity
    then record t { records = drop_oldest t.records ++ r ∷ [] }
    else record t { records = t.records ++ r ∷ [] }

unfoldable pub new :
    ConnectionEpoch → ConnectionLimits → Option AuthenticationPolicy → ConnectionMachine
unfolding new_trace
new epoch limits policy = record {
  state = dormant epoch;
  limits = limits;
  policy = policy;
  session = Session.new limits.capabilities policy;
  trace = new_trace limits.trace_records;
  next_sequence = some 0;
}

abbrev pub lift : ConnectionMachine × Decision → Submitted
lift (m, d) = decided m d

unfoldable pub dispatch : ConnectionMachine → ConnectionInput → Submitted
dispatch m (start f t d at) = lift (Opening.start m f t d at)
dispatch m (transport_opened e f t n) = lift (Opening.transport_opened m e f t n)
dispatch m (transport_open_failed e f t why) = lift (Opening.transport_open_failed m e f t why)
dispatch m (api_versions_negotiated e t f c) = lift (Opening.api_versions_negotiated m e t f c)
dispatch m (api_versions_negotiated_with_authentication e t f c a) =
    lift (Authenticating.begin_authentication m e t f c a)
dispatch m (api_versions_failed e t f why) = lift (Opening.api_versions_failed m e t f why)
dispatch m (authentication i) = lift (Authenticating.authentication_input m i)
dispatch m (submit c f t now at) = Flow.submit m c f t now at
dispatch m (write_submitted e t f) = lift (Flow.write_submitted m e t f)
dispatch m (abort_unsent_call e t c f) = lift (Flow.abort_unsent_call m e t c f)
dispatch m (write_failed e t f why) = lift (Flow.write_failed m e t f why)
dispatch m (response_received e t k) = lift (Response.response_received m e t k)
dispatch m (response_rejected e t why) = lift (Response.response_rejected m e t why)
dispatch m (deadline_elapsed e t now) = lift (Response.deadline_elapsed m e t now)
dispatch m begin_drain = lift (Lifecycle.begin_drain m)
dispatch m (transport_closed e t why) = lift (Lifecycle.transport_closed m e t why)

pub data Applied : Type 0 where
  transition : ConnectionMachine → List ConnectionEffect → TransitionRecord → Applied
  error : MachineError → Applied

-- The record of a transition, and the next sequence number if there is one.
unfoldable pub conclude : ConnectionMachine → ℕ → InputKind → Submitted → Applied
unfolding push_record
conclude before sequence i (invalid e) = error e
conclude before sequence i (decided m d) =
    let r : TransitionRecord = record {
      sequence = sequence;
      record_epoch = state_epoch m.state;
      from_phase = phase before.state;
      input_kind = i;
      to_phase = phase m.state;
      outcome = d.disposition;
      effect_count = length d.effects;
    } in
    transition
      (record m { next_sequence = checked_add u64_max sequence 1; trace = push_record m.trace r })
      d.effects r

-- Without a sequence number the input is not looked at.
unfoldable pub proceed : ConnectionMachine → ConnectionInput → Option ℕ → Applied
unfolding conclude kind
proceed m i none = error MachineError.transition_sequence_exhausted
proceed m i (some sequence) = conclude m sequence (kind i) (dispatch m i)

unfoldable pub apply : ConnectionMachine → ConnectionInput → Applied
unfolding proceed
apply m i = proceed m i m.next_sequence
