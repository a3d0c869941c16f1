-- ===== src/Lib.antt =====
-- kafka-driver: the deterministic machines of the driver, and what makes them correct.
--
-- The driver keeps its decisions apart from its I/O. Each machine takes one input at a time and
-- returns effects that a reactor carries out in order; their results come back as later inputs, with
-- the identities of the work they answer, so that a late one is recognised as stale. The parts that
-- are modelled, from the wire upward:
--   Transport/Write    crates/kafka-driver-transport/src/write: the ordered writer, with a bound on
--     frames and bytes. `WriteQueue::admit`, `front`, `advance` and `discard_all` are the functions
--     of the same names; a queue is the list of its frames, and a frame the list of its bytes.
--   Transport/Frame    crates/kafka-driver-transport/src/frame: the decoder of length-prefixed
--     frames. `FrameLimits::new` is `new_limits`, `FrameDecoder::feed` and `next_frame` keep their
--     names.
--   Core/Identity, Core/Capability    identities, clock, delivery, and the negotiated API versions:
--     identity/, time.rs, delivery.rs and capability/ of crates/kafka-driver-core/src.
--   Core/Authentication    authentication/: the SASL child of a connection. Authentication/State
--     holds its data, `apply` its inputs.
--   Core/Session    connection/session/: negotiation and SASL without transport identities.
--   Core/Connection    connection/: one connection epoch. State holds the data, Pending the FIFO of
--     calls with the correlation allocator, Opening, Authenticating, Flow, Response, Close and
--     Lifecycle the input handlers of the Rust files of those names, and the parent `dispatch` and
--     `apply`, which number and trace every transition. The connection drives a session beside its
--     own state and owns a SASL child while it authenticates.
--   Core/Broker    broker/: the owner of a broker's connection epochs, with its backoff policy.
--   Core/EndpointDialer    endpoint_dialer/: the walk through the addresses of one endpoint.
--   Core/Endpoint, Core/Resolution    endpoint.rs and resolution/: host names, endpoints, resolved
--     addresses, and the requests to a resolver with its outcomes.
--   Core/BoundedSet    the loop that `BootstrapSet::try_from_iter` and
--     `ResolvedAddressSet::try_from_iter` share.
--   Core/Canonical    the sorted collections of directory/set.rs, metadata/partition/set.rs and
--     metadata/topic.rs, with their binary search; Core/Capability is searched in the same way.
--   Core/Bootstrap    bootstrap/: one pass through the configured endpoints, and in Retry the wait
--     between two passes.
--   Core/Directory, Core/BrokerResolution    directory/ and broker_resolution/: the brokers of one
--     generation with routes to them, and the resolution of one advertised broker.
--   Core/Metadata    metadata/: the partition leaders, snapshots, revocations and the machine, whose
--     handlers stand in Admission and Outcome as in the Rust files of those names.
--   Core/Coordinator    coordinator/: the lookup of one coordinator, in the same shape.
--   Reactor/WaitQueue    src/reactor/wait_queue.rs: the bounded queue of those that wait for a route,
--     with their deadlines. `debug_assertions` stands for the build's flag of that name.
-- The proofs about a part stand in child modules named for what they prove; Scenarios holds concrete
-- runs.
--
-- A machine is a record, and a handler a function from the machine and the input to the machine
-- after it and its transition; an early return is a branch that returns the machine as it then is.
-- Identities, correlations, clocks and durations are natural numbers. A word keeps its bound where
-- the code computes with it: `checked_add` is given the largest value, and correlations run through
-- the non-negative `i32` values. `usize` has 64 bits. A duration counts nanoseconds. Limits that are
-- nonzero in the code are hypotheses where a proof needs them.
--
-- The allocator's loop is a recursion on its own count of rounds, one more than the calls in flight;
-- the decoder's drain takes one round more than the bytes that are held, and each body takes four
-- bytes at least, so that both end by themselves. The binary search takes at most as many rounds as
-- the list has entries, since each one shortens its range.
--
-- The standard library's binary search and sort are modelled: the search as its loop, the sort by
-- insertion, since the order of equal keys is not promised and the collections refuse them. A `BTreeMap`
-- is the list of its entries in the order of their keys (Base/OrderedMap). Strings and arrays of bytes are lists of numbers.
--
-- Not modelled: sockets, TLS, the rest of the reactor and the public API of the package (I/O and
-- glue), the SCRAM computations and message codecs (other packages), snapshots and displays of the
-- machines, and the probe and the simulator (tools).
mod Base
pub mod Reactor
pub mod Core
pub mod Transport
pub mod Scenarios
