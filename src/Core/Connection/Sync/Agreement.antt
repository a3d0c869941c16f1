-- ===== src/Core/Connection/Sync/Agreement.antt =====
-- A connection epoch beside its session: the statement for one step.

use kafka_driver.Base.{Option, none, some, ◌≡◌}
use kafka_driver.Base.{◌≡◌, some}
use kafka_driver.Core.Connection.State.{
  dormant, opening, closing, closed, ConnectionMachine, StateData, Decision, active, negotiating,
  authenticating, ActiveMode, closed, opening, closing,
}
use kafka_driver.Core.Connection.Flow.{Submitted, decided, invalid}
use kafka_driver.Core.Capability.{NegotiatedCapabilities}
use kafka_driver.Core.Authentication
use kafka_driver.Core.Authentication.{
  AuthenticationInput, AuthenticationEffect, AuthenticationMachine, AuthenticationAttempt,
  AuthenticationPolicy,
}
use kafka_driver.Core.Session
use kafka_driver.Core.Session.{sasl_setup, SaslSetup, usable, unusable, NegotiationFailure}

-- The stage of a session that belongs to a child.
abbrev pub ChildAgrees :
    NegotiatedCapabilities
    → AuthenticationMachine
    → Authentication.AuthenticationState
    → Session.StateData
    → Type 0
ChildAgrees c child (Authentication.handshaking f t d) s =
    s ≡ Session.authenticating c child.sasl (Session.handshaking d)
ChildAgrees c child (Authentication.exchanging f r t d) s =
    s ≡ Session.authenticating c child.sasl (Session.exchanging r d)
ChildAgrees c child _ s = ⊥

abbrev pub LimitsAgree : Option AuthenticationPolicy → AuthenticationMachine → Type 0
LimitsAgree none child = ⊥
LimitsAgree (some p) child = child.limits ≡ p.policy_limits

abbrev pub Agrees : Option AuthenticationPolicy → StateData → Session.StateData → Type 0
Agrees policy (dormant e) s = s ≡ Session.awaiting_transport
Agrees policy (opening e f t timer d) s = s ≡ Session.awaiting_transport
Agrees policy (negotiating e t f timer d) s = s ≡ Session.negotiating d
Agrees policy (authenticating e t c child) s =
    ChildAgrees c child child.state s × LimitsAgree policy child
Agrees policy (active ActiveMode.ready c) s = s ≡ Session.ready c.negotiated
Agrees policy (active ActiveMode.draining c) s = s ≡ Session.draining c.negotiated
Agrees policy (closing e t r) s = Unit
Agrees policy (closed e r) s = Unit

-- Configured alike, and in the same state until the connection gives up.
abbrev pub InSync : ConnectionMachine → Type 0
InSync m =
    (m.session.max_capabilities ≡ m.limits.capabilities)
    × (m.session.authentication ≡ m.policy)
    × Agrees m.policy m.state m.session.state

abbrev pub Follows : ConnectionMachine → ConnectionMachine × Decision → Type 0
Follows m (m', d) = InSync m → InSync m'

abbrev pub SubmittedFollows : ConnectionMachine → Submitted → Type 0
SubmittedFollows m (decided m' d) = Follows m (m', d)
SubmittedFollows m (invalid e) = Unit
