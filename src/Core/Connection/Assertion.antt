-- ===== src/Core/Connection/Assertion.antt =====
-- The assertion in `authentication_input` of authentication.rs.
use kafka_driver.Base.{ℕ, false, some, ◌≡◌, subst, arith}
use kafka_driver.Core.Capability.{NegotiatedCapabilities}
use kafka_driver.Core.Authentication
use kafka_driver.Core.Authentication.{AuthenticationMachine, AuthenticationInput, applied}
use kafka_driver.Core.Session
use kafka_driver.Core.Session.{SessionInput}
use kafka_driver.Core.Connection.Opening.{is_stale}
use kafka_driver.Core.Connection.Authenticating.{session_input}
use kafka_driver.Core.Connection.State.{ConnectionMachine, authenticating}
use kafka_driver.Core.Connection.Sync.{InSync, Agrees}

-- While a connection authenticates in step with its session, every input that the child applies and
-- that concerns the session is one that the session does not ignore as stale.
pub session_takes :
    (m : ConnectionMachine) (e t : ℕ) (c : NegotiatedCapabilities) (child : AuthenticationMachine)
    (i : AuthenticationInput) (j : SessionInput)
    → m.state ≡ authenticating e t c child
    → InSync m
    → (Authentication.apply child i).1.disposition ≡ applied
    → session_input i ≡ some j
    → is_stale (Session.apply m.session j).1 ≡ false
unfolding Authentication.apply Session.apply session_input
session_takes m e t c child (Authentication.start a) j at_state sync took is_j =
    ground (arith, at_state, is_j)
session_takes m e t c child (Authentication.handshake_accepted e' t' f) j at_state sync took is_j =
    let agrees = subst (λ s. Agrees m.policy s m.session.state) at_state sync.2 in
    ground (arith, agrees, is_j, took)
session_takes m e t c child (Authentication.handshake_failed e' t' f why) j at_state sync took
      is_j =
    let agrees = subst (λ s. Agrees m.policy s m.session.state) at_state sync.2 in
    ground (arith, agrees, is_j, took)
session_takes m e t c child (Authentication.exchange_completed e' t' f r o) j at_state sync took
      is_j =
    let agrees = subst (λ s. Agrees m.policy s m.session.state) at_state sync.2 in
    ground (arith, agrees, is_j, took)
session_takes m e t c child (Authentication.deadline_elapsed e' t' now) j at_state sync took is_j =
    let agrees = subst (λ s. Agrees m.policy s m.session.state) at_state sync.2 in
    ground (arith, agrees, is_j, took)
