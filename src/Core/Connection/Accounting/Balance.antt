-- ===== src/Core/Connection/Accounting/Balance.antt =====
-- The answers to the calls of a connection epoch: the statement for one step.

use kafka_driver.Base.{
  ℕ, Bool, true, false, some, List, [], ◌∷◌, ◌++◌, ◌==◌, ◌+◌, ◌≡◌, refl, arith, Option-cases, inl,
  inr,
}
use kafka_driver.Base.{Bool, List, ℕ, ◌∷◌, [], ◌≡◌, ◌++◌, true, ◌+◌, arith, some, false, refl}
use kafka_driver.Core.Connection.{List, ℕ}
use kafka_driver.Core.Connection.State.{
  ConnectionMachine, ConnectionInput, ConnectionEffect, StateData, Decision, complete_response,
  fail_call, submit, active, CloseReason,
}
use kafka_driver.Core.Connection.Pending.{PendingCall, remove_awaiting_write, submit_in}
use kafka_driver.Core.Connection.Close.{Specific, failures}
use kafka_driver.Core.Connection.Flow.{Submitted, decided, invalid}
use kafka_driver.Core.Identity.{CallId, EffectId}

-- One where the numbers agree.
abbrev pub one_if : Bool → ℕ
one_if true = 1
one_if false = 0

-- How many of the calls that wait have this identity.
abbrev pub waiting : CallId → List PendingCall → ℕ
waiting call [] = 0
waiting call (p ∷ ps) = one_if (p.call_id == call) + waiting call ps

-- How often the effects answer the call.
abbrev pub answers : CallId → List ConnectionEffect → ℕ
answers call [] = 0
answers call (complete_response c k ∷ es) = one_if (c == call) + answers call es
answers call (fail_call c why d ∷ es) = one_if (c == call) + answers call es
answers call (_ ∷ es) = answers call es

abbrev pub pending_calls : StateData → List PendingCall
pending_calls (active mode c) = c.pending.calls
pending_calls _ = []

abbrev pub submits : CallId → ConnectionInput → ℕ
submits call (submit c f t now at) = one_if (c == call)
submits call _ = 0

pub waiting-append :
    (call : CallId) (xs ys : List PendingCall)
    → waiting call (xs ++ ys) ≡ waiting call xs + waiting call ys
waiting-append call [] ys = omega arith
waiting-append call (x ∷ xs) ys = omega (arith, waiting-append call xs ys)

pub answers-append :
    (call : CallId) (xs ys : List ConnectionEffect)
    → answers call (xs ++ ys) ≡ answers call xs + answers call ys
answers-append call [] ys = omega arith
answers-append call (x ∷ xs) ys = ground (arith, answers-append call xs ys)

pub answers-failures :
    (call : CallId) (reason : CloseReason) (s : Specific) (ps : List PendingCall)
    → answers call (failures reason s ps) ≡ waiting call ps
unfolding failures
answers-failures call reason s [] = refl
answers-failures call reason s (p ∷ ps) = omega (arith, answers-failures call reason s ps)

pub waiting-submit_in :
    (call : CallId) (effect : EffectId) (ps qs : List PendingCall)
    → submit_in effect ps ≡ some qs
    → waiting call qs ≡ waiting call ps
unfolding submit_in
waiting-submit_in call effect [] qs e = ground arith
waiting-submit_in call effect (p ∷ ps) qs e = elim (Option-cases (submit_in effect ps)) [
  | inl missed ↦ ground arith
  | inr (rest, found) ↦ ground (arith, waiting-submit_in call effect ps rest found)
]

pub waiting-remove :
    (call c : CallId) (effect : EffectId) (ps qs : List PendingCall) (x : PendingCall)
    → remove_awaiting_write c effect ps ≡ some (x, qs)
    → one_if (c == call) + waiting call qs ≡ waiting call ps
unfolding remove_awaiting_write
waiting-remove call c effect [] qs x e = ground arith
waiting-remove call c effect (p ∷ ps) qs x e =
    elim (Option-cases (remove_awaiting_write c effect ps)) [
      | inl missed ↦ ground arith
      | inr ((y, rest), found) ↦ ground (arith, waiting-remove call c effect ps rest y found)
    ]

-- What is owed to a call before a step, and what the step leaves and pays.
abbrev pub Balanced : CallId → StateData → ℕ → ConnectionMachine × Decision → Type 0
Balanced call s extra (m, d) =
    waiting call (pending_calls m.state) + answers call d.effects
    ≡ waiting call (pending_calls s) + extra

abbrev pub SubmittedBalanced : CallId → StateData → ℕ → Submitted → Type 0
SubmittedBalanced call s extra (decided m d) = Balanced call s extra (m, d)
SubmittedBalanced call s extra (invalid e) = Unit
