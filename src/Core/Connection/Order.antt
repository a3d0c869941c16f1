-- ===== src/Core/Connection/Order.antt =====
-- The order of requests and responses, input by input: flow.rs, response.rs and pending.rs.
use kafka_driver.Core.Connection.Authenticating
use kafka_driver.Base.{
  ℕ, Option, none, some, List, [], ◌∷◌, ◌++◌, ◌≡◌, ◌⊎◌, inl, inr, refl, arith, Option-cases, length,
}
use mathlib.Core.List.{Sublistᴰ}
use mathlib.Core.List.Sublistᴰ
use kafka_driver.Core.Connection.{dispatch}
use kafka_driver.Core.Connection.Flow
use kafka_driver.Core.Connection.Response
use kafka_driver.Core.Connection.Opening
use kafka_driver.Core.Connection.Lifecycle
use kafka_driver.Core.Connection.Flow.{Submitted, decided, invalid}
use kafka_driver.Core.Connection.Pending.{
  PendingCall, submit_in, remove_awaiting_write, new_call, allocate, contains_correlation,
}
use kafka_driver.Core.Connection.State.{
  ConnectionMachine, ConnectionInput, StateData, Decision, active, start, transport_opened,
  transport_open_failed, api_versions_negotiated, api_versions_negotiated_with_authentication,
  api_versions_failed, authentication, submit, write_submitted, abort_unsent_call, write_failed,
  response_received, response_rejected, deadline_elapsed, begin_drain, transport_closed, ActiveMode,
  ActiveConnection, unexpected_response, correlation_mismatch, mismatched,
}
use kafka_driver.Core.Connection.Accounting.{pending_calls}
use kafka_driver.Core.Connection.Quiet.{
  CallEntry, entries, written, completed, Quiet, completed-failures, authentication-Quiet,
  write_failed-Quiet, rejected-Quiet, elapsed-Quiet, drain-Quiet, closed-Quiet, start-Quiet,
  opened-Quiet, open_failed-Quiet, negotiated-Quiet, versions_failed-Quiet,
  begin_authentication-Quiet,
}

-- What a step completes, and then the calls that still wait, in their order among the calls that
-- waited before and those that the step writes.
abbrev pub Ordered : StateData → ConnectionMachine × Decision → Type 0
Ordered s (m, d) =
    Sublistᴰ (completed d.effects ++ entries (pending_calls m.state))
      (entries (pending_calls s) ++ written d.effects)

Sublist-append_left : (xs ys : List CallEntry) → Sublistᴰ xs (xs ++ ys)
Sublist-append_left [] ys = Sublistᴰ.nil-sublist ys
Sublist-append_left (x ∷ xs) ys = Sublistᴰ.cons-cons refl (Sublist-append_left xs ys)

Quiet-Ordered : (s : StateData) (r : ConnectionMachine × Decision) → Quiet s r → Ordered s r
Quiet-Ordered s (m, d) (inl kept, none_done) =
    rw (kept, none_done) (Sublist-append_left (entries (pending_calls s)) (written d.effects))
Quiet-Ordered s (m, d) (inr gone, none_done) =
    rw (gone, none_done) (Sublistᴰ.nil-sublist (entries (pending_calls s) ++ written d.effects))

entries-append : (xs ys : List PendingCall) → entries (xs ++ ys) ≡ entries xs ++ entries ys
entries-append [] ys = refl
entries-append (x ∷ xs) ys = rw (entries-append xs ys)

entries-submit_in :
    (effect : ℕ) (ps qs : List PendingCall)
    → submit_in effect ps ≡ some qs
    → entries qs ≡ entries ps
unfolding submit_in
entries-submit_in effect [] qs e = ground arith
entries-submit_in effect (p ∷ ps) qs e = elim (Option-cases (submit_in effect ps)) [
  | inl missed ↦ ground arith
  | inr (rest, found) ↦ ground (arith, entries-submit_in effect ps rest found)
]

remove-Sublist :
    (call effect : ℕ) (ps qs : List PendingCall) (x : PendingCall)
    → remove_awaiting_write call effect ps ≡ some (x, qs)
    → Sublistᴰ (entries qs) (entries ps)
unfolding remove_awaiting_write
remove-Sublist call effect [] qs x e = ground arith
remove-Sublist call effect (p ∷ ps) qs x e =
    elim (Option-cases (remove_awaiting_write call effect ps)) [
      | inl missed ↦
          let hit : qs ≡ ps = ground arith in
          rw hit (Sublistᴰ.cons {a = (p.call_id, p.correlation_id)} (Sublistᴰ.refl (entries ps)))
      | inr ((y, rest), found) ↦
          let inner = remove-Sublist call effect ps rest y found in
          let which : (qs ≡ ps) ⊎ (qs ≡ p ∷ rest) = ground arith in
          elim which [
            | inl hit ↦ rw hit (Sublistᴰ.cons (Sublistᴰ.refl (entries ps)))
            | inr kept ↦ rw kept (Sublistᴰ.cons-cons refl inner)
          ]
    ]

-- A step that completes these calls and leaves those to wait.
abbrev Leaves : List CallEntry → List PendingCall → ConnectionMachine × Decision → Type 0
Leaves done rest (m, d) = (completed d.effects ≡ done) × (pending_calls m.state ≡ rest)

Leaves-Ordered :
    (s : StateData) (m : ConnectionMachine) (d : Decision) (done : List CallEntry)
    (rest : List PendingCall)
    → Sublistᴰ (done ++ entries rest) (entries (pending_calls s))
    → Leaves done rest (m, d)
    → Ordered s (m, d)
Leaves-Ordered s m d done rest sub (done_same, rest_same) =
    rw (done_same, rest_same)
      (Sublistᴰ.trans sub (Sublist-append_left (entries (pending_calls s)) (written d.effects)))

either-Ordered :
    (s : StateData) (r : ConnectionMachine × Decision) (done : List CallEntry)
    (rest : List PendingCall)
    → Sublistᴰ (done ++ entries rest) (entries (pending_calls s))
    → Quiet s r ⊎ Leaves done rest r
    → Ordered s r
either-Ordered s (m, d) done rest sub (inl q) = Quiet-Ordered s (m, d) q
either-Ordered s (m, d) done rest sub (inr l) = Leaves-Ordered s m d done rest sub l

write_submitted-Ordered :
    (m : ConnectionMachine) (e t f : ℕ) → Ordered m.state (Flow.write_submitted m e t f)
unfolding Flow.write_submitted
write_submitted-Ordered m e t f = elim (Option-cases (submit_in f (pending_calls m.state))) [
  | inl missed ↦
      let q : Quiet m.state (Flow.write_submitted m e t f) = ground (arith, missed) in
      Quiet-Ordered m.state (Flow.write_submitted m e t f) q
  | inr (rest, found) ↦
      let sub : Sublistᴰ (entries rest) (entries (pending_calls m.state)) =
        rw (entries-submit_in f (pending_calls m.state) rest found)
          (Sublistᴰ.refl (entries (pending_calls m.state))) in
      let split : Quiet m.state (Flow.write_submitted m e t f)
          ⊎ Leaves [] rest (Flow.write_submitted m e t f) =
        ground (arith, found) in
      either-Ordered m.state (Flow.write_submitted m e t f) [] rest sub split
]

abort-Ordered :
    (m : ConnectionMachine) (e t c f : ℕ) → Ordered m.state (Flow.abort_unsent_call m e t c f)
unfolding Flow.abort_unsent_call
abort-Ordered m e t c f = elim (Option-cases (remove_awaiting_write c f (pending_calls m.state))) [
  | inl missed ↦
      let q : Quiet m.state (Flow.abort_unsent_call m e t c f) = ground (arith, missed) in
      Quiet-Ordered m.state (Flow.abort_unsent_call m e t c f) q
  | inr ((x, rest), found) ↦
      let split : Quiet m.state (Flow.abort_unsent_call m e t c f)
          ⊎ Leaves [] rest (Flow.abort_unsent_call m e t c f) =
        ground (arith, found) in
      either-Ordered m.state (Flow.abort_unsent_call m e t c f) [] rest
        (remove-Sublist c f (pending_calls m.state) rest x found) split
]

respond-split :
    (m : ConnectionMachine) (mode : ActiveMode) (c : ActiveConnection) (received : ℕ)
    (p : PendingCall) (ps : List PendingCall)
    → m.state ≡ active mode c
    → c.pending.calls ≡ p ∷ ps
    → Quiet (active mode c) (Response.respond m mode c received (p ∷ ps))
      ⊎ Leaves ((p.call_id, p.correlation_id) ∷ []) ps (Response.respond m mode c received (p ∷ ps))
unfolding Response.respond
respond-split m mode c received p ps at_state same = ground (
  arith,
  same,
  at_state,
  completed-failures unexpected_response none c.pending.calls,
  completed-failures (correlation_mismatch p.correlation_id received)
      (some (p.call_id, mismatched p.correlation_id received)) c.pending.calls,
)

respond-Ordered :
    (m : ConnectionMachine) (mode : ActiveMode) (c : ActiveConnection) (received : ℕ)
    (ps : List PendingCall)
    → m.state ≡ active mode c
    → c.pending.calls ≡ ps
    → Ordered (active mode c) (Response.respond m mode c received ps)
unfolding Response.respond
respond-Ordered m mode c received [] at_state same =
    let q : Quiet (active mode c) (Response.respond m mode c received []) =
      ground (arith, same, at_state, completed-failures unexpected_response none c.pending.calls) in
    Quiet-Ordered (active mode c) (Response.respond m mode c received []) q
respond-Ordered m mode c received (p ∷ ps) at_state same =
    let sub : Sublistᴰ (entries (p ∷ ps)) (entries c.pending.calls) =
      rw same (Sublistᴰ.refl (entries (p ∷ ps))) in
    either-Ordered (active mode c) (Response.respond m mode c received (p ∷ ps))
      ((p.call_id, p.correlation_id) ∷ []) ps sub
      (respond-split m mode c received p ps at_state same)

received-Ordered :
    (m : ConnectionMachine) (s : StateData) (e t k : ℕ)
    → m.state ≡ s
    → Ordered s (Response.response_received m e t k)
unfolding Response.response_received
received-Ordered m (active mode c) e t k same =
    let split : Quiet (active mode c) (Response.response_received m e t k)
        ⊎ (Response.response_received m e t k ≡ Response.respond m mode c k c.pending.calls) =
      ground (arith, same) in
    elim split [
      | inl q ↦ Quiet-Ordered (active mode c) (Response.response_received m e t k) q
      | inr answered ↦ rw answered (respond-Ordered m mode c k c.pending.calls same refl)
    ]
received-Ordered m s e t k same =
    let q : Quiet s (Response.response_received m e t k) = ground (arith, same) in
    Quiet-Ordered s (Response.response_received m e t k) q

abbrev pub SubmittedOrdered : StateData → Submitted → Type 0
SubmittedOrdered s (decided m d) = Ordered s (m, d)
SubmittedOrdered s (invalid e) = Unit

admit_call-Ordered :
    (m : ConnectionMachine) (c : ActiveConnection) (id f t at : ℕ) (found : ℕ × Option ℕ)
    → SubmittedOrdered (active ActiveMode.ready c) (Flow.admit_call m c id f t at found)
unfolding Flow.admit_call
admit_call-Ordered m c id f t at (next, none) = Sublist-append_left (entries c.pending.calls) []
admit_call-Ordered m c id f t at (next, some k) =
    rw (entries-append c.pending.calls (new_call id k f t at ∷ []))
      (Sublistᴰ.refl (entries c.pending.calls ++ (id, k) ∷ []))

abbrev SubmittedQuiet : StateData → Submitted → Type 0
SubmittedQuiet s (decided m d) = Quiet s (m, d)
SubmittedQuiet s (invalid e) = Unit

submitted_ordered : (s : StateData) (r : Submitted) → SubmittedQuiet s r → SubmittedOrdered s r
submitted_ordered s (decided m d) q = Quiet-Ordered s (m, d) q
submitted_ordered s (invalid e) q = tt

submit-Ordered :
    (m : ConnectionMachine) (s : StateData) (id f t now at : ℕ)
    → m.state ≡ s
    → SubmittedOrdered s (Flow.submit m id f t now at)
unfolding Flow.submit
submit-Ordered m (active ActiveMode.ready c) id f t now at same =
    let calls = c.pending.calls in
    let admitted =
      Flow.admit_call m c id f t at
        (allocate c.next_correlation (length calls) (contains_correlation calls)) in
    let split : SubmittedQuiet (active ActiveMode.ready c) (Flow.submit m id f t now at)
        ⊎ (Flow.submit m id f t now at ≡ admitted) =
      ground (arith, same) in
    elim split [
      | inl q ↦ submitted_ordered (active ActiveMode.ready c) (Flow.submit m id f t now at) q
      | inr accepted ↦ rw accepted (
          admit_call-Ordered m c id f t at
            (allocate c.next_correlation (length calls) (contains_correlation calls)))
    ]
submit-Ordered m s id f t now at same =
    let q : SubmittedQuiet s (Flow.submit m id f t now at) = ground (arith, same) in
    submitted_ordered s (Flow.submit m id f t now at) q

-- One step keeps the order, whatever the input.
pub dispatch-Ordered :
    (m : ConnectionMachine) (i : ConnectionInput) → SubmittedOrdered m.state (dispatch m i)
unfolding dispatch
dispatch-Ordered m (start f t d at) =
    Quiet-Ordered m.state (Opening.start m f t d at) (start-Quiet m f t d at)
dispatch-Ordered m (transport_opened e f t n) =
    Quiet-Ordered m.state (Opening.transport_opened m e f t n) (opened-Quiet m e f t n)
dispatch-Ordered m (transport_open_failed e f t why) =
    Quiet-Ordered m.state (Opening.transport_open_failed m e f t why)
      (open_failed-Quiet m e f t why)
dispatch-Ordered m (api_versions_negotiated e t f c) =
    Quiet-Ordered m.state (Opening.api_versions_negotiated m e t f c) (negotiated-Quiet m e t f c)
dispatch-Ordered m (api_versions_negotiated_with_authentication e t f c a) =
    Quiet-Ordered m.state (Authenticating.begin_authentication m e t f c a)
      (begin_authentication-Quiet m m.state e t f c a refl)
dispatch-Ordered m (api_versions_failed e t f why) =
    Quiet-Ordered m.state (Opening.api_versions_failed m e t f why)
      (versions_failed-Quiet m e t f why)
dispatch-Ordered m (authentication i) =
    Quiet-Ordered m.state (Authenticating.authentication_input m i)
      (authentication-Quiet m m.state i refl)
dispatch-Ordered m (submit c f t now at) = submit-Ordered m m.state c f t now at refl
dispatch-Ordered m (write_submitted e t f) = write_submitted-Ordered m e t f
dispatch-Ordered m (abort_unsent_call e t c f) = abort-Ordered m e t c f
dispatch-Ordered m (write_failed e t f why) =
    Quiet-Ordered m.state (Flow.write_failed m e t f why) (write_failed-Quiet m e t f why)
dispatch-Ordered m (response_received e t k) = received-Ordered m m.state e t k refl
dispatch-Ordered m (response_rejected e t why) =
    Quiet-Ordered m.state (Response.response_rejected m e t why) (rejected-Quiet m e t why)
dispatch-Ordered m (deadline_elapsed e t now) =
    Quiet-Ordered m.state (Response.deadline_elapsed m e t now) (elapsed-Quiet m e t now)
dispatch-Ordered m begin_drain = Quiet-Ordered m.state (Lifecycle.begin_drain m) (drain-Quiet m)
dispatch-Ordered m (transport_closed e t why) =
    Quiet-Ordered m.state (Lifecycle.transport_closed m e t why)
      (closed-Quiet m m.state e t why refl)
