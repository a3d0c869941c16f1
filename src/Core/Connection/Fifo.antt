-- ===== src/Core/Connection/Fifo.antt =====
-- The order of requests and responses over a whole run of one connection epoch.
use kafka_driver.Base.{
  ℕ, List, [], ◌∷◌, ◌++◌, ◌≡◌, refl, sym, append_assoc, append-nil, Option, none, some, subst,
}
use mathlib.Core.List.{Sublistᴰ}
use mathlib.Core.List.Sublistᴰ
use kafka_driver.Core.Connection.{apply, dispatch, conclude, proceed}
use kafka_driver.Core.Connection.Flow.{Submitted, decided, invalid}
use kafka_driver.Core.Connection.State.{
  ConnectionMachine, ConnectionInput, ConnectionEffect, complete_response, write_request, InputKind,
  kind,
}
use kafka_driver.Core.Connection.Accounting.{pending_calls}
use kafka_driver.Core.Connection.Quiet.{CallEntry, entries, written, completed}
use kafka_driver.Core.Connection.Order.{SubmittedOrdered, dispatch-Ordered}
use kafka_driver.Core.Connection.Runs.{outcome, step, run}

-- Completed entries, then those that wait, among those that waited and those that were written.
abbrev Reads : ConnectionMachine → ConnectionMachine × List ConnectionEffect → Type 0
Reads m (m', es) =
    Sublistᴰ (completed es ++ entries (pending_calls m'.state))
      (entries (pending_calls m.state) ++ written es)

conclude-Reads :
    (m : ConnectionMachine) (n : ℕ) (k : InputKind) (s : Submitted)
    → SubmittedOrdered m.state s
    → Reads m (outcome m (conclude m n k s))
unfolding conclude
conclude-Reads m n k (decided m' d) b = b
conclude-Reads m n k (invalid e) b =
    rw (append-nil (entries (pending_calls m.state)))
      (Sublistᴰ.refl (entries (pending_calls m.state)))

proceed-Reads :
    (m : ConnectionMachine) (i : ConnectionInput) (n : Option ℕ)
    → Reads m (outcome m (proceed m i n))
unfolding proceed
proceed-Reads m i none =
    rw (append-nil (entries (pending_calls m.state)))
      (Sublistᴰ.refl (entries (pending_calls m.state)))
proceed-Reads m i (some n) = conclude-Reads m n (kind i) (dispatch m i) (dispatch-Ordered m i)

step-Reads : (m : ConnectionMachine) (i : ConnectionInput) → Reads m (step m i)
unfolding apply
step-Reads m i = proceed-Reads m i m.next_sequence

completed-append :
    (xs ys : List ConnectionEffect) → completed (xs ++ ys) ≡ completed xs ++ completed ys
completed-append [] ys = refl
completed-append (complete_response c k ∷ xs) ys = rw (completed-append xs ys)
completed-append (_ ∷ xs) ys = completed-append xs ys

written-append : (xs ys : List ConnectionEffect) → written (xs ++ ys) ≡ written xs ++ written ys
written-append [] ys = refl
written-append (write_request e t c k f ∷ xs) ys = rw (written-append xs ys)
written-append (_ ∷ xs) ys = written-append xs ys

-- Two runs one after the other.
compose :
    (before between after done1 done2 sent1 sent2 : List CallEntry)
    → Sublistᴰ (done1 ++ between) (before ++ sent1)
    → Sublistᴰ (done2 ++ after) (between ++ sent2)
    → Sublistᴰ ((done1 ++ done2) ++ after) (before ++ (sent1 ++ sent2))
compose before between after done1 done2 sent1 sent2 first second =
    let inner : Sublistᴰ (done1 ++ (done2 ++ after)) (done1 ++ (between ++ sent2)) =
      Sublistᴰ.append (Sublistᴰ.refl done1) second in
    let outer : Sublistᴰ ((done1 ++ between) ++ sent2) ((before ++ sent1) ++ sent2) =
      Sublistᴰ.append first (Sublistᴰ.refl sent2) in
    let middle : Sublistᴰ (done1 ++ (done2 ++ after)) ((before ++ sent1) ++ sent2) =
      Sublistᴰ.trans inner (
        subst (λ xs. Sublistᴰ xs ((before ++ sent1) ++ sent2)) (append_assoc done1 between sent2)
          outer) in
    rw (append_assoc done1 done2 after, sym (append_assoc before sent1 sent2)) middle

-- Over any sequence of inputs to an epoch, the calls completed by a response, followed by those that
-- still wait, stand in the order in which they waited at the start and were then written: no
-- response completes a call before one that was written earlier and is still open.
pub run_order :
    (m : ConnectionMachine) (is : List ConnectionInput)
    → Sublistᴰ
        (completed (run m is).1 ++ entries (pending_calls (run m is).0.state))
        (entries (pending_calls m.state) ++ written (run m is).1)
run_order m [] =
    rw (append-nil (entries (pending_calls m.state)))
      (Sublistᴰ.refl (entries (pending_calls m.state)))
run_order m (i ∷ is) =
    let next = (step m i).0 in
    rw (completed-append (step m i).1 (run next is).1, written-append (step m i).1 (run next is).1)
      (compose (entries (pending_calls m.state)) (entries (pending_calls next.state))
        (entries (pending_calls (run next is).0.state)) (completed (step m i).1)
        (completed (run next is).1) (written (step m i).1) (written (run next is).1)
        (step-Reads m i) (run_order next is))
