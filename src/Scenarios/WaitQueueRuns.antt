-- ===== src/Scenarios/WaitQueueRuns.antt =====
-- The wait queue on a few values, in both builds.
use kafka_driver.Base.{
  nat_ord, insert, pair_ord, ℕ, arith, List, true, false, ◌∷◌, ◌≡◌, ◌++◌, [], map, if◌then◌else◌,
  refl, some, none, ◌==◌,
}
use kafka_driver.Reactor.WaitQueue
use kafka_driver.Reactor.WaitQueue.{WaitQueue, new}
use kafka_driver.Reactor.WaitQueue.Fifo.{
  QueueCall, all_left, all_entered, run, call_of, waits_in_order, waiting-IsValid,
}
use kafka_driver.Reactor.WaitQueue.Due.{GivesDue, due_first}
use kafka_driver.Reactor.WaitQueue.Fifo.{Call}
use kafka_driver.Reactor.WaitQueue.Stale.{second_left, popped_hides_due}

abbrev turns : List (QueueCall ℕ)
turns =
    QueueCall.enters 7 30
    ∷ QueueCall.enters 8 10
    ∷ QueueCall.enters 9 20
    ∷ QueueCall.leaves
    ∷ QueueCall.returns 7 30
    ∷ QueueCall.leaves
    ∷ []

-- A value finds the queue full, and one that left comes back behind the other.
turns-left : all_left true (new 2) turns ≡ 7 ∷ 8 ∷ []
unfolding WaitQueue.push WaitQueue.pop_front WaitQueue.rotate_back new insert
turns-left = refl

waits_in_order_example :
    all_left false (new 2) turns ++ WaitQueue.values (run false (new 2) (map call_of turns)).entries
    ≡ WaitQueue.values (new 2).entries ++ all_entered false (new 2) turns
waits_in_order_example =
    waits_in_order false (new 2) turns (waiting-IsValid false 2 [] (omega arith))

-- In a build without debug assertions the value 8 is due and is not found.
popped_hides_due_example :
    let q = second_left {T = ℕ} false 2 7 10 8 20 in
    (WaitQueue.values q.entries ≡ 8 ∷ [])
    × ((WaitQueue.take_due q 25).1 ≡ (if false then some (8, 20) else none))
popped_hides_due_example =
    popped_hides_due false 2 7 8 10 20 25 (omega arith) (omega arith) (omega arith)

-- The queue of the calls that the next theorem is applied to: one was scanned for, one popped.
abbrev calls : List (Call ℕ)
calls =
    Call.pushes 7 30
    ∷ Call.pushes 8 10
    ∷ Call.pushes 9 20
    ∷ Call.scans (λ x. false)
    ∷ Call.pops_front
    ∷ Call.scans (λ x. x == 8)
    ∷ []

due_first_example :
    GivesDue (run true (new 3) calls).entries 25 (WaitQueue.take_due (run true (new 3) calls) 25).1
due_first_example = due_first 3 calls 25 (omega arith)
