-- ===== src/Reactor/WaitQueue/Stale.antt =====
-- What is left of the deadlines of the wait queue in a build without debug assertions.
use kafka_driver.Core.Identity.{Moment}
use kafka_driver.Base.{
  nat_ord, pair_ord, ℕ, if◌then◌else◌, Bool, insert, remove, lookup, ◌≤◌, ◌≡◌, ◌∷◌, [], some, none,
  arith, true, false,
}
use kafka_driver.Reactor.WaitQueue.{
  WaitQueue, new, Moment, push, pop_front, insert_back, reserve_sequence, take_entry,
  remove_deadline, take_due, take_numbered, values,
}

module _ {ℓ} {T : Type ℓ} where
  -- Two values, of which the first has been taken from the front.
  abbrev pub second_left : (debug_assertions : Bool) → ℕ → T → Moment → T → Moment → WaitQueue T
  second_left debug_assertions capacity a first b second =
      (pop_front debug_assertions (push (push (new capacity) a first).0 b second).0).0

  -- Where two values wait and the first, with the earlier deadline, is taken from the front, a request
  -- for what is due finds the second only in a build with debug assertions; without them its turn is
  -- spent on the deadline of the value that left.
  pub popped_hides_due :
      (debug_assertions : Bool) (capacity : ℕ) (a b : T) (first second now : Moment)
      → 2 ≤ capacity
      → first ≤ second
      → second ≤ now
      → let q = second_left debug_assertions capacity a first b second in
        (values q.entries ≡ b ∷ [])
        × ((take_due q now).1 ≡ (if debug_assertions then some (b, second) else none))
  unfolding new push insert_back reserve_sequence pop_front take_entry remove_deadline take_due
      take_numbered insert remove lookup
  popped_hides_due true capacity a b first second now room order due =
      ground (arith, room, order, due)
  popped_hides_due false capacity a b first second now room order due =
      ground (arith, room, order, due)
