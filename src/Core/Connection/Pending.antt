-- ===== src/Core/Connection/Pending.antt =====
-- The FIFO of calls that await a write or a response, and the correlation allocator: pending.rs and
-- correlation.rs of crates/kafka-driver-core/src/connection. A queue lists its front first.
use kafka_driver.Base.{
  ℕ, zero, suc, ◌+◌, Bool, true, false, not, ◌&&◌, Option, none, some, List, [], ◌∷◌, ◌++◌, length,
  any, find?, leb, ◌==◌, if◌then◌else◌, i32_max,
}
use kafka_driver.Core.Identity.{
  CallId, EffectId, TimerId, Moment, Delivery, not_sent, possibly_sent, combine,
}
use kafka_driver.Core.Authentication.{CorrelationId}

pub data PendingPhase : Type 0 where
  awaiting_write awaiting_response : PendingPhase

pub record PendingCall : Type 0 where
  pub call_id : CallId
  pub correlation_id : CorrelationId
  pub write_effect : EffectId
  pub deadline_timer : TimerId
  pub deadline : Moment
  pub delivery : Delivery
  pub phase : PendingPhase

abbrev pub new_call : CallId → CorrelationId → EffectId → TimerId → Moment → PendingCall
new_call c k w t d = record {
  call_id = c;
  correlation_id = k;
  write_effect = w;
  deadline_timer = t;
  deadline = d;
  delivery = not_sent;
  phase = awaiting_write;
}

unfoldable pub mark_submitted : PendingCall → PendingCall
unfolding combine
mark_submitted c = record c {
  phase = awaiting_response;
  delivery = combine c.delivery possibly_sent;
}

abbrev pub awaits_write : PendingCall → Bool
awaits_write c = elim c.phase [ awaiting_write ↦ true | awaiting_response ↦ false ]

pub record PendingQueue : Type 0 where
  pub capacity : ℕ
  pub calls : List PendingCall

abbrev pub new_queue : ℕ → PendingQueue
new_queue capacity = record { capacity = capacity; calls = [] }

abbrev pub is_empty : PendingQueue → Bool
is_empty q = elim q.calls [ [] ↦ true | _ ∷ _ ↦ false ]

abbrev pub is_full : PendingQueue → Bool
is_full q = leb q.capacity (length q.calls)

abbrev pub push : PendingQueue → PendingCall → PendingQueue
push q c = record q { calls = q.calls ++ c ∷ [] }

-- The first call with the write effect, if it awaits its write, is marked as submitted. `none` where
-- no call has the effect, or where the first that has it was submitted before.
unfoldable pub submit_in : EffectId → List PendingCall → Option (List PendingCall)
unfolding mark_submitted
submit_in effect [] = none
submit_in effect (c ∷ cs) =
    let rest = submit_in effect cs in
    if c.write_effect == effect
    then if awaits_write c then some (mark_submitted c ∷ cs) else none
    else elim rest [ none ↦ none | some cs' ↦ some (c ∷ cs') ]

-- `position` and `remove`: the first call with these identities that awaits its write.
unfoldable pub remove_awaiting_write :
    CallId → EffectId → List PendingCall → Option (PendingCall × List PendingCall)
remove_awaiting_write call effect [] = none
remove_awaiting_write call effect (c ∷ cs) =
    let rest = remove_awaiting_write call effect cs in
    if c.call_id == call && (c.write_effect == effect && awaits_write c)
    then some (c, cs)
    else elim rest [ none ↦ none | some (x, cs') ↦ some (x, c ∷ cs') ]

abbrev pub by_timer : TimerId → List PendingCall → Option PendingCall
by_timer timer = find? (λ c. c.deadline_timer == timer)

abbrev pub contains_correlation : List PendingCall → CorrelationId → Bool
contains_correlation cs k = any (λ c. c.correlation_id == k) cs

-- The value behind a correlation: the non-negative `i32` values in a ring.
abbrev pub following : CorrelationId → CorrelationId
following k = if k == i32_max then 0 else k + 1

-- The loop of `allocate`, with the rounds left: the next value to try, and the value found.
unfoldable pub allocate_in :
    ℕ → CorrelationId → (CorrelationId → Bool) → CorrelationId × Option CorrelationId
allocate_in zero next in_use = (next, none)
allocate_in (suc rounds) next in_use =
    let rest = allocate_in rounds (following next) in_use in
    if not (in_use next) then (following next, some next) else rest

-- `CorrelationAllocator::allocate`: one round more than there are values in use.
unfoldable pub allocate :
    CorrelationId → ℕ → (CorrelationId → Bool) → CorrelationId × Option CorrelationId
unfolding allocate_in
allocate next in_use_count in_use = allocate_in (suc in_use_count) next in_use
